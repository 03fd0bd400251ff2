-- ===== src/Storage/Owners.antt =====
-- What the loops of `build_reachability` in server/storage.py add to the owners of an entry.
use astrolab.Prelude.{
  String, Bool, true, false, ◌&&◌, ◌||◌, ◌≡◌, refl, sym, ◌∙◌, subst, none, some, List, [], ◌∷◌,
  ◌++◌, any, arith, str_eq, eq_iff, is_some, Option-cases, Bool-cases, inl, inr,
}
use astrolab.Dict.{Dict, get, set, get-set}
use astrolab.Cache.{member}
use astrolab.Projects.Records.{HistoryEntry, ProjectRow, HistoryRow}
use astrolab.Projects.Tables.{entries_of, order_entries}
use astrolab.Storage.Reach.{
  CacheEntryInfo, Tiers, Hashes, tier_of, oldest, add_owner, attribute, attribute_all, pairs_of,
  walk_history, walk_projects,
}

-- No id stands twice.
abbrev pub IsOnce : List String → Type 0
IsOnce [] = Unit
IsOnce (o ∷ owners) = (member o owners ≡ false) × IsOnce owners

member-append :
    (o id : String) (owners : List String)
    → member o (owners ++ id ∷ []) ≡ (member o owners || str_eq id o)
member-append o id [] = ground arith
member-append o id (x ∷ owners) = ground (arith, member-append o id owners)

IsOnce-append :
    (id : String) (owners : List String)
    → IsOnce owners
    → member id owners ≡ false
    → IsOnce (owners ++ id ∷ [])
IsOnce-append id [] h n = (refl, tt)
IsOnce-append id (x ∷ owners) h n = ground (
  arith,
  h.0,
  h.1,
  n,
  member-append x id owners,
  eq_iff id x,
  eq_iff x id,
  IsOnce-append id owners,
)

IsOnce-add_owner :
    (id : String) (owners : List String) → IsOnce owners → IsOnce (add_owner id owners)
IsOnce-add_owner id owners h = elim (Bool-cases (member id owners)) [
  | inl e ↦ ground (arith, e, h)
  | inr e ↦ ground (arith, e, IsOnce-append id owners h e)
]

any-append :
    (test : String → Bool) (id : String) (owners : List String)
    → any test (owners ++ id ∷ []) ≡ (any test owners || test id)
any-append test id [] = ground arith
any-append test id (x ∷ owners) = ground (arith, any-append test id owners)

any-member :
    (test : String → Bool) (id : String) (owners : List String)
    → member id owners ≡ true
    → test id ≡ true
    → any test owners ≡ true
any-member test id [] h t = absurd (ground (arith, h))
any-member test id (x ∷ owners) h t = elim (Bool-cases (str_eq x id)) [
  | inl e ↦
      let here : test x ≡ true = subst (λ y. test y ≡ true) (sym ((eq_iff x id).0 e)) t in
      ground (arith, here)
  | inr e ↦ ground (arith, e, h, any-member test id owners)
]

any-add_owner :
    (test : String → Bool) (id : String) (owners : List String)
    → any test (add_owner id owners) ≡ (any test owners || test id)
any-add_owner test id owners = elim (Bool-cases (member id owners)) [
  | inl e ↦ ground (arith, e, any-member test id owners e)
  | inr e ↦ ground (arith, e, any-append test id owners)
]

abbrev pub owners_at : String → Dict CacheEntryInfo → List String
owners_at q entries = elim (get q entries) [ none ↦ [] | some e ↦ e.owners ]

module _ (q : String) (test : String → Bool) where
  -- The entry of `q` is kept, and has an owner of the kind more where `extra` says so.
  pub record Gains (extra : Bool) (entries after : Dict CacheEntryInfo) : Type 0 where
    pub there : is_some (get q after) ≡ is_some (get q entries)
    pub owned :
        is_some (get q entries) ≡ true
        → any test (owners_at q after) ≡ (any test (owners_at q entries) || extra)
    pub once : IsOnce (owners_at q entries) → IsOnce (owners_at q after)

  Gains-same : (entries : Dict CacheEntryInfo) → Gains false entries entries
  Gains-same entries = record { there = refl; owned = λ h. ground arith; once = λ h. h }

  Gains-trans :
      (x y : Bool) (a b c : Dict CacheEntryInfo) → Gains x a b → Gains y b c → Gains (x || y) a c
  Gains-trans x y a b c g h = record {
    there = h.there ∙ g.there;
    owned = λ s. ground (arith, s, g.there, g.owned s, h.owned (g.there ∙ s));
    once = λ o. h.once (g.once o);
  }

  absent-Gains :
      (x : Bool) (hash : String) (entries : Dict CacheEntryInfo)
      → get hash entries ≡ none
      → Gains (x && str_eq hash q) entries entries
  absent-Gains x hash entries e = record {
    there = refl;
    owned = λ t. elim (Bool-cases (str_eq hash q)) [
      | inl s ↦
          let at : get q entries ≡ none =
            subst (λ h. get h entries ≡ none) ((eq_iff hash q).0 s) e in
          absurd (ground (arith, at, t))
      | inr s ↦ ground (arith, s)
    ];
    once = λ o. o;
  }

  module _ {V : Type 0} (tiers : Tiers) where
    -- The entry that `attribute` writes.
    abbrev attributed : ProjectRow V → String → CacheEntryInfo → CacheEntryInfo
    attributed p node e = record e {
      owners = add_owner p.id e.owners;
      tier = tier_of tiers p.template node e.tier;
      oldest_owner_updated_at = oldest p.updated_at e.oldest_owner_updated_at;
    }

    set-Gains :
        (p : ProjectRow V) (node hash : String) (i : CacheEntryInfo) (entries : Dict CacheEntryInfo)
        → get hash entries ≡ some i
        → Gains (test p.id && str_eq hash q) entries (set hash (attributed p node i) entries)
    set-Gains p node hash i entries e =
        let new = get-set hash q (attributed p node i) entries in
        elim (Bool-cases (str_eq hash q)) [
          | inl s ↦
              let at : get q entries ≡ some i =
                subst (λ h. get h entries ≡ some i) ((eq_iff hash q).0 s) e in
              record {
                there = ground (arith, at, s, new);
                owned = λ t. ground (arith, at, s, new, any-add_owner test p.id i.owners);
                once = λ o. ground (arith, at, s, new, o, IsOnce-add_owner p.id i.owners);
              }
          | inr s ↦ record {
            there = ground (arith, s, new);
            owned = λ t. ground (arith, s, new);
            once = λ o. ground (arith, s, new, o);
          }
        ]

    attribute-Gains :
        (p : ProjectRow V) (node hash : String) (entries : Dict CacheEntryInfo)
        → Gains (test p.id && str_eq hash q) entries (attribute tiers p (node, hash) entries)
    unfolding attribute
    attribute-Gains p node hash entries = elim (Option-cases (get hash entries)) [
      | inl e ↦
          let same : entries ≡ attribute tiers p (node, hash) entries = ground (arith, e) in
          subst (λ d. Gains (test p.id && str_eq hash q) entries d) same
            (absent-Gains (test p.id) hash entries e)
      | inr (i, e) ↦
          let same : set hash (attributed p node i) entries
              ≡ attribute tiers p (node, hash) entries =
            ground (arith, e) in
          subst (λ d. Gains (test p.id && str_eq hash q) entries d) same
            (set-Gains p node hash i entries e)
    ]

    attribute_all-Gains :
        (p : ProjectRow V) (pairs : List (String × String)) (entries : Dict CacheEntryInfo)
        → Gains
            (test p.id && any (λ e. str_eq e.1 q) pairs)
            entries
            (attribute_all tiers p pairs entries)
    unfolding attribute_all
    attribute_all-Gains p [] entries =
        subst (λ x. Gains x entries entries) (ground arith) (Gains-same entries)
    attribute_all-Gains p ((node, hash) ∷ pairs) entries =
        let now = attribute tiers p (node, hash) entries in
        let rest = any (λ e. str_eq e.1 q) pairs in
        let same : ((test p.id && str_eq hash q) || (test p.id && rest))
            ≡ (test p.id && any (λ e. str_eq e.1 q) ((node, hash) ∷ pairs)) =
          ground arith in
        subst (λ x. Gains x entries (attribute_all tiers p pairs now)) same
          (Gains-trans (test p.id && str_eq hash q) (test p.id && rest) entries now
            (attribute_all tiers p pairs now) (attribute-Gains p node hash entries)
            (attribute_all-Gains p pairs now))

    abbrev touches : Dict Hashes → ProjectRow V → HistoryEntry V → Bool
    touches payloads p h = any (λ e. str_eq e.1 q) (pairs_of p (get h.job_id payloads))

    walk_history-Gains :
        (payloads : Dict Hashes) (p : ProjectRow V) (history : List (HistoryEntry V))
        (entries : Dict CacheEntryInfo)
        → Gains
            (test p.id && any (touches payloads p) history)
            entries
            (walk_history tiers payloads p history entries)
    unfolding walk_history
    walk_history-Gains payloads p [] entries =
        subst (λ x. Gains x entries entries) (ground arith) (Gains-same entries)
    walk_history-Gains payloads p (h ∷ history) entries =
        let now = attribute_all tiers p (pairs_of p (get h.job_id payloads)) entries in
        let rest = any (touches payloads p) history in
        let same : ((test p.id && touches payloads p h) || (test p.id && rest))
            ≡ (test p.id && any (touches payloads p) (h ∷ history)) =
          ground arith in
        subst (λ x. Gains x entries (walk_history tiers payloads p history now)) same
          (Gains-trans (test p.id && touches payloads p h) (test p.id && rest) entries now
            (walk_history tiers payloads p history now)
            (attribute_all-Gains p (pairs_of p (get h.job_id payloads)) entries)
            (walk_history-Gains payloads p history now))

    abbrev walks : Dict Hashes → List (HistoryRow V) → ProjectRow V → Bool
    walks payloads history p = any (touches payloads p) (order_entries (entries_of p.id history))

    pub walk_projects-Gains :
        (payloads : Dict Hashes) (history : List (HistoryRow V)) (projects : List (ProjectRow V))
        (entries : Dict CacheEntryInfo)
        → Gains
            (any (λ p. test p.id && walks payloads history p) projects)
            entries
            (walk_projects tiers payloads history projects entries)
    unfolding walk_projects
    walk_projects-Gains payloads history [] entries = Gains-same entries
    walk_projects-Gains payloads history (p ∷ projects) entries =
        let own = order_entries (entries_of p.id history) in
        let now = walk_history tiers payloads p own entries in
        let rest = any (λ r. test r.id && walks payloads history r) projects in
        let same : ((test p.id && walks payloads history p) || rest)
            ≡ any (λ r. test r.id && walks payloads history r) (p ∷ projects) =
          ground arith in
        subst (λ x. Gains x entries (walk_projects tiers payloads history projects now)) same
          (Gains-trans (test p.id && walks payloads history p) rest entries now
            (walk_projects tiers payloads history projects now)
            (walk_history-Gains payloads p own entries)
            (walk_projects-Gains payloads history projects now))

-- ===== src/Storage/Owned.antt =====
-- The owners that `build_reachability` of server/storage.py gives an entry, against the rows of the
-- tables.
use astrolab.Prelude.{
  String, Bool, true, false, ◌&&◌, ◌≡◌, refl, sym, ◌∙◌, subst, Option, none, some, List, [], ◌∷◌,
  any, arith, str_eq, is_some, length,
}
use astrolab.Dict.{Dict, get, set, get-set}
use astrolab.Models.{NodeSpec}
use astrolab.Cache.{Cache, entry_size, member, all_committed_hashes}
use astrolab.Projects.Records.{HistoryEntry, ProjectRow, HistoryRow}
use astrolab.Projects.Labels.{take}
use astrolab.Projects.Tables.{entries_of, insert_entry, order_entries}
use astrolab.Storage.Reach.{
  CacheEntryInfo, Tiers, Hashes, by_node, by_place, new_info, scan_cache, by_index, pairs_of,
  build_reachability,
}
use astrolab.Storage.Owners.{walk_projects-Gains, IsOnce, owners_at}

any-insert_entry :
    {V : Type 0} (f : HistoryEntry V → Bool) (h : HistoryEntry V) (history : List (HistoryEntry V))
    → any f (insert_entry h history) ≡ any f (h ∷ history)
unfolding insert_entry
any-insert_entry f h [] = refl
any-insert_entry f h (g ∷ history) = ground (arith, any-insert_entry f h history)

any-order_entries :
    {V : Type 0} (f : HistoryEntry V → Bool) (history : List (HistoryEntry V))
    → any f (order_entries history) ≡ any f history
unfolding order_entries
any-order_entries f [] = refl
any-order_entries f (h ∷ history) =
    any-insert_entry f h (order_entries history) ∙ ground (arith, any-order_entries f history)

any-entries_of :
    {V : Type 0} (f : HistoryEntry V → Bool) (id : String) (rows : List (HistoryRow V))
    → any f (entries_of id rows) ≡ any (λ r. str_eq r.project_id id && f r.entry) rows
unfolding entries_of
any-entries_of f id [] = refl
any-entries_of f id (r ∷ rows) = ground (arith, any-entries_of f id rows)

any-by_index :
    {V : Type 0} (q : String) (nodes : List (NodeSpec V)) (hashes : List String)
    → any (λ e. str_eq e.1 q) (by_index nodes hashes) ≡ member q (take (length nodes) hashes)
unfolding by_index take
any-by_index q [] hashes = refl
any-by_index q (n ∷ nodes) [] = refl
any-by_index q (n ∷ nodes) (h ∷ hashes) = ground (arith, any-by_index q nodes hashes)

module _ {V : Type 0} (payloads : Dict Hashes) where
  -- A job of the project has `q` under a node, or in the older list at the place of one.
  abbrev pub takes : String → ProjectRow V → Option Hashes → Bool
  takes q p none = false
  takes q p (some (by_node pairs)) = any (λ e. str_eq e.1 q) pairs
  takes q p (some (by_place hashes)) = member q (take (length p.template.nodes) hashes)

  -- A job in the project's history has `q`.
  abbrev pub owns : List (HistoryRow V) → String → ProjectRow V → Bool
  owns history q p =
      any (λ r. str_eq r.project_id p.id && takes q p (get r.entry.job_id payloads)) history

  any-pairs_of :
      (q : String) (p : ProjectRow V) (x : Option Hashes)
      → any (λ e. str_eq e.1 q) (pairs_of p x) ≡ takes q p x
  unfolding pairs_of
  any-pairs_of q p none = refl
  any-pairs_of q p (some (by_node pairs)) = refl
  any-pairs_of q p (some (by_place hashes)) = any-by_index q p.template.nodes hashes

  any-touches :
      (q : String) (p : ProjectRow V) (rows : List (HistoryRow V))
      → any
          (λ r.
            str_eq r.project_id p.id
            && any (λ e. str_eq e.1 q) (pairs_of p (get r.entry.job_id payloads)))
          rows
        ≡ owns rows q p
  any-touches q p [] = refl
  any-touches q p (r ∷ rows) =
      ground (arith, any-touches q p rows, any-pairs_of q p (get r.entry.job_id payloads))

  walks-owns :
      (q : String) (history : List (HistoryRow V)) (p : ProjectRow V)
      → any
          (λ h. any (λ e. str_eq e.1 q) (pairs_of p (get h.job_id payloads)))
          (order_entries (entries_of p.id history))
        ≡ owns history q p
  walks-owns q history p =
      let f =
        λ (h : HistoryEntry V). any (λ e. str_eq e.1 q) (pairs_of p (get h.job_id payloads)) in
      any-order_entries f (entries_of p.id history)
      ∙ any-entries_of f p.id history
      ∙ any-touches q p history

  any-walks :
      (test : String → Bool) (q : String) (history : List (HistoryRow V))
      (projects : List (ProjectRow V))
      → any
          (λ p.
            test p.id
            && any
                (λ h. any (λ e. str_eq e.1 q) (pairs_of p (get h.job_id payloads)))
                (order_entries (entries_of p.id history)))
          projects
        ≡ any (λ p. test p.id && owns history q p) projects
  any-walks test q history [] = refl
  any-walks test q history (p ∷ projects) =
      ground (arith, any-walks test q history projects, walks-owns q history p)

  scan_cache-owners :
      (q : String) (hashes : List String) (c : Cache V) (entries : Dict CacheEntryInfo)
      → owners_at q entries ≡ []
      → owners_at q (scan_cache hashes c entries) ≡ []
  unfolding scan_cache
  scan_cache-owners q [] c entries h = h
  scan_cache-owners q (hash ∷ hashes) c entries h =
      let info = new_info hash (entry_size hash c) in
      scan_cache-owners q hashes c (set hash info entries)
        (ground (arith, h, get-set hash q info entries))

  -- The owners of an entry are of a kind if and only if a project of that kind owns it.
  pub any-owners :
      (tiers : Tiers) (projects : List (ProjectRow V)) (history : List (HistoryRow V)) (c : Cache V)
      (q : String) (test : String → Bool) (i : CacheEntryInfo)
      → get q (build_reachability tiers payloads projects history c) ≡ some i
      → (any test i.owners ≡ any (λ p. test p.id && owns history q p) projects) × IsOnce i.owners
  unfolding build_reachability
  any-owners tiers projects history c q test i e =
      let start = scan_cache (all_committed_hashes c) c [] in
      let g = walk_projects-Gains q test tiers payloads history projects start in
      let bare = scan_cache-owners q (all_committed_hashes c) c [] (unfold get in refl) in
      let once : IsOnce (owners_at q start) = subst IsOnce (sym bare) tt in
      let there : is_some (get q start) ≡ true = sym g.there ∙ ground (arith, e) in
      let all : owners_at q (build_reachability tiers payloads projects history c) ≡ i.owners =
        ground (arith, e) in
      (
        ground (arith, sym all, g.owned there, bare, any-walks test q history projects),
        subst IsOnce all (g.once once),
      )

-- ===== src/Storage/Described.antt =====
-- The entries that `build_reachability` of server/storage.py makes, against the directories of the cache.
use astrolab.Prelude.{
  String, Bool, true, false, ◌≡◌, refl, none, some, List, [], ◌∷◌, arith, str_eq, eq_iff,
  if◌then◌else◌, is_some, option_both, ◌∙◌,
}
use astrolab.Dict.{Dict, get, set, IsDict, get-set, set-IsDict}
use astrolab.Cache.{Cache, entry_size, is_committed, all_committed_hashes, member}
use astrolab.Projects.Records.{HistoryEntry, ProjectRow, HistoryRow}
use astrolab.Projects.Tables.{entries_of, order_entries}
use astrolab.Storage.Reach.{
  CacheEntryInfo, Tiers, Hashes, scan_cache, attribute, attribute_all, pairs_of, walk_history,
  walk_projects, build_reachability, new_info,
}
use astrolab.Storage.Cleanup.{values, total_bytes}
use astrolab.Storage.Sweep.{listed, IsDistinct, remaining}

abbrev also : String → (String → Bool) → String → Bool
also hash known q = if str_eq hash q then true else known q

abbrev scanned : List String → (String → Bool) → String → Bool
scanned [] known = known
scanned (hash ∷ hashes) known = scanned hashes (also hash known)

scanned-member :
    (q : String) (hashes : List String) (known : String → Bool)
    → scanned hashes known q ≡ (if member q hashes then true else known q)
scanned-member q [] known = refl
scanned-member q (hash ∷ hashes) known = ground (arith, scanned-member q hashes (also hash known))

module _ {V : Type 0} where
  -- The hashes are those that `known` holds of; the entry under a hash is the hash's, and has its
  -- size.
  pub record IsDescribed (c : Cache V) (known : String → Bool) (entries : Dict CacheEntryInfo)
      : Type 0 where
    pub distinct : IsDict entries
    pub named :
        (hash : String) (e : CacheEntryInfo) → get hash entries ≡ some e → e.node_hash ≡ hash
    pub sized :
        (hash : String) (e : CacheEntryInfo)
        → get hash entries ≡ some e
        → e.bytes ≡ entry_size hash c
    pub found : (hash : String) → is_some (get hash entries) ≡ known hash

  set-IsDescribed :
      (c : Cache V) (hash : String) (e : CacheEntryInfo) (known : String → Bool)
      (entries : Dict CacheEntryInfo)
      → e.node_hash ≡ hash
      → e.bytes ≡ entry_size hash c
      → IsDescribed c known entries
      → IsDescribed c (also hash known) (set hash e entries)
  set-IsDescribed c hash e known entries name size d = record {
    distinct = set-IsDict hash e entries d.distinct;
    named =
        λ q f at. ground (arith, get-set hash q e entries, eq_iff hash q, d.named q f, at, name);
    sized =
        λ q f at. ground (arith, get-set hash q e entries, eq_iff hash q, d.sized q f, at, size);
    found = λ q. ground (arith, get-set hash q e entries, d.found q);
  }

  again-IsDescribed :
      (c : Cache V) (hash : String) (known : String → Bool) (entries : Dict CacheEntryInfo)
      → known hash ≡ true
      → IsDescribed c (also hash known) entries
      → IsDescribed c known entries
  again-IsDescribed c hash known entries there d = record {
    distinct = d.distinct;
    named = d.named;
    sized = d.sized;
    found = λ q. ground (arith, d.found q, eq_iff hash q, there);
  }

  attribute-IsDescribed :
      (tiers : Tiers) (p : ProjectRow V) (node hash : String) (c : Cache V) (known : String → Bool)
      (entries : Dict CacheEntryInfo)
      → IsDescribed c known entries
      → IsDescribed c known (attribute tiers p (node, hash) entries)
  unfolding attribute
  attribute-IsDescribed tiers p node hash c known entries d =
      option_both (IsDescribed c known) (get hash entries) d (λ e at.
        again-IsDescribed c hash known _ (ground (arith, d.found hash, at))
          (set-IsDescribed c hash _ known entries (d.named hash e at) (d.sized hash e at) d))

  attribute_all-IsDescribed :
      (tiers : Tiers) (p : ProjectRow V) (pairs : List (String × String)) (c : Cache V)
      (known : String → Bool) (entries : Dict CacheEntryInfo)
      → IsDescribed c known entries
      → IsDescribed c known (attribute_all tiers p pairs entries)
  unfolding attribute_all
  attribute_all-IsDescribed tiers p [] c known entries d = d
  attribute_all-IsDescribed tiers p ((node, hash) ∷ pairs) c known entries d =
      attribute_all-IsDescribed tiers p pairs c known (attribute tiers p (node, hash) entries)
        (attribute-IsDescribed tiers p node hash c known entries d)

  walk_history-IsDescribed :
      (tiers : Tiers) (payloads : Dict Hashes) (p : ProjectRow V) (history : List (HistoryEntry V))
      (c : Cache V) (known : String → Bool) (entries : Dict CacheEntryInfo)
      → IsDescribed c known entries
      → IsDescribed c known (walk_history tiers payloads p history entries)
  unfolding walk_history
  walk_history-IsDescribed tiers payloads p [] c known entries d = d
  walk_history-IsDescribed tiers payloads p (h ∷ history) c known entries d =
      walk_history-IsDescribed tiers payloads p history c known
        (attribute_all tiers p (pairs_of p (get h.job_id payloads)) entries)
        (attribute_all-IsDescribed tiers p (pairs_of p (get h.job_id payloads)) c known entries d)

  walk_projects-IsDescribed :
      (tiers : Tiers) (payloads : Dict Hashes) (history : List (HistoryRow V))
      (projects : List (ProjectRow V)) (c : Cache V) (known : String → Bool)
      (entries : Dict CacheEntryInfo)
      → IsDescribed c known entries
      → IsDescribed c known (walk_projects tiers payloads history projects entries)
  unfolding walk_projects
  walk_projects-IsDescribed tiers payloads history [] c known entries d = d
  walk_projects-IsDescribed tiers payloads history (p ∷ projects) c known entries d =
      let own = order_entries (entries_of p.id history) in
      walk_projects-IsDescribed tiers payloads history projects c known
        (walk_history tiers payloads p own entries)
        (walk_history-IsDescribed tiers payloads p own c known entries d)

  scan_cache-IsDescribed :
      (hashes : List String) (c : Cache V) (known : String → Bool) (entries : Dict CacheEntryInfo)
      → IsDescribed c known entries
      → IsDescribed c (scanned hashes known) (scan_cache hashes c entries)
  unfolding scan_cache
  scan_cache-IsDescribed [] c known entries d = d
  scan_cache-IsDescribed (hash ∷ hashes) c known entries d =
      scan_cache-IsDescribed hashes c (also hash known)
        (set hash (new_info hash (entry_size hash c)) entries)
        (set-IsDescribed c hash (new_info hash (entry_size hash c)) known entries refl refl d)

  absent-all_committed_hashes :
      (q : String) (c : Cache V) → get q c ≡ none → member q (all_committed_hashes c) ≡ false
  unfolding all_committed_hashes get
  absent-all_committed_hashes q [] e = refl
  absent-all_committed_hashes q ((hash, d) ∷ c) e = ground (arith, absent-all_committed_hashes q c)

  member-all_committed_hashes :
      (q : String) (c : Cache V) → IsDict c → member q (all_committed_hashes c) ≡ is_committed q c
  unfolding all_committed_hashes is_committed get
  member-all_committed_hashes q [] h = refl
  member-all_committed_hashes q ((hash, d) ∷ c) h = ground (
    arith,
    member-all_committed_hashes q c,
    absent-all_committed_hashes q c,
    eq_iff hash q,
    h.0,
    h.1,
  )

  empty-IsDescribed : (c : Cache V) → IsDescribed c (λ q. false) []
  unfolding get
  empty-IsDescribed c = record {
    distinct = tt;
    named = λ hash e at. cc;
    sized = λ hash e at. cc;
    found = λ hash. refl;
  }

  pub build_reachability-IsDescribed :
      (tiers : Tiers) (payloads : Dict Hashes) (projects : List (ProjectRow V))
      (history : List (HistoryRow V)) (c : Cache V)
      → IsDict c
      → IsDescribed c (λ q. is_committed q c) (build_reachability tiers payloads projects history c)
  unfolding build_reachability
  build_reachability-IsDescribed tiers payloads projects history c h =
      walk_projects-IsDescribed tiers payloads history projects c (λ q. is_committed q c)
        (scan_cache (all_committed_hashes c) c [])
        (let d =
            scan_cache-IsDescribed (all_committed_hashes c) c (λ q. false) []
              (empty-IsDescribed c) in
          record {
            distinct = d.distinct;
            named = d.named;
            sized = d.sized;
            found = λ q.
                d.found q
                ∙ scanned-member q (all_committed_hashes c) (λ q. false)
                ∙ ground (arith, member-all_committed_hashes q c h);
          })

  -- ---- the list of the entries

  abbrev pub Each : Cache V → Dict CacheEntryInfo → Type 0
  Each c [] = Unit
  Each c ((hash, e) ∷ entries) =
      (e.node_hash ≡ hash) × (e.bytes ≡ entry_size hash c) × Each c entries

  pub Each-entry :
      (c : Cache V) (entries : Dict CacheEntryInfo)
      → IsDict entries
      → ((hash : String) (e : CacheEntryInfo) → get hash entries ≡ some e → e.node_hash ≡ hash)
      → ((hash : String) (e : CacheEntryInfo)
          → get hash entries ≡ some e
          → e.bytes ≡ entry_size hash c)
      → Each c entries
  unfolding get
  Each-entry c [] d named sized = tt
  Each-entry c ((hash, e) ∷ entries) d named sized = (
    named hash e (ground (arith, eq_iff hash hash)),
    sized hash e (ground (arith, eq_iff hash hash)),
    Each-entry c entries d.1 (λ q f at. named q f (ground (arith, at, eq_iff hash q, d.0)))
        (λ q f at. sized q f (ground (arith, at, eq_iff hash q, d.0))),
  )

  pub listed-values :
      (c : Cache V) (q : String) (entries : Dict CacheEntryInfo)
      → Each c entries
      → listed q (values entries) ≡ is_some (get q entries)
  unfolding get
  listed-values c q [] each = refl
  listed-values c q ((hash, e) ∷ entries) each =
      ground (arith, listed-values c q entries, each.0, each.2)

  pub values-IsDistinct :
      (c : Cache V) (entries : Dict CacheEntryInfo)
      → IsDict entries
      → Each c entries
      → IsDistinct (values entries)
  unfolding get
  values-IsDistinct c [] d each = tt
  values-IsDistinct c ((hash, e) ∷ entries) d each = (
    rw each.0 (listed-values c hash entries each.2 ∙ ground (arith, d.0)),
    values-IsDistinct c entries d.1 each.2,
  )

  pub total_bytes-values :
      (c : Cache V) (entries : Dict CacheEntryInfo)
      → Each c entries
      → total_bytes (values entries) ≡ remaining (values entries) c
  unfolding total_bytes entry_size
  total_bytes-values c [] each = refl
  total_bytes-values c ((hash, e) ∷ entries) each =
      ground (arith, total_bytes-values c entries, each.0, each.1, each.2)

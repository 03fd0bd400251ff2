-- ===== src/Storage/Purge.antt =====
-- What `purge_project_cache` of server/storage.py evicts, by the rows of the tables.
use astrolab.Prelude.{
  String, Bool, true, false, ◌≡◌, refl, Option, none, some, List, [], ◌∷◌, ◌++◌, map, arith, str_eq,
  eq_iff, if◌then◌else◌, ◌&&◌, not, keep_if, ◌∙◌, any, ◌||◌, Option-cases, inl, inr,
}
use astrolab.Dict.{Dict, get, IsDict}
use astrolab.Models.{Ref}
use astrolab.Jobs.Store.{JobRecord, Store}
use astrolab.Cache.{Cache, Dir, member, is_committed}
use astrolab.Projects.Records.{HistoryRow, Manager}
use astrolab.Projects.Tables.{entries_of}
use astrolab.Storage.Reach.{CacheEntryInfo, Tiers, Hashes, build_reachability}
use astrolab.Storage.Cleanup.{Sweep, sweep_entry, start_sweep, values, alive_job_ids}
use astrolab.Storage.Sweep.{listed, IsDistinct, swept_dir, get-sweep_entry, held-held}
use astrolab.Storage.Described.{Each-entry, values-IsDistinct, build_reachability-IsDescribed}
use astrolab.Storage.Delete.{
  is_sole, output_hashes, is_candidate, joined, terminal_of, terminal_output_hashes, purge_entries,
  kept_hashes, purge_project_cache,
}
use astrolab.Storage.Owners.{IsOnce}
use astrolab.Storage.Owned.{owns, any-owners}
use astrolab.Storage.Turns.{info_at, info_at-values}

abbrev passes : (CacheEntryInfo → Bool) → Option CacheEntryInfo → Bool
passes test none = false
passes test (some e) = test e

absent-keep_if :
    (test : CacheEntryInfo → Bool) (q : String) (infos : List CacheEntryInfo)
    → listed q infos ≡ false
    → listed q (keep_if test infos) ≡ false
absent-keep_if test q [] h = refl
absent-keep_if test q (e ∷ infos) h = ground (arith, absent-keep_if test q infos)

listed-keep_if :
    (test : CacheEntryInfo → Bool) (q : String) (infos : List CacheEntryInfo)
    → IsDistinct infos
    → listed q (keep_if test infos) ≡ passes test (info_at q infos)
listed-keep_if test q [] h = refl
listed-keep_if test q (e ∷ infos) h = ground (
  arith,
  listed-keep_if test q infos,
  absent-keep_if test q infos,
  eq_iff e.node_hash q,
  h.0,
  h.1,
)

is_sole_lem :
    (pid : String) (e : CacheEntryInfo)
    → IsOnce e.owners
    → is_sole pid e
      ≡ (any (λ o. str_eq o pid) e.owners && not (any (λ o. not (str_eq o pid)) e.owners))
is_sole_lem pid e once = by_owners e.owners once
  where
    by_owners :
        (owners : List String)
        → IsOnce owners
        → (elim owners [
          | [] ↦ false
          | o ∷ owners ↦ elim owners [ [] ↦ str_eq o pid | _ ∷ _ ↦ false ]
        ])
          ≡ (any (λ o. str_eq o pid) owners && not (any (λ o. not (str_eq o pid)) owners))
    by_owners [] h = refl
    by_owners (o ∷ []) h = ground arith
    by_owners (o ∷ o' ∷ owners) h = ground (arith, h.0, eq_iff o pid, eq_iff o' pid, eq_iff o' o)

member-append :
    (q : String) (xs ys : List String) → member q (xs ++ ys) ≡ (member q xs || member q ys)
member-append q [] ys = ground arith
member-append q (x ∷ xs) ys = ground (arith, member-append q xs ys)

member-map :
    (q : String) (outputs : Dict Ref)
    → member q (map (λ o. o.1.node_hash) outputs) ≡ any (λ o. str_eq o.1.node_hash q) outputs
member-map q [] = refl
member-map q (o ∷ outputs) = ground (arith, member-map q outputs)

module _ {V : Type 0} where
  get-purge_entries :
      (alive : List String) (q : String) (infos : List CacheEntryInfo) (s : Sweep V)
      → get q (purge_entries alive infos s).cache
        ≡ (if listed q infos then swept_dir alive (get q s.cache) else get q s.cache)
  unfolding purge_entries
  get-purge_entries alive q [] s = refl
  get-purge_entries alive q (e ∷ infos) s = ground (
    arith,
    get-purge_entries alive q infos (sweep_entry alive e s),
    get-sweep_entry alive e q s,
    held-held alive (get q s.cache),
  )

  -- What a purge of `pid` makes of the directory under a hash, by its entry.
  abbrev purged_dir :
      (alive kept : List String) (pid : String)
      → Option CacheEntryInfo
      → Option (Dir V)
      → Option (Dir V)
  purged_dir alive kept pid none d = d
  purged_dir alive kept pid (some e) d = if is_candidate pid kept e then swept_dir alive d else d

  get-purge_by_entry :
      (tiers : Tiers) (payloads : Dict Hashes) (m : Manager V) (pid : String) (keep_outputs : Bool)
      (c : Cache V) (q : String)
      → IsDict c
      → get q (purge_project_cache tiers payloads m pid keep_outputs c).cache
        ≡ purged_dir
            (alive_job_ids m.store)
            (kept_hashes pid keep_outputs m)
            pid
            (get q (build_reachability tiers payloads m.projects m.project_history c))
            (get q c)
  unfolding purge_project_cache
  get-purge_by_entry tiers payloads m pid keep_outputs c q h =
      let entries = build_reachability tiers payloads m.projects m.project_history c in
      let d = build_reachability-IsDescribed tiers payloads m.projects m.project_history c h in
      let each = Each-entry c entries d.distinct d.named d.sized in
      let test = is_candidate pid (kept_hashes pid keep_outputs m) in
      get-purge_entries (alive_job_ids m.store) q (keep_if test (values entries)) (start_sweep c)
      ∙ elim (Option-cases (get q entries)) [
        | inl e ↦ rw e (
            ground (
              arith,
              listed-keep_if test q (values entries) (values-IsDistinct c entries d.distinct each),
              info_at-values q entries d.named d.distinct,
              e,
            ))
        | inr (i, e) ↦ rw e (
            ground (
              arith,
              listed-keep_if test q (values entries) (values-IsDistinct c entries d.distinct each),
              info_at-values q entries d.named d.distinct,
              e,
            ))
      ]

  -- ---- against the rows of the tables

  -- A project with the id owns the hash, and no other project does.
  abbrev pub is_owned_alone : Dict Hashes → Manager V → (pid q : String) → Bool
  is_owned_alone payloads m pid q =
      any (λ p. str_eq p.id pid && owns payloads m.project_history q p) m.projects
      && not (any (λ p. not (str_eq p.id pid) && owns payloads m.project_history q p) m.projects)

  -- A job of the project's history put out a ref of the hash.
  abbrev pub has_output : String → JobRecord V → Bool
  has_output q j = elim j.outputs [
    | none ↦ false
    | some outputs ↦ any (λ o. str_eq o.1.node_hash q) outputs
  ]

  abbrev pub is_output : Manager V → (pid q : String) → Bool
  is_output m pid q =
      any
        (λ r.
          str_eq r.project_id pid
          && any (λ j. str_eq j.id r.entry.job_id && has_output q j) m.store.jobs)
        m.project_history

  member-output_hashes :
      (q : String) (j : JobRecord V) → member q (output_hashes j.outputs) ≡ has_output q j
  member-output_hashes q j = elim (Option-cases j.outputs) [
    | inl e ↦ ground (arith, e)
    | inr (outputs, e) ↦ ground (arith, e, member-map q outputs)
  ]

  member-joined :
      (q id : String) (rows : List (JobRecord V))
      → member q (joined id rows) ≡ any (λ j. str_eq j.id id && has_output q j) rows
  unfolding joined
  member-joined q id [] = refl
  member-joined q id (r ∷ rows) = ground (
    arith,
    member-joined q id rows,
    member-append q (output_hashes r.outputs) (joined id rows),
    member-output_hashes q r,
  )

  member-terminal_of :
      (q pid : String) (rows : List (HistoryRow V)) (db : Store V)
      → member q (terminal_of (entries_of pid rows) db)
        ≡ any
            (λ r.
              str_eq r.project_id pid
              && any (λ j. str_eq j.id r.entry.job_id && has_output q j) db.jobs)
            rows
  unfolding terminal_of entries_of
  member-terminal_of q pid [] db = refl
  member-terminal_of q pid (r ∷ rows) db = ground (
    arith,
    member-terminal_of q pid rows db,
    member-append q (joined r.entry.job_id db.jobs) (terminal_of (entries_of pid rows) db),
    member-joined q r.entry.job_id db.jobs,
  )

  member-kept_hashes :
      (q pid : String) (keep_outputs : Bool) (m : Manager V)
      → member q (kept_hashes pid keep_outputs m) ≡ (keep_outputs && is_output m pid q)
  unfolding terminal_output_hashes
  member-kept_hashes q pid true m = member-terminal_of q pid m.project_history m.store
  member-kept_hashes q pid false m = refl

  -- With distinct names in the cache root: a purge evicts exactly the committed entries whose hash is
  -- one of a job in the project's history and of no job in another project's, but for the outputs of
  -- the project's jobs where these are to be kept, and for what live jobs hold; every other directory
  -- stays.
  pub get-purge_project_cache :
      (tiers : Tiers) (payloads : Dict Hashes) (m : Manager V) (pid : String) (keep_outputs : Bool)
      (c : Cache V) (q : String)
      → IsDict c
      → get q (purge_project_cache tiers payloads m pid keep_outputs c).cache ≡ (
          if is_committed q c
            && is_owned_alone payloads m pid q
            && not (keep_outputs && is_output m pid q)
          then swept_dir (alive_job_ids m.store) (get q c)
          else get q c)
  get-purge_project_cache tiers payloads m pid keep_outputs c q h =
      let entries = build_reachability tiers payloads m.projects m.project_history c in
      let d = build_reachability-IsDescribed tiers payloads m.projects m.project_history c h in
      get-purge_by_entry tiers payloads m pid keep_outputs c q h
      ∙ elim (Option-cases (get q entries)) [
        | inl e ↦ ground (arith, e, d.found q)
        | inr (i, e) ↦
            let own = any-owners payloads tiers m.projects m.project_history c q in
            let mine = own (λ o. str_eq o pid) i e in
            let other = own (λ o. not (str_eq o pid)) i e in
            ground (
              arith,
              e,
              d.found q,
              d.named q i e,
              is_sole_lem pid i mine.1,
              mine.0,
              other.0,
              member-kept_hashes q pid keep_outputs m,
            )
      ]

-- ===== src/Storage/Cleanup.antt =====
-- `run_cleanup` of server/storage.py. The differences of byte counts are those of ℕ: what is freed was
-- counted in the total.
use astrolab.Prelude.{
  ℕ, suc, ◌+◌, ◌-◌, String, Bool, List, [], ◌∷◌, map, leb, ltb, if◌then◌else◌, keep_if,
}
use astrolab.Dict.{Dict}
use astrolab.Jobs.Store.{is_live, Store}
use astrolab.Cache.{Cache, is_in_use, evict}
use astrolab.Projects.Records.{Manager}
use astrolab.Storage.Reach.{CacheEntryInfo, Tiers, Hashes, build_reachability}
use astrolab.Storage.Order.{eviction_order}

pub record CleanupResult : Type 0 where
  pub evicted_count : ℕ
  pub bytes_freed : ℕ
  pub bytes_remaining : ℕ
  pub over_budget : Bool
  pub skipped_in_use_count : ℕ

-- The variables of the loop, and the cache.
pub record Sweep (V : Type 0) : Type 0 where
  pub evicted : ℕ
  pub freed : ℕ
  pub skipped : ℕ
  pub cache : Cache V

-- `sum(e.bytes for e in …)`
unfoldable pub total_bytes : List CacheEntryInfo → ℕ
total_bytes [] = 0
total_bytes (e ∷ infos) = e.bytes + total_bytes infos

abbrev pub values {ℓ} : {A : Type ℓ} → Dict A → List A
values d = map (λ e. e.1) d

module _ {V : Type 0} where
  unfoldable pub alive_job_ids : Store V → List String
  alive_job_ids db = map (λ r. r.id) (keep_if (λ r. is_live r.status) db.jobs)

  -- The body of the loop below the break.
  unfoldable pub sweep_entry : (alive : List String) → CacheEntryInfo → Sweep V → Sweep V
  unfolding is_in_use evict
  sweep_entry alive e s =
      let (live, checked) = is_in_use e.node_hash alive s.cache in
      let (bytes, left) = evict e.node_hash checked in
      if live
      then record s { skipped = suc s.skipped; cache = checked }
      else record s { evicted = suc s.evicted; freed = s.freed + bytes; cache = left }

  unfoldable pub sweep :
      (total max_bytes : ℕ) (alive : List String) → List CacheEntryInfo → Sweep V → Sweep V
  unfolding sweep_entry
  sweep total max_bytes alive [] s = s
  sweep total max_bytes alive (e ∷ infos) s =
      if leb (total - s.freed) max_bytes
      then s
      else sweep total max_bytes alive infos (sweep_entry alive e s)

  abbrev pub start_sweep : Cache V → Sweep V
  start_sweep c = record { evicted = 0; freed = 0; skipped = 0; cache = c }

  abbrev pub result_of : (total max_bytes : ℕ) → Sweep V → CleanupResult
  result_of total max_bytes s = record {
    evicted_count = s.evicted;
    bytes_freed = s.freed;
    bytes_remaining = total - s.freed;
    over_budget = ltb max_bytes (total - s.freed);
    skipped_in_use_count = s.skipped;
  }

  -- From the entries on.
  unfoldable pub clean :
      List CacheEntryInfo
      → (alive : List String) (max_bytes : ℕ) → Cache V
      → CleanupResult × Cache V
  unfolding sweep eviction_order total_bytes
  clean infos alive max_bytes c =
      let total = total_bytes infos in
      let s = sweep total max_bytes alive (eviction_order infos) (start_sweep c) in
      if leb total max_bytes
      then (result_of total max_bytes (start_sweep c), c)
      else (result_of total max_bytes s, s.cache)

  unfoldable pub run_cleanup :
      Tiers → Dict Hashes → Manager V → (max_bytes : ℕ) → Cache V → CleanupResult × Cache V
  unfolding clean alive_job_ids build_reachability
  run_cleanup tiers payloads m max_bytes c =
      clean (values (build_reachability tiers payloads m.projects m.project_history c))
        (alive_job_ids m.store) max_bytes c

-- ===== src/Storage/Headroom.antt =====
-- `ensure_disk_headroom` of server/storage.py. `free` is what the operating system says of the disk
-- that holds the cache, `shutil.disk_usage(root).free`.
use astrolab.Prelude.{
  ℕ, ◌+◌, ◌-◌, ◌≤◌, ◌<◌, ◌⊎◌, inl, inr, max, min, true, false, ◌≡◌, refl, arith, leb, leb→le, ltb,
  if◌then◌else◌, if_both, if_both_eq, Bool-cases, ap, ◌∙◌,
}
use astrolab.Dict.{Dict}
use astrolab.Cache.{Cache}
use astrolab.Projects.Records.{Manager}
use astrolab.Storage.Reach.{Tiers, Hashes, build_reachability}
use astrolab.Storage.Cleanup.{CleanupResult, total_bytes, values, clean, run_cleanup}

-- The result, and the fields of InsufficientStorageError.
pub data Headroom : Type 0 where
  enough : Headroom
  swept : CleanupResult → Headroom
  insufficient : (need free evicted : ℕ) → Headroom

-- Differences are cut at 0, as the `max(0, …)` of the code cuts them.
abbrev pub budget_headroom : (cache_max_bytes cache_used : ℕ) → ℕ
budget_headroom cache_max_bytes cache_used = cache_max_bytes - cache_used

abbrev pub target_max : (need free cache_max_bytes cache_used : ℕ) → ℕ
target_max need free cache_max_bytes cache_used =
    let disk_deficit = need - free in
    let budget_deficit = need - budget_headroom cache_max_bytes cache_used in
    min (cache_max_bytes - need) (cache_used - max disk_deficit budget_deficit)

room :
    (need cache_max_bytes disk used : ℕ)
    → leb need (min disk (budget_headroom cache_max_bytes used)) ≡ true
    → (used + need ≤ cache_max_bytes) ⊎ (need ≡ 0)
room need cache_max_bytes disk used fits = elim (Bool-cases (leb (used + need) cache_max_bytes)) [
  | inl c ↦ inl (leb→le (used + need) cache_max_bytes c)
  | inr c ↦ inr (ground (arith, c, fits))
]

too_little :
    (need cache_max_bytes disk used : ℕ)
    → cache_max_bytes < need
    → leb need (min disk (budget_headroom cache_max_bytes used)) ≡ false
too_little need cache_max_bytes disk used over = ground (arith, over)

no_target :
    (need cache_max_bytes disk used : ℕ)
    → cache_max_bytes < need
    → target_max need disk cache_max_bytes used ≡ 0
no_target need cache_max_bytes disk used over = omega (arith, over)

abbrev Flagged : {V : Type 0} → ℕ → CleanupResult × Cache V → Type 0
Flagged max_bytes r = r.0.over_budget ≡ ltb max_bytes r.0.bytes_remaining

module _ {V : Type 0} (free : Cache V → ℕ) (tiers : Tiers) (payloads : Dict Hashes)
    (m : Manager V) where
  -- `sum(e.bytes for e in entries.values())`
  abbrev pub cache_used : Cache V → ℕ
  cache_used c =
      total_bytes (values (build_reachability tiers payloads m.projects m.project_history c))

  abbrev pub checked : (need : ℕ) → CleanupResult × Cache V → Headroom × Cache V
  checked need (result, c) =
      if ltb (free c) need
      then (insufficient need (free c) result.bytes_freed, c)
      else (swept result, c)

  unfoldable pub ensure_disk_headroom : (need cache_max_bytes : ℕ) → Cache V → Headroom × Cache V
  unfolding run_cleanup build_reachability
  ensure_disk_headroom need cache_max_bytes c =
      let used = cache_used c in
      if leb need (min (free c) (budget_headroom cache_max_bytes used))
      then (enough, c)
      else checked need
          (run_cleanup tiers payloads m (target_max need (free c) cache_max_bytes used) c)

  -- What the caller may rely on, by the result.
  abbrev pub Holds : (need cache_max_bytes : ℕ) → Cache V → Headroom × Cache V → Type 0
  Holds need cache_max_bytes c (enough, after) =
      (after ≡ c) × (need ≤ free c) × (cache_used c + need ≤ cache_max_bytes ⊎ need ≡ 0)
  Holds need cache_max_bytes c (swept result, after) =
      (need ≤ free after)
      × (result.over_budget ≡ false
          → need ≤ cache_max_bytes
          → result.bytes_remaining + need ≤ cache_max_bytes)
  Holds need cache_max_bytes c (insufficient n f evicted, after) =
      (n ≡ need) × (f ≡ free after) × (free after < need)

  flagged :
      (max_bytes : ℕ) (c : Cache V) → Flagged max_bytes (run_cleanup tiers payloads m max_bytes c)
  flagged max_bytes c =
      unfold run_cleanup in
      unfold clean in
      if_both (Flagged max_bytes)
        (leb
          (total_bytes (values (build_reachability tiers payloads m.projects m.project_history c)))
          max_bytes)
        refl refl

  checked-Holds :
      (need cache_max_bytes used : ℕ) (before c : Cache V) (r : CleanupResult × Cache V)
      → Flagged (target_max need (free before) cache_max_bytes used) r
      → Holds need cache_max_bytes c (checked need r)
  checked-Holds need cache_max_bytes used before c (result, after) flag =
      elim (Bool-cases (ltb (free after) need)) [
        | inl short ↦ rw short (refl, refl, ground (arith, short))
        | inr fits ↦ rw fits (ground (arith, fits), λ under room. ground (arith, flag, under, room))
      ]

  -- Where `ensure_disk_headroom` finds room, nothing changes, the disk has the bytes and the budget
  -- has them too (or none are needed). Where it returns after a sweep, the disk has them, and if that
  -- sweep met its target and the budget can hold so many bytes at all, the budget has room for them.
  -- Where it raises, it reports the bytes free, which are too few.
  pub ensure_disk_headroom-Holds :
      (need cache_max_bytes : ℕ) (c : Cache V)
      → Holds need cache_max_bytes c (ensure_disk_headroom need cache_max_bytes c)
  ensure_disk_headroom-Holds need cache_max_bytes c =
      unfold ensure_disk_headroom in
      if_both_eq (Holds need cache_max_bytes c)
        (leb need (min (free c) (budget_headroom cache_max_bytes (cache_used c))))
        (λ fits.
          (refl, ground (arith, fits), room need cache_max_bytes (free c) (cache_used c) fits))
        (λ _.
          checked-Holds need cache_max_bytes (cache_used c) c c _
            (flagged (target_max need (free c) cache_max_bytes (cache_used c)) c))

  checked-fits :
      (need : ℕ) (r : CleanupResult × Cache V) → need ≤ free r.1 → checked need r ≡ (swept r.0, r.1)
  checked-fits need (result, after) fits =
      let long : ltb (free after) need ≡ false = ground (arith, fits) in rw long

  -- Where more bytes are needed than the budget allows at all, but the disk has them once the cache is
  -- swept, no error is raised.
  pub ensure_disk_headroom-over_budget :
      (need cache_max_bytes : ℕ) (c : Cache V)
      → cache_max_bytes < need
      → need ≤ free (run_cleanup tiers payloads m 0 c).1
      → ensure_disk_headroom need cache_max_bytes c
        ≡ (swept (run_cleanup tiers payloads m 0 c).0, (run_cleanup tiers payloads m 0 c).1)
  unfolding ensure_disk_headroom
  ensure_disk_headroom-over_budget need cache_max_bytes c over fits =
      rw (too_little need cache_max_bytes (free c) (cache_used c) over) (
        ap (λ n. checked need (run_cleanup tiers payloads m n c))
          (no_target need cache_max_bytes (free c) (cache_used c) over)
        ∙ checked-fits need (run_cleanup tiers payloads m 0 c) fits)

-- ===== src/Storage/Sweep.antt =====
-- What the loop of `run_cleanup` (server/storage.py) does to the cache, entry by entry.
use astrolab.Prelude.{
  ℕ, ◌+◌, ◌-◌, String, Bool, true, false, ◌≡◌, refl, Option, none, some, List, [], ◌∷◌, arith, leb,
  str_eq, eq_iff, if◌then◌else◌, any, Option-cases, inl, inr,
}
use astrolab.Dict.{get, get-set, get-pop}
use astrolab.Cache.{Cache, Dir, is_in_use, evict, member, live_marks, size_of}
use astrolab.Storage.Reach.{CacheEntryInfo}
use astrolab.Storage.Cleanup.{Sweep, sweep_entry, sweep}

abbrev pub listed : String → List CacheEntryInfo → Bool
listed q infos = any (λ e. str_eq e.node_hash q) infos

abbrev pub IsDistinct : List CacheEntryInfo → Type 0
IsDistinct [] = Unit
IsDistinct (e ∷ infos) = (listed e.node_hash infos ≡ false) × IsDistinct infos

any-live_marks :
    (alive marks : List String)
    → any (λ j. member j alive) (live_marks alive marks) ≡ any (λ j. member j alive) marks
any-live_marks alive [] = refl
any-live_marks alive (j ∷ marks) = ground (arith, any-live_marks alive marks)

live_marks-live_marks :
    (alive marks : List String) → live_marks alive (live_marks alive marks) ≡ live_marks alive marks
live_marks-live_marks alive [] = refl
live_marks-live_marks alive (j ∷ marks) = ground (arith, live_marks-live_marks alive marks)

module _ {V : Type 0} where
  abbrev pub is_live_dir : (alive : List String) → Option (Dir V) → Bool
  is_live_dir alive none = false
  is_live_dir alive (some d) = any (λ j. member j alive) d.marks

  abbrev trimmed : (alive : List String) → Dir V → Dir V
  trimmed alive d = record d { marks = live_marks alive d.marks }

  -- What one round makes of a directory.
  abbrev pub swept_dir : (alive : List String) → Option (Dir V) → Option (Dir V)
  swept_dir alive none = none
  swept_dir alive (some d) =
      if any (λ j. member j alive) d.marks then some (trimmed alive d) else none

  abbrev trimmed_dir : (alive : List String) → Option (Dir V) → Option (Dir V)
  trimmed_dir alive none = none
  trimmed_dir alive (some d) = some (trimmed alive d)

  live-is_in_use :
      (h : String) (alive : List String) (c : Cache V)
      → (is_in_use h alive c).0 ≡ is_live_dir alive (get h c)
  unfolding is_in_use
  live-is_in_use h alive c = elim (Option-cases (get h c)) [
    | inl e ↦ ground (arith, e)
    | inr (d, e) ↦ ground (arith, e)
  ]

  get-is_in_use :
      (h : String) (alive : List String) (q : String) (c : Cache V)
      → get q (is_in_use h alive c).1
        ≡ (if str_eq h q then trimmed_dir alive (get q c) else get q c)
  unfolding is_in_use
  get-is_in_use h alive q c = elim (Option-cases (get h c)) [
    | inl e ↦ ground (arith, eq_iff h q, e)
    | inr (d, e) ↦ ground (arith, eq_iff h q, e, get-set h q (trimmed alive d) c)
  ]

  bytes-evict : (h : String) (c : Cache V) → (evict h c).0 ≡ size_of (get h c)
  unfolding evict
  bytes-evict h c = elim (Option-cases (get h c)) [
    | inl e ↦ ground (arith, e)
    | inr (d, e) ↦ ground (arith, e)
  ]

  get-evict :
      (h q : String) (c : Cache V) → get q (evict h c).1 ≡ (if str_eq h q then none else get q c)
  unfolding evict
  get-evict h q c = elim (Option-cases (get h c)) [
    | inl e ↦ ground (arith, eq_iff h q, e)
    | inr (d, e) ↦ ground (arith, e, get-pop h q c)
  ]

  pub get-sweep_entry :
      (alive : List String) (e : CacheEntryInfo) (q : String) (s : Sweep V)
      → get q (sweep_entry alive e s).cache
        ≡ (if str_eq e.node_hash q then swept_dir alive (get q s.cache) else get q s.cache)
  unfolding sweep_entry
  get-sweep_entry alive e q s = ground (
    arith,
    live-is_in_use e.node_hash alive s.cache,
    get-is_in_use e.node_hash alive q s.cache,
    get-evict e.node_hash q (is_in_use e.node_hash alive s.cache).1,
    eq_iff e.node_hash q,
  )

  freed-sweep_entry :
      (alive : List String) (e : CacheEntryInfo) (s : Sweep V)
      → (sweep_entry alive e s).freed + size_of (swept_dir alive (get e.node_hash s.cache))
        ≡ s.freed + size_of (get e.node_hash s.cache)
  unfolding sweep_entry
  freed-sweep_entry alive e s = ground (
    arith,
    live-is_in_use e.node_hash alive s.cache,
    get-is_in_use e.node_hash alive e.node_hash s.cache,
    bytes-evict e.node_hash (is_in_use e.node_hash alive s.cache).1,
    eq_iff e.node_hash e.node_hash,
  )

  -- What the listed entries still take.
  abbrev pub remaining : List CacheEntryInfo → Cache V → ℕ
  remaining [] c = 0
  remaining (e ∷ infos) c = size_of (get e.node_hash c) + remaining infos c

  pub get-sweep :
      (total max_bytes : ℕ) (alive : List String) (q : String) (infos : List CacheEntryInfo)
      (s : Sweep V)
      → listed q infos ≡ false
      → get q (sweep total max_bytes alive infos s).cache ≡ get q s.cache
  unfolding sweep
  get-sweep total max_bytes alive q [] s h = refl
  get-sweep total max_bytes alive q (e ∷ infos) s h = ground (
    arith,
    get-sweep total max_bytes alive q infos (sweep_entry alive e s),
    get-sweep_entry alive e q s,
  )

  remaining-sweep_entry :
      (alive : List String) (e : CacheEntryInfo) (infos : List CacheEntryInfo) (s : Sweep V)
      → listed e.node_hash infos ≡ false
      → remaining infos (sweep_entry alive e s).cache ≡ remaining infos s.cache
  remaining-sweep_entry alive e [] s h = refl
  remaining-sweep_entry alive e (f ∷ infos) s h = ground (
    arith,
    remaining-sweep_entry alive e infos s,
    get-sweep_entry alive e f.node_hash s,
    eq_iff e.node_hash f.node_hash,
    eq_iff f.node_hash e.node_hash,
  )

  -- What the loop frees is what the cache loses.
  pub balance-sweep :
      (total max_bytes : ℕ) (alive : List String) (infos : List CacheEntryInfo) (s : Sweep V)
      → IsDistinct infos
      → (sweep total max_bytes alive infos s).freed
          + remaining infos (sweep total max_bytes alive infos s).cache
        ≡ s.freed + remaining infos s.cache
  unfolding sweep
  balance-sweep total max_bytes alive [] s h = refl
  balance-sweep total max_bytes alive (e ∷ infos) s h = ground (
    arith,
    balance-sweep total max_bytes alive infos (sweep_entry alive e s),
    get-sweep total max_bytes alive e.node_hash infos (sweep_entry alive e s),
    get-sweep_entry alive e e.node_hash s,
    freed-sweep_entry alive e s,
    remaining-sweep_entry alive e infos s,
    eq_iff e.node_hash e.node_hash,
    h.0,
    h.1,
  )

  -- Evicted, or held by a live job.
  abbrev pub gone_or_live : (alive : List String) → Option (Dir V) → Bool
  gone_or_live alive none = true
  gone_or_live alive (some d) = any (λ j. member j alive) d.marks

  pub gone_or_live-swept_dir :
      (alive : List String) (o : Option (Dir V)) → gone_or_live alive (swept_dir alive o) ≡ true
  gone_or_live-swept_dir alive none = refl
  gone_or_live-swept_dir alive (some d) = ground (arith, any-live_marks alive d.marks)

  -- A loop that ends over the budget has left nothing that it could evict.
  pub gone_or_live-sweep :
      (total max_bytes : ℕ) (alive : List String) (q : String) (infos : List CacheEntryInfo)
      (s : Sweep V)
      → leb (total - (sweep total max_bytes alive infos s).freed) max_bytes ≡ false
      → listed q infos ≡ true
      → gone_or_live alive (get q (sweep total max_bytes alive infos s).cache) ≡ true
  unfolding sweep
  gone_or_live-sweep total max_bytes alive q [] s over h = cc
  gone_or_live-sweep total max_bytes alive q (e ∷ infos) s over h = ground (
    arith,
    gone_or_live-sweep total max_bytes alive q infos (sweep_entry alive e s),
    get-sweep total max_bytes alive q infos (sweep_entry alive e s),
    get-sweep_entry alive e q s,
    gone_or_live-swept_dir alive (get q s.cache),
  )

  pub held-held :
      (alive : List String) (o : Option (Dir V))
      → swept_dir alive (swept_dir alive o) ≡ swept_dir alive o
  held-held alive none = refl
  held-held alive (some d) =
      ground (arith, any-live_marks alive d.marks, live_marks-live_marks alive d.marks)

  -- The directories that live jobs hold, with the marks of those, stay.
  pub held-sweep :
      (total max_bytes : ℕ) (alive : List String) (q : String) (infos : List CacheEntryInfo)
      (s : Sweep V)
      → swept_dir alive (get q (sweep total max_bytes alive infos s).cache)
        ≡ swept_dir alive (get q s.cache)
  unfolding sweep
  held-sweep total max_bytes alive q [] s = refl
  held-sweep total max_bytes alive q (e ∷ infos) s = ground (
    arith,
    held-sweep total max_bytes alive q infos (sweep_entry alive e s),
    get-sweep_entry alive e q s,
    held-held alive (get q s.cache),
  )

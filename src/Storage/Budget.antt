-- ===== src/Storage/Budget.antt =====
-- What `run_cleanup` of server/storage.py returns and leaves, over the entries that it finds.
use astrolab.Prelude.{
  ℕ, String, Bool, true, false, ◌≡◌, refl, List, [], ◌∷◌, arith, eq_iff, leb, ltb, if_both_eq, ◌∙◌,
}
use astrolab.Dict.{Dict, get, IsDict}
use astrolab.Cache.{Cache, is_committed}
use astrolab.Projects.Records.{Manager}
use astrolab.Storage.Reach.{CacheEntryInfo, Tiers, Hashes, build_reachability}
use astrolab.Storage.Order.{insert_info, eviction_order}
use astrolab.Storage.Cleanup.{
  CleanupResult, total_bytes, sweep, start_sweep, clean, values, alive_job_ids, run_cleanup,
}
use astrolab.Storage.Sweep.{
  listed, IsDistinct, remaining, swept_dir, gone_or_live, get-sweep, balance-sweep,
  gone_or_live-sweep, held-sweep,
}
use astrolab.Storage.Described.{
  build_reachability-IsDescribed, listed-values, values-IsDistinct, total_bytes-values, Each-entry,
}

listed-insert_info :
    (q : String) (e : CacheEntryInfo) (infos : List CacheEntryInfo)
    → listed q (insert_info e infos) ≡ listed q (e ∷ infos)
unfolding insert_info
listed-insert_info q e [] = refl
listed-insert_info q e (f ∷ infos) = ground (arith, listed-insert_info q e infos)

pub listed-eviction_order :
    (q : String) (infos : List CacheEntryInfo) → listed q (eviction_order infos) ≡ listed q infos
unfolding eviction_order
listed-eviction_order q [] = refl
listed-eviction_order q (e ∷ infos) =
    ground (arith, listed-insert_info q e (eviction_order infos), listed-eviction_order q infos)

insert_info-IsDistinct :
    (e : CacheEntryInfo) (infos : List CacheEntryInfo)
    → IsDistinct (e ∷ infos)
    → IsDistinct (insert_info e infos)
unfolding insert_info
insert_info-IsDistinct e [] h = h
insert_info-IsDistinct e (f ∷ infos) h = ground (
  arith,
  insert_info-IsDistinct e infos,
  listed-insert_info f.node_hash e infos,
  eq_iff e.node_hash f.node_hash,
  eq_iff f.node_hash e.node_hash,
)

pub eviction_order-IsDistinct :
    (infos : List CacheEntryInfo) → IsDistinct infos → IsDistinct (eviction_order infos)
unfolding eviction_order
eviction_order-IsDistinct [] h = tt
eviction_order-IsDistinct (e ∷ infos) h =
    insert_info-IsDistinct e (eviction_order infos)
      (listed-eviction_order e.node_hash infos ∙ h.0, eviction_order-IsDistinct infos h.1)

module _ {V : Type 0} where
  remaining-insert_info :
      (e : CacheEntryInfo) (infos : List CacheEntryInfo) (c : Cache V)
      → remaining (insert_info e infos) c ≡ remaining (e ∷ infos) c
  unfolding insert_info
  remaining-insert_info e [] c = refl
  remaining-insert_info e (f ∷ infos) c = ground (arith, remaining-insert_info e infos c)

  remaining-eviction_order :
      (infos : List CacheEntryInfo) (c : Cache V)
      → remaining (eviction_order infos) c ≡ remaining infos c
  unfolding eviction_order
  remaining-eviction_order [] c = refl
  remaining-eviction_order (e ∷ infos) c =
      ground
        (arith, remaining-insert_info e (eviction_order infos) c, remaining-eviction_order infos c)

  -- A clean-up of the entries `infos`, of which `found` says which hashes they are.
  pub record IsCleaned (infos : List CacheEntryInfo) (found : String → Bool) (alive : List String)
      (max_bytes : ℕ) (c : Cache V) (r : CleanupResult × Cache V) : Type 0 where
    -- the bytes reported are those that the entries still take
    pub reported : r.0.bytes_remaining ≡ remaining infos r.1
    pub flagged : r.0.over_budget ≡ ltb max_bytes r.0.bytes_remaining
    -- over the budget, each entry is gone or held by a live job
    pub stuck :
        r.0.over_budget ≡ true
        → (q : String) → found q ≡ true
        → gone_or_live alive (get q r.1) ≡ true
    -- what live jobs hold is as it was
    pub held : (q : String) → swept_dir alive (get q r.1) ≡ swept_dir alive (get q c)
    -- and so is what is no entry
    pub others : (q : String) → found q ≡ false → get q r.1 ≡ get q c

  clean-IsCleaned :
      (infos : List CacheEntryInfo) (found : String → Bool) (alive : List String) (max_bytes : ℕ)
      (c : Cache V)
      → IsDistinct infos
      → total_bytes infos ≡ remaining infos c
      → ((q : String) → listed q infos ≡ found q)
      → IsCleaned infos found alive max_bytes c (clean infos alive max_bytes c)
  clean-IsCleaned infos found alive max_bytes c h total known =
      let s = sweep (total_bytes infos) max_bytes alive (eviction_order infos) (start_sweep c) in
      let order = eviction_order infos in
      unfold clean in
      if_both_eq (IsCleaned infos found alive max_bytes c) (leb (total_bytes infos) max_bytes)
        (λ fits. record {
          reported = omega (arith, total);
          flagged = refl;
          stuck = λ over q _. ground (arith, over, fits);
          held = λ q. refl;
          others = λ q _. refl;
        })
        (λ _. record {
          reported = omega (
            arith,
            total,
            balance-sweep (total_bytes infos) max_bytes alive order (start_sweep c)
                (eviction_order-IsDistinct infos h),
            remaining-eviction_order infos c,
            remaining-eviction_order infos s.cache,
          );
          flagged = refl;
          stuck = λ over q there.
              gone_or_live-sweep (total_bytes infos) max_bytes alive q order (start_sweep c)
                (ground (arith, over)) (listed-eviction_order q infos ∙ known q ∙ there);
          held = λ q. held-sweep (total_bytes infos) max_bytes alive q order (start_sweep c);
          others = λ q absent.
              get-sweep (total_bytes infos) max_bytes alive q order (start_sweep c)
                (listed-eviction_order q infos ∙ known q ∙ absent);
        })

  -- With distinct names in the cache root: the bytes reported as remaining are those that the
  -- committed entries still take; the budget flag says whether that is above the budget; if it is,
  -- each committed entry is evicted or held by a live job; the directories that live jobs hold, and
  -- those that are not committed, are as before.
  pub run_cleanup-IsCleaned :
      (tiers : Tiers) (payloads : Dict Hashes) (m : Manager V) (max_bytes : ℕ) (c : Cache V)
      → IsDict c
      → IsCleaned
          (values (build_reachability tiers payloads m.projects m.project_history c))
          (λ q. is_committed q c)
          (alive_job_ids m.store)
          max_bytes
          c
          (run_cleanup tiers payloads m max_bytes c)
  unfolding run_cleanup
  run_cleanup-IsCleaned tiers payloads m max_bytes c h =
      let entries = build_reachability tiers payloads m.projects m.project_history c in
      let d = build_reachability-IsDescribed tiers payloads m.projects m.project_history c h in
      let each = Each-entry c entries d.distinct d.named d.sized in
      clean-IsCleaned (values entries) (λ q. is_committed q c) (alive_job_ids m.store) max_bytes c
        (values-IsDistinct c entries d.distinct each) (total_bytes-values c entries each)
        (λ q. listed-values c q entries each ∙ d.found q)

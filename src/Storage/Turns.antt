-- ===== src/Storage/Turns.antt =====
-- In which order `run_cleanup` of server/storage.py evicts.
use astrolab.Prelude.{
  ℕ, String, true, false, ◌≡◌, refl, Option, none, some, List, [], ◌∷◌, arith, str_eq, eq_iff, leb,
  if◌then◌else◌, is_some, All, Bool-cases, inl, inr, ◌∙◌, sym, ap, if_both,
}
use astrolab.Dict.{Dict, get, IsDict}
use astrolab.Cache.{Cache, is_committed}
use astrolab.Projects.Records.{Manager}
use astrolab.Storage.Reach.{CacheEntryInfo, Tiers, Hashes, build_reachability}
use astrolab.Storage.Order.{key_leb, insert_info, eviction_order}
use astrolab.Storage.Cleanup.{
  CleanupResult, Sweep, sweep, sweep_entry, start_sweep, total_bytes, clean, values, alive_job_ids,
  run_cleanup,
}
use astrolab.Storage.Sweep.{
  listed, IsDistinct, gone_or_live, get-sweep, get-sweep_entry, gone_or_live-swept_dir,
}
use astrolab.Storage.Described.{Each-entry, values-IsDistinct, build_reachability-IsDescribed}
use astrolab.Storage.Budget.{listed-eviction_order, eviction_order-IsDistinct}

key_leb-total : (a b : CacheEntryInfo) → key_leb a b ≡ false → key_leb b a ≡ true
unfolding key_leb
key_leb-total a b h = ground arith

key_leb_refl : (a : CacheEntryInfo) → key_leb a a ≡ true
unfolding key_leb
key_leb_refl a = ground arith

key_leb_trans :
    (a b c : CacheEntryInfo) → key_leb a b ≡ true → key_leb b c ≡ true → key_leb a c ≡ true
unfolding key_leb
key_leb_trans a b c h k = ground arith

abbrev IsOrdered : List CacheEntryInfo → Type 0
IsOrdered [] = Unit
IsOrdered (e ∷ infos) = All (λ f. key_leb e f ≡ true) infos × IsOrdered infos

All-key_leb :
    (e f : CacheEntryInfo) (infos : List CacheEntryInfo)
    → key_leb e f ≡ true
    → All (λ g. key_leb f g ≡ true) infos
    → All (λ g. key_leb e g ≡ true) infos
All-key_leb e f [] h all = tt
All-key_leb e f (g ∷ infos) h all = (key_leb_trans e f g h all.0, All-key_leb e f infos h all.1)

All-insert_info :
    (e f : CacheEntryInfo) (infos : List CacheEntryInfo)
    → key_leb f e ≡ true
    → All (λ g. key_leb f g ≡ true) infos
    → All (λ g. key_leb f g ≡ true) (insert_info e infos)
unfolding insert_info
All-insert_info e f [] h all = (h, tt)
All-insert_info e f (g ∷ infos) h all = elim (Bool-cases (key_leb e g)) [
  | inl c ↦ rw c (h, all)
  | inr c ↦ rw c (all.0, All-insert_info e f infos h all.1)
]

insert_info-IsOrdered :
    (e : CacheEntryInfo) (infos : List CacheEntryInfo)
    → IsOrdered infos
    → IsOrdered (insert_info e infos)
unfolding insert_info
insert_info-IsOrdered e [] h = (tt, tt)
insert_info-IsOrdered e (f ∷ infos) h = elim (Bool-cases (key_leb e f)) [
  | inl c ↦ rw c ((c, All-key_leb e f infos c h.0), h)
  | inr c ↦
      rw c (All-insert_info e f infos (key_leb-total e f c) h.0, insert_info-IsOrdered e infos h.1)
]

eviction_order-IsOrdered : (infos : List CacheEntryInfo) → IsOrdered (eviction_order infos)
unfolding eviction_order
eviction_order-IsOrdered [] = tt
eviction_order-IsOrdered (e ∷ infos) =
    insert_info-IsOrdered e (eviction_order infos) (eviction_order-IsOrdered infos)

-- The entry of a hash in a list of entries.
abbrev pub info_at : String → List CacheEntryInfo → Option CacheEntryInfo
info_at q [] = none
info_at q (e ∷ infos) = if str_eq e.node_hash q then some e else info_at q infos

info_at-listed :
    (q : String) (e : CacheEntryInfo) (infos : List CacheEntryInfo)
    → info_at q infos ≡ some e
    → listed q infos ≡ true
info_at-listed q e [] h = cc
info_at-listed q e (f ∷ infos) h = ground (arith, info_at-listed q e infos)

info_at-insert_info :
    (q : String) (e : CacheEntryInfo) (infos : List CacheEntryInfo)
    → listed e.node_hash infos ≡ false
    → info_at q (insert_info e infos) ≡ info_at q (e ∷ infos)
unfolding insert_info
info_at-insert_info q e [] h = refl
info_at-insert_info q e (f ∷ infos) h = ground (
  arith,
  info_at-insert_info q e infos,
  eq_iff e.node_hash q,
  eq_iff f.node_hash q,
  eq_iff f.node_hash e.node_hash,
)

info_at-eviction_order :
    (q : String) (infos : List CacheEntryInfo)
    → IsDistinct infos
    → info_at q (eviction_order infos) ≡ info_at q infos
unfolding eviction_order
info_at-eviction_order q [] h = refl
info_at-eviction_order q (e ∷ infos) h = ground (
  arith,
  info_at-insert_info q e (eviction_order infos),
  info_at-eviction_order q infos,
  listed-eviction_order e.node_hash infos,
)

key_leb-info_at :
    (e f : CacheEntryInfo) (q : String) (infos : List CacheEntryInfo)
    → All (λ g. key_leb e g ≡ true) infos
    → info_at q infos ≡ some f
    → key_leb e f ≡ true
key_leb-info_at e f q [] all at = cc
key_leb-info_at e f q (g ∷ infos) all at = ground (arith, key_leb-info_at e f q infos)

pub info_at-values :
    (q : String) (entries : Dict CacheEntryInfo)
    → ((hash : String) (e : CacheEntryInfo) → get hash entries ≡ some e → e.node_hash ≡ hash)
    → IsDict entries
    → info_at q (values entries) ≡ get q entries
unfolding get
info_at-values q [] named d = refl
info_at-values q ((hash, e) ∷ entries) named d =
    let rest =
      info_at-values q entries (λ r f at. named r f (ground (arith, at, eq_iff hash r, d.0))) d.1 in
    ground (arith, rest, named hash e (ground (arith, eq_iff hash hash)))

module _ {V : Type 0} where
  sweep-in_turn :
      (total max_bytes : ℕ) (alive : List String) (p q : String) (a b : CacheEntryInfo)
      (infos : List CacheEntryInfo) (s : Sweep V)
      → IsDistinct infos
      → IsOrdered infos
      → info_at p infos ≡ some a
      → info_at q infos ≡ some b
      → key_leb b a ≡ false
      → is_some (get q s.cache) ≡ true
      → get q (sweep total max_bytes alive infos s).cache ≡ none
      → gone_or_live alive (get p (sweep total max_bytes alive infos s).cache) ≡ true
  unfolding sweep
  sweep-in_turn total max_bytes alive p q a b [] s distinct ordered at_p at_q before there gone = cc
  sweep-in_turn total max_bytes alive p q a b (e ∷ infos) s distinct ordered at_p at_q before there
        gone =
      ground (
        arith,
        sweep-in_turn total max_bytes alive p q a b infos (sweep_entry alive e s),
        get-sweep total max_bytes alive p infos (sweep_entry alive e s),
        get-sweep_entry alive e p s,
        get-sweep_entry alive e q s,
        gone_or_live-swept_dir alive (get p s.cache),
        key_leb-info_at e a p infos,
        key_leb_refl e,
        eq_iff e.node_hash p,
        eq_iff e.node_hash q,
        distinct.0,
        distinct.1,
        ordered.0,
        ordered.1,
      )

  is_committed-there :
      (q : String) (c : Cache V) → is_committed q c ≡ true → is_some (get q c) ≡ true
  unfolding is_committed
  is_committed-there q c h = ground (arith, h)

  clean-in_turn :
      (infos : List CacheEntryInfo) (alive : List String) (max_bytes : ℕ) (c : Cache V)
      (p q : String) (a b : CacheEntryInfo)
      → IsDistinct infos
      → info_at p infos ≡ some a
      → info_at q infos ≡ some b
      → key_leb b a ≡ false
      → is_some (get q c) ≡ true
      → get q (clean infos alive max_bytes c).1 ≡ none
      → gone_or_live alive (get p (clean infos alive max_bytes c).1) ≡ true
  clean-in_turn infos alive max_bytes c p q a b distinct at_p at_q before there =
      let P =
        λ (r : CleanupResult × Cache V). get q r.1 ≡ none → gone_or_live alive (get p r.1) ≡ true in
      unfold clean in
      if_both P (leb (total_bytes infos) max_bytes) (λ gone. ground (arith, gone, there))
        (λ gone.
          sweep-in_turn (total_bytes infos) max_bytes alive p q a b (eviction_order infos)
            (start_sweep c) (eviction_order-IsDistinct infos distinct)
            (eviction_order-IsOrdered infos) (info_at-eviction_order p infos distinct ∙ at_p)
            (info_at-eviction_order q infos distinct ∙ at_q) before there gone)

  -- With distinct names in the cache root: where an entry `q` is evicted, each entry `p` whose key is
  -- below that of `q` (an orphan before an owned one, then bulk before keep, then by the oldest owner)
  -- is evicted too, or a live job holds it.
  pub run_cleanup-in_turn :
      (tiers : Tiers) (payloads : Dict Hashes) (m : Manager V) (max_bytes : ℕ) (c : Cache V)
      (p q : String) (a b : CacheEntryInfo)
      → IsDict c
      → get p (build_reachability tiers payloads m.projects m.project_history c) ≡ some a
      → get q (build_reachability tiers payloads m.projects m.project_history c) ≡ some b
      → key_leb b a ≡ false
      → get q (run_cleanup tiers payloads m max_bytes c).1 ≡ none
      → gone_or_live (alive_job_ids m.store) (get p (run_cleanup tiers payloads m max_bytes c).1)
        ≡ true
  unfolding run_cleanup
  run_cleanup-in_turn tiers payloads m max_bytes c p q a b h at_p at_q before gone =
      let entries = build_reachability tiers payloads m.projects m.project_history c in
      let d = build_reachability-IsDescribed tiers payloads m.projects m.project_history c h in
      let each = Each-entry c entries d.distinct d.named d.sized in
      clean-in_turn (values entries) (alive_job_ids m.store) max_bytes c p q a b
        (values-IsDistinct c entries d.distinct each)
        (info_at-values p entries d.named d.distinct ∙ at_p)
        (info_at-values q entries d.named d.distinct ∙ at_q) before
        (is_committed-there q c (sym (d.found q) ∙ ap is_some at_q)) gone

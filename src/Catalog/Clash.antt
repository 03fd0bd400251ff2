-- ===== src/Catalog/Clash.antt =====
-- `match_bundle_darks` of server/catalog/matching.py where only some frames of a bundle have a temperature.
use astrolab.Prelude.{
  ℕ, true, false, Option, none, some, List, [], ◌∷◌, map, ◌≡◌, refl, sym, ap, ◌∙◌, subst, inl, inr,
  ◌↔◌, any, arith, Bool-cases,
}
use astrolab.Prelude.Int.{ℤ, int_eq, int_eq_iff}
use astrolab.Catalog.Rows.{Catalog, LinkRow}
use astrolab.Catalog.Clusters.{opt_eq}
use astrolab.Catalog.Picks.{IsIn}
use astrolab.Catalog.Bundles.{
  BundleFrame, BinKey, Bucket, same_key, is_clash, keys_clash, any_clash, add_bundle_frame,
  bucket_frames, bin_temp, bundle_frames,
}
use astrolab.Catalog.Bins.{bin_width, match_bundle_darks}

opt_int_eq_iff : (a b : Option ℤ) → (opt_eq int_eq a b ≡ true) ↔ (a ≡ b)
opt_int_eq_iff none none = (λ _. refl, λ _. refl)
opt_int_eq_iff none (some b) = (λ h. absurd (ground (arith, h)), λ h. ground (arith, h))
opt_int_eq_iff (some a) none = (λ h. absurd (ground (arith, h)), λ h. ground (arith, h))
opt_int_eq_iff (some a) (some b) =
    (λ h. ap some ((int_eq_iff a b).0 h), λ h. (int_eq_iff a b).1 (ground (arith, h)))

same_key_eq : (a b : BinKey) → same_key a b ≡ true → a ≡ b
same_key_eq a b h = ground (
  arith,
  h,
  opt_int_eq_iff a.gain b.gain,
  opt_int_eq_iff a.binning b.binning,
  opt_int_eq_iff a.temp_bin b.temp_bin,
)

abbrev keys_of : List (BinKey × Bucket) → List BinKey
keys_of buckets = map (λ e. e.0) buckets

add_self :
    (key : BinKey) (f : BundleFrame) (buckets : List (BinKey × Bucket))
    → IsIn key (keys_of (add_bundle_frame key f buckets))
unfolding add_bundle_frame
add_self key f [] = inl refl
add_self key f ((k, b) ∷ buckets) = elim (Bool-cases (same_key k key)) [
  | inl e ↦ rw e (inl (same_key_eq k key e))
  | inr e ↦ rw e (inr (add_self key f buckets))
]

add_keeps :
    (key j : BinKey) (f : BundleFrame) (buckets : List (BinKey × Bucket))
    → IsIn j (keys_of buckets)
    → IsIn j (keys_of (add_bundle_frame key f buckets))
unfolding add_bundle_frame
add_keeps key j f [] h = elim h [ ]
add_keeps key j f ((k, b) ∷ buckets) h = elim (Bool-cases (same_key k key)) [
  | inl e ↦ rw e h
  | inr e ↦ rw e (elim h [ inl s ↦ inl s | inr m ↦ inr (add_keeps key j f buckets m) ])
]

abbrev key_of_frame : BundleFrame → ℕ → BinKey
key_of_frame f e = record {
  exptime = e;
  gain = f.gain;
  binning = f.binning;
  temp_bin = bin_temp bin_width f.ccd_temp;
}

abbrev add_one : BundleFrame → List (BinKey × Bucket) → List (BinKey × Bucket)
add_one f buckets = elim f.exptime [
  | none ↦ buckets
  | some e ↦ add_bundle_frame (key_of_frame f e) f buckets
]

bucket-keeps :
    (j : BinKey) (fs : List BundleFrame) (buckets : List (BinKey × Bucket))
    → IsIn j (keys_of buckets)
    → IsIn j (keys_of (bucket_frames bin_width fs buckets))
unfolding bucket_frames
bucket-keeps j [] buckets h = h
bucket-keeps j (f ∷ fs) buckets h = bucket-keeps j fs (add_one f buckets) (keeps_one f.exptime)
  where
    keeps_one :
        (o : Option ℕ)
        → IsIn j (
            keys_of
              (elim o [ none ↦ buckets | some e ↦ add_bundle_frame (key_of_frame f e) f buckets ]))
    keeps_one none = h
    keeps_one (some e) = add_keeps (key_of_frame f e) j f buckets h

bucket-has :
    (f : BundleFrame) (e : ℕ) (fs : List BundleFrame) (buckets : List (BinKey × Bucket))
    → f.exptime ≡ some e
    → IsIn f fs
    → IsIn (key_of_frame f e) (keys_of (bucket_frames bin_width fs buckets))
unfolding bucket_frames
bucket-has f e [] buckets q h = elim h [ ]
bucket-has f e (g ∷ fs) buckets q (inr m) = bucket-has f e fs (add_one g buckets) q m
bucket-has f e (g ∷ fs) buckets q (inl same) =
    let added : add_one g buckets ≡ add_bundle_frame (key_of_frame f e) f buckets =
      ground (arith, same, q) in
    bucket-keeps (key_of_frame f e) fs (add_one g buckets) (
      subst (λ bs. IsIn (key_of_frame f e) (keys_of bs)) (sym added)
        (add_self (key_of_frame f e) f buckets))

clash_irrefl : (a : Option ℤ) → is_clash a a ≡ false
clash_irrefl none = refl
clash_irrefl (some a) = refl

keys_irrefl : (k : BinKey) → keys_clash k k ≡ false
unfolding keys_clash
keys_irrefl k = ground (arith, clash_irrefl k.gain, clash_irrefl k.binning, clash_irrefl k.temp_bin)

any-clash_with :
    (j k : BinKey) (buckets : List (BinKey × Bucket))
    → keys_clash j k ≡ true
    → IsIn k (keys_of buckets)
    → any (λ e. keys_clash j e.0) buckets ≡ true
any-clash_with j k [] c h = elim h [ ]
any-clash_with j k ((i, b) ∷ buckets) c (inl same) = ground (arith, c, ap (keys_clash j) same)
any-clash_with j k ((i, b) ∷ buckets) c (inr m) = ground (arith, any-clash_with j k buckets c m)

any_clash-of :
    (j k : BinKey) (buckets : List (BinKey × Bucket))
    → keys_clash j k ≡ true
    → keys_clash k j ≡ true
    → IsIn j (keys_of buckets)
    → IsIn k (keys_of buckets)
    → any_clash buckets ≡ true
unfolding any_clash
any_clash-of j k [] c d h m = elim h [ ]
any_clash-of j k ((i, b) ∷ buckets) c d (inr h) (inr m) =
    ground (arith, any_clash-of j k buckets c d h m)
any_clash-of j k ((i, b) ∷ buckets) c d (inl s) (inr m) =
    ground (arith, s, any-clash_with i k buckets (ap (λ n. keys_clash n k) s ∙ c) m)
any_clash-of j k ((i, b) ∷ buckets) c d (inr h) (inl s) =
    ground (arith, s, any-clash_with i j buckets (ap (λ n. keys_clash n j) s ∙ d) h)
any_clash-of j k ((i, b) ∷ buckets) c d (inl s) (inl t) =
    absurd (ground (arith, keys_irrefl j, c, ap (keys_clash j) (sym s ∙ t)))

keys_clash-frames :
    (f g : BundleFrame) (e : ℕ) (t : ℤ)
    → f.gain ≡ g.gain
    → f.binning ≡ g.binning
    → f.ccd_temp ≡ none
    → g.ccd_temp ≡ some t
    → (keys_clash (key_of_frame f e) (key_of_frame g e) ≡ true)
      × (keys_clash (key_of_frame g e) (key_of_frame f e) ≡ true)
unfolding keys_clash bin_temp
keys_clash-frames f g e t p q r s = (
  ground (
    arith,
    p,
    q,
    r,
    s,
    opt_int_eq_iff f.gain g.gain,
    opt_int_eq_iff f.binning g.binning,
    clash_irrefl f.gain,
    clash_irrefl f.binning,
  ),
  ground (
    arith,
    p,
    q,
    r,
    s,
    opt_int_eq_iff g.gain f.gain,
    opt_int_eq_iff g.binning f.binning,
    clash_irrefl g.gain,
    clash_irrefl g.binning,
  ),
)

-- Where the light frames of a bundle include one with and one without a temperature, with the same
-- exposure time, gain and binning, the match raises a TypeError.
pub match_bundle_darks-mixed :
    (db : Catalog) (sids : List ℕ) (f g : BundleFrame) (e : ℕ) (t : ℤ)
    → IsIn f (bundle_frames db sids db.session_frames)
    → IsIn g (bundle_frames db sids db.session_frames)
    → f.exptime ≡ some e
    → g.exptime ≡ some e
    → f.gain ≡ g.gain
    → f.binning ≡ g.binning
    → f.ccd_temp ≡ none
    → g.ccd_temp ≡ some t
    → match_bundle_darks db sids ≡ none
unfolding match_bundle_darks
match_bundle_darks-mixed db [] f g e t in_f in_g ef eg p q r s =
    absurd (no_frames db.session_frames in_f)
  where
    no_frames : (links : List LinkRow) → IsIn f (bundle_frames db [] links) → ⊥
    no_frames [] h = elim h [ ]
    no_frames (l ∷ links) h = no_frames links h
match_bundle_darks-mixed db (sid ∷ sids) f g e t in_f in_g ef eg p q r s =
    let frames = bundle_frames db (sid ∷ sids) db.session_frames in
    let clash = keys_clash-frames f g e t p q r s in
    ground (
      arith,
      any_clash-of (key_of_frame f e) (key_of_frame g e) (bucket_frames bin_width frames []) clash.0
          clash.1 (bucket-has f e frames [] ef in_f) (bucket-has g e frames [] eg in_g),
    )

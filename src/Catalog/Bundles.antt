-- ===== src/Catalog/Bundles.antt =====
-- `_bin_temp`, `match_bundle_darks` and `_best_dark_for_bin` of server/catalog/matching.py. Temperatures and
-- widths count thousandths of a degree, and a width is even there.
use astrolab.Prelude.{
  ℕ, suc, ◌+◌, ◌*◌, ◌/◌, String, Bool, true, false, ◌&&◌, ◌||◌, Option, none, some, List, [], ◌∷◌,
  ◌==◌, ltb, if◌then◌else◌, any, find_first,
}
use astrolab.Prelude.Int.{ℤ, pos, negsuc, sub_ℕ, pos_part, neg_part, int_eq}
use astrolab.Catalog.Rows.{FrameRow, SessionRow, LinkRow, Catalog, is_light}
use astrolab.Catalog.Clusters.{opt_eq}
use astrolab.Catalog.Sessions.{member}
use astrolab.Catalog.Matches.{session_by_id}

-- `(int(ccd_temp / width) + 0.5) * width`, where `int` cuts off towards 0.
unfoldable pub bin_center : (width : ℕ) → ℤ → ℤ
bin_center width (pos n) = pos (n / width * width + width / 2)
bin_center width (negsuc n) = sub_ℕ (width / 2) (suc n / width * width)

unfoldable pub bin_temp : (width : ℕ) → Option ℤ → Option ℤ
unfolding bin_center
bin_temp width none = none
bin_temp width (some t) = some (bin_center width t)

-- A row of the query over the frames of the bundle.
pub record BundleFrame : Type 0 where
  pub exptime : Option ℕ
  pub gain : Option ℤ
  pub binning : Option ℤ
  pub ccd_temp : Option ℤ
  pub instrument : Option String
  pub camera : Option String

-- `COALESCE`
abbrev pub coalesce {ℓ} : {A : Type ℓ} → Option A → Option A → Option A
coalesce none b = b
coalesce (some a) b = some a

abbrev pub bundle_frame : FrameRow → SessionRow → BundleFrame
bundle_frame f s = record {
  exptime = coalesce f.exptime s.exptime;
  gain = coalesce f.gain s.gain;
  binning = coalesce f.binning s.binning;
  ccd_temp = f.ccd_temp;
  instrument = coalesce f.instrument s.instrument;
  camera = coalesce f.camera s.camera;
}

abbrev pub frame_by_id : ℕ → List FrameRow → Option FrameRow
frame_by_id i frames = find_first (λ f. f.id == i) frames

-- The two joins, link by link.
unfoldable pub bundle_frames : Catalog → List ℕ → List LinkRow → List BundleFrame
bundle_frames db sids [] = []
bundle_frames db sids (l ∷ links) =
    let rest = bundle_frames db sids links in
    if member l.session_id sids
    then elim (frame_by_id l.frame_id db.frames) [
      | none ↦ rest
      | some f ↦ elim (session_by_id l.session_id db.sessions) [
        | none ↦ rest
        | some s ↦ if is_light f.image_type then bundle_frame f s ∷ rest else rest
      ]
    ]
    else rest

pub record BinKey : Type 0 where
  pub exptime : ℕ
  pub gain : Option ℤ
  pub binning : Option ℤ
  pub temp_bin : Option ℤ

pub record Bucket : Type 0 where
  pub count : ℕ
  pub instrument : Option String
  pub camera : Option String

abbrev pub same_key : BinKey → BinKey → Bool
same_key a b =
    a.exptime == b.exptime
    && (opt_eq int_eq a.gain b.gain
        && (opt_eq int_eq a.binning b.binning && opt_eq int_eq a.temp_bin b.temp_bin))

unfoldable pub add_bundle_frame :
    BinKey → BundleFrame → List (BinKey × Bucket) → List (BinKey × Bucket)
add_bundle_frame key f [] =
    (key, record { count = 1; instrument = f.instrument; camera = f.camera }) ∷ []
add_bundle_frame key f ((k, b) ∷ buckets) =
    if same_key k key
    then (k, record b { count = suc b.count }) ∷ buckets
    else (k, b) ∷ add_bundle_frame key f buckets

unfoldable pub bucket_frames :
    (width : ℕ) → List BundleFrame → List (BinKey × Bucket) → List (BinKey × Bucket)
unfolding add_bundle_frame bin_temp
bucket_frames width [] buckets = buckets
bucket_frames width (f ∷ fs) buckets =
    let key = λ (e : ℕ).
      let k : BinKey = record {
        exptime = e;
        gain = f.gain;
        binning = f.binning;
        temp_bin = bin_temp width f.ccd_temp;
      } in
      k in
    bucket_frames width fs
      (elim f.exptime [ none ↦ buckets | some e ↦ add_bundle_frame (key e) f buckets ])

-- One of two parts of a key is None and the other a number: Python's `<` on them raises.
abbrev pub is_clash : Option ℤ → Option ℤ → Bool
is_clash none none = false
is_clash none (some b) = true
is_clash (some a) none = true
is_clash (some a) (some b) = false

-- The tuples compare their first parts that differ.
unfoldable pub keys_clash : BinKey → BinKey → Bool
keys_clash a b =
    a.exptime == b.exptime
    && (is_clash a.gain b.gain
        || (opt_eq int_eq a.gain b.gain
            && (is_clash a.binning b.binning
                || (opt_eq int_eq a.binning b.binning && is_clash a.temp_bin b.temp_bin))))

-- Among keys with equal first parts some stand next to each other in any sorted order, so a sort
-- compares a pair that clashes wherever there is one.
unfoldable pub any_clash : List (BinKey × Bucket) → Bool
unfolding keys_clash
any_clash [] = false
any_clash ((k, b) ∷ buckets) = any (λ e. keys_clash k e.0) buckets || any_clash buckets

abbrev pub int_ltb : ℤ → ℤ → Bool
int_ltb a b = ltb (pos_part a + neg_part b) (pos_part b + neg_part a)

abbrev pub opt_ltb : Option ℤ → Option ℤ → Bool
opt_ltb (some a) (some b) = int_ltb a b
opt_ltb (some a) none = false
opt_ltb none b = false

-- `<` of two keys that do not clash.
unfoldable pub key_ltb : BinKey → BinKey → Bool
key_ltb a b =
    ltb a.exptime b.exptime
    || (a.exptime == b.exptime
        && (opt_ltb a.gain b.gain
            || (opt_eq int_eq a.gain b.gain
                && (opt_ltb a.binning b.binning
                    || (opt_eq int_eq a.binning b.binning && opt_ltb a.temp_bin b.temp_bin)))))

unfoldable pub insert_bucket : BinKey × Bucket → List (BinKey × Bucket) → List (BinKey × Bucket)
unfolding key_ltb
insert_bucket e [] = e ∷ []
insert_bucket e (f ∷ fs) = if key_ltb f.0 e.0 then f ∷ insert_bucket e fs else e ∷ f ∷ fs

unfoldable pub sort_buckets : List (BinKey × Bucket) → List (BinKey × Bucket)
unfolding insert_bucket
sort_buckets [] = []
sort_buckets (e ∷ es) = insert_bucket e (sort_buckets es)

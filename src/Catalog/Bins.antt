-- ===== src/Catalog/Bins.antt =====
-- `_best_dark_for_bin` and `match_bundle_darks` of server/catalog/matching.py.
use astrolab.Prelude.{
  ℕ, String, Bool, true, false, Option, none, some, List, [], ◌∷◌, if◌then◌else◌, keep_if, ltb,
}
use astrolab.Prelude.Int.{ℤ}
use astrolab.Catalog.Rows.{MasterRow, Catalog, MatchQuality, approx, absent}
use astrolab.Catalog.Masters.{
  Setup, fits_dark, pick, deeper, closer, distance, temp_delta, dark_temp_tolerance,
}
use astrolab.Catalog.Matchers.{in_tolerance, quality_of}
use astrolab.Catalog.Bundles.{BinKey, Bucket, bundle_frames, bucket_frames, any_clash, sort_buckets}

-- The dict that `_best_dark_for_bin` returns.
pub record BinChoice : Type 0 where
  pub id : ℕ
  pub path : String
  pub quality : MatchQuality
  pub delta : Option ℤ
  pub fallback : Bool

abbrev pub nearer : ℤ → MasterRow → MasterRow → Bool
nearer temp a b = ltb (distance temp a) (distance temp b)

-- The last part: the nearest master anyway.
abbrev pub fall_back : ℤ → MasterRow → List MasterRow → BinChoice
fall_back temp m ms =
    let best = pick (nearer temp) m ms in
    record {
      id = best.id;
      path = best.path;
      quality = approx;
      delta = some (temp_delta temp best);
      fallback = true;
    }

-- The candidates within the tolerance first, then all of them.
unfoldable pub choose_near : ℤ → List MasterRow → MasterRow → List MasterRow → BinChoice
unfolding pick temp_delta
choose_near temp [] m ms = fall_back temp m ms
choose_near temp (n ∷ ns) m ms =
    let best = pick (closer temp) n ns in
    record {
      id = best.id;
      path = best.path;
      quality = quality_of (temp_delta temp best);
      delta = some (temp_delta temp best);
      fallback = false;
    }

unfoldable pub choose_dark : (tolerance : ℕ) → Option ℤ → List MasterRow → Option BinChoice
unfolding choose_near pick
choose_dark tolerance temp [] = none
choose_dark tolerance none (m ∷ ms) =
    let best = pick deeper m ms in
    some
      (record { id = best.id; path = best.path; quality = approx; delta = none; fallback = false })
choose_dark tolerance (some temp) (m ∷ ms) =
    some (choose_near temp (in_tolerance tolerance temp (m ∷ ms)) m ms)

abbrev pub setup_of_bin : BinKey → Bucket → String → Setup
setup_of_bin k b instrument = record {
  instrument = instrument;
  camera = b.camera;
  filter = none;
  exptime = k.exptime;
  gain = k.gain;
  binning = k.binning;
}

unfoldable pub best_dark_for_bin :
    (tolerance : ℕ) → List MasterRow → BinKey → Bucket → Option BinChoice
unfolding choose_dark
best_dark_for_bin tolerance masters k b = elim b.instrument [
  | none ↦ none
  | some i ↦ choose_dark tolerance k.temp_bin (keep_if (fits_dark (setup_of_bin k b i)) masters)
]

-- `BundleDarkBin`
pub record BundleDarkBin : Type 0 where
  pub key : BinKey
  pub frame_count : ℕ
  pub master_id : Option ℕ
  pub master_path : Option String
  pub quality : MatchQuality
  pub delta : Option ℤ
  pub fallback : Bool

abbrev pub bin_of : BinKey → ℕ → Option BinChoice → BundleDarkBin
bin_of k n none = record {
  key = k;
  frame_count = n;
  master_id = none;
  master_path = none;
  quality = absent;
  delta = none;
  fallback = false;
}
bin_of k n (some c) = record {
  key = k;
  frame_count = n;
  master_id = some c.id;
  master_path = some c.path;
  quality = c.quality;
  delta = c.delta;
  fallback = c.fallback;
}

unfoldable pub dark_bins :
    (tolerance : ℕ) → List MasterRow → List (BinKey × Bucket) → List BundleDarkBin
unfolding best_dark_for_bin
dark_bins tolerance masters [] = []
dark_bins tolerance masters ((k, b) ∷ buckets) =
    bin_of k b.count (best_dark_for_bin tolerance masters k b) ∷ dark_bins tolerance masters buckets

abbrev pub bin_width : ℕ
bin_width = 2000

-- `match_bundle_darks` with its default width and tolerance; `none` for the TypeError of the sort.
unfoldable pub match_bundle_darks : Catalog → List ℕ → Option (List BundleDarkBin)
unfolding bundle_frames bucket_frames any_clash sort_buckets dark_bins
match_bundle_darks db [] = some []
match_bundle_darks db (sid ∷ sids) =
    let buckets = bucket_frames bin_width (bundle_frames db (sid ∷ sids) db.session_frames) [] in
    if any_clash buckets
    then none
    else some (dark_bins dark_temp_tolerance db.masters (sort_buckets buckets))

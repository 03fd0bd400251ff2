-- ===== src/Catalog/Tests.antt =====
-- Runs of the model of server/catalog, and its theorems at concrete tables.
use astrolab.Prelude.{
  ℕ, ◌*◌, String, false, none, some, List, [], ◌∷◌, map, ◌≡◌, refl, if◌then◌else◌, arith, keep_if,
  any, inl, inr, ◌⊎◌,
}
use astrolab.Prelude.Int.{pos, ◌-ℤ◌}
use astrolab.Catalog.Rows.{SessionRow, Catalog, good, failed, approx, delta}
use astrolab.Catalog.Clusters.{
  Cluster, done, type_error, compute_clusters, group_frames, is_eligible, is_mixed, config_of,
}
use astrolab.Catalog.Runs.{clusters_by_runs, compute_clusters-runs}
use astrolab.Catalog.Partition.{count, all_ids, ids_of, count-compute_clusters}
use astrolab.Catalog.Sessions.{match_cluster_to_session, rebuild_sessions}
use astrolab.Catalog.Overlap.{IsBest, match_cluster_to_session-IsBest}
use astrolab.Catalog.Placement.{IsDistinct, cluster_at}
use astrolab.Catalog.Rebuilt.{HasKnownLinks, EndsAs, rebuild_sessions-EndsAs}
use astrolab.Catalog.Masters.{fits_dark}
use astrolab.Catalog.Matchers.{match_dark, setup_of}
use astrolab.Catalog.Picks.{IsDark, match_dark-IsDark, IsIn}
use astrolab.Catalog.Matches.{
  Profiles, Average, Entry, match_session, match_all_sessions, find_match, session_by_id, kinds,
  found,
}
use astrolab.Catalog.Kinds.{settle, listed}
use astrolab.Catalog.Settled.{Matches, match_session-Matches, match_all_sessions-Settles}
use astrolab.Catalog.Bundles.{BinKey, Bucket, BundleFrame, bundle_frames, bundle_frame}
use astrolab.Catalog.Bins.{BinChoice, match_bundle_darks, best_dark_for_bin, setup_of_bin}
use astrolab.Catalog.Thermal.{IsBinDark, best_dark_for_bin-IsBinDark}
use astrolab.Catalog.Clash.{match_bundle_darks-mixed}
use astrolab.Catalog.Sample.{clock, frame, frames, session, masters, tables}

abbrev clusters : List Cluster
clusters =
    record {
      config = config_of (frame 3 "t0" good none);
      frame_ids = 3 ∷ 2 ∷ [];
      failed_count = 1;
      started_at = "t0";
      ended_at = "t1Z";
    }
    ∷ record {
      config = config_of (frame 3 "t0" good none);
      frame_ids = 1 ∷ [];
      failed_count = 0;
      started_at = "t2";
      ended_at = "t2";
    }
    ∷ []

compute_clusters_runs : compute_clusters clock frames 60 ≡ done clusters
unfolding compute_clusters
compute_clusters_runs = refl

compute_clusters_mixed :
    compute_clusters clock (frame 1 "t0" good none ∷ frame 2 "u0" good none ∷ []) 60 ≡ type_error
unfolding compute_clusters
compute_clusters_mixed = refl

-- Session 7 keeps its id and session 8 goes; the other cluster takes the next rowid.
rebuild_runs : map (λ s. s.id) (rebuild_sessions clusters tables).sessions ≡ 7 ∷ 9 ∷ []
unfolding rebuild_sessions
rebuild_runs = refl

match_dark_runs :
    match_dark masters (session 7) (some (pos 4000))
    ≡ record { master_id = some 2; quality = approx; details = delta (pos 1500) }
unfolding match_dark ◌-ℤ◌
match_dark_runs = refl

bins_run :
    match_bundle_darks
      (record tables { frames = frame 3 "t0" good (some (pos 4000)) ∷ [] })
      (7 ∷ [])
    ≡ some (
        record {
          key = record {
            exptime = 60000000;
            gain = some (pos 100);
            binning = some (pos 1);
            temp_bin = some (pos 5000);
          };
          frame_count = 1;
          master_id = some 2;
          master_path = some "/d2";
          quality = approx;
          delta = some (pos 500);
          fallback = false;
        }
        ∷ [])
unfolding match_bundle_darks ◌-ℤ◌
bins_run = refl

compute_clusters-runs_example : compute_clusters clock frames 60 ≡ (
    if any (λ g. is_mixed clock g.1) (group_frames (keep_if is_eligible frames) [])
    then type_error
    else done (clusters_by_runs (60 * 60) clock (group_frames (keep_if is_eligible frames) [])))
compute_clusters-runs_example = compute_clusters-runs clock frames 60

count-compute_clusters_example :
    count 2 (all_ids clusters) ≡ count 2 (ids_of (keep_if is_eligible frames))
count-compute_clusters_example =
    count-compute_clusters clock frames 60 clusters 2 compute_clusters_runs

match_cluster_to_session-IsBest_example :
    IsBest
      (3 ∷ 2 ∷ [])
      []
      ((7, 2 ∷ 3 ∷ []) ∷ (8, 3 ∷ []) ∷ [])
      (match_cluster_to_session (3 ∷ 2 ∷ []) ((7, 2 ∷ 3 ∷ []) ∷ (8, 3 ∷ []) ∷ []) [])
match_cluster_to_session-IsBest_example =
    match_cluster_to_session-IsBest (3 ∷ 2 ∷ []) [] ((7, 2 ∷ 3 ∷ []) ∷ (8, 3 ∷ []) ∷ [])

tables-HasKnownLinks : HasKnownLinks tables
tables-HasKnownLinks i e = ground (arith, e)

rebuild_sessions-EndsAs_example :
    (placed_in : List (ℕ × Cluster)) × (map (λ e. e.1) placed_in ≡ clusters)
    × IsDistinct placed_in
    × ((i : ℕ) → EndsAs tables (rebuild_sessions clusters tables) i (cluster_at i placed_in))
rebuild_sessions-EndsAs_example = rebuild_sessions-EndsAs clusters tables tables-HasKnownLinks

match_dark-IsDark_example :
    IsDark
      (pos 4000)
      (keep_if (fits_dark (setup_of (session 7) "cam" 60000000)) masters)
      (match_dark masters (session 7) (some (pos 4000)))
match_dark-IsDark_example =
    match_dark-IsDark masters (session 7) "cam" 60000000 (pos 4000) refl refl

abbrev no_profile : Profiles
no_profile s = none

abbrev first_of : Average
first_of [] = pos 0
first_of (t ∷ ts) = t

match_session-Matches_example :
    (db' : Catalog) × (entries : List Entry) × (match_session no_profile first_of 5 7 tables
      ≡ some (db', entries))
    × Matches no_profile first_of 5 tables (session 7) db' entries
match_session-Matches_example =
    match_session-Matches no_profile first_of 5 7 tables (session 7) refl

match_all_sessions-Settles_example :
    (db' : Catalog) × (match_all_sessions no_profile first_of (λ i. 5) tables ≡ some db')
    × (db' ≡ record tables { calibration_matches = db'.calibration_matches })
    × ((sid : ℕ) (kind : String)
        → session_by_id sid tables.sessions ≡ none
        → find_match sid kind db'.calibration_matches
          ≡ find_match sid kind tables.calibration_matches)
    × ((sid : ℕ) (kind : String) (s : SessionRow)
        → session_by_id sid tables.sessions ≡ some s
        → find_match sid kind db'.calibration_matches ≡ (
            if listed kinds kind
            then some (
                settle sid kind
                  (found no_profile first_of tables s kind)
                  5
                  (find_match sid kind tables.calibration_matches))
            else find_match sid kind tables.calibration_matches))
match_all_sessions-Settles_example = match_all_sessions-Settles no_profile first_of (λ i. 5) tables

abbrev cold_key : BinKey
cold_key = record {
  exptime = 60000000;
  gain = some (pos 100);
  binning = some (pos 1);
  temp_bin = some (pos 13000);
}

abbrev one_bucket : Bucket
one_bucket = record { count = 1; instrument = some "cam"; camera = none }

best_dark_for_bin-IsBinDark_example :
    let ms = keep_if (fits_dark (setup_of_bin cold_key one_bucket "cam")) masters in
    ((ms ≡ []) × (best_dark_for_bin 5000 masters cold_key one_bucket ≡ none))
    ⊎ ((c : BinChoice) × (best_dark_for_bin 5000 masters cold_key one_bucket ≡ some c)
        × IsBinDark 5000 (pos 13000) ms c)
best_dark_for_bin-IsBinDark_example =
    best_dark_for_bin-IsBinDark 5000 masters cold_key one_bucket "cam" (pos 13000) refl refl

abbrev warm_frame : BundleFrame
warm_frame = bundle_frame (frame 3 "t0" good (some (pos 4000))) (session 7)

abbrev bare_frame : BundleFrame
bare_frame = bundle_frame (frame 2 "t1Z" failed none) (session 7)

bare-IsIn : IsIn bare_frame (bundle_frames tables (7 ∷ []) tables.session_frames)
unfolding bundle_frames
bare-IsIn = inl refl

warm-IsIn : IsIn warm_frame (bundle_frames tables (7 ∷ []) tables.session_frames)
unfolding bundle_frames
warm-IsIn = inr (inl refl)

match_bundle_darks-mixed_example : match_bundle_darks tables (7 ∷ []) ≡ none
match_bundle_darks-mixed_example =
    match_bundle_darks-mixed tables (7 ∷ []) bare_frame warm_frame 60000000 (pos 4000) bare-IsIn
      warm-IsIn refl refl refl refl refl refl

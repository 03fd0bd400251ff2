-- ===== src/Builder/Build.antt =====
-- `build_from_sessions` and `build_from_session` of server/job_builder.py.
use astrolab.Prelude.{ℕ, String, false, none, List, [], ◌∷◌, map, ltb, if◌then◌else◌}
use astrolab.Models.{Template, CalibrationSpec, Job}
use astrolab.Catalog.Rows.{Catalog}
use astrolab.Builder.Records.{
  Built, ok, err, ◌>>=◌, Paths, Registry, Files, DarkMeta, no_session, too_few_frames,
}
use astrolab.Builder.Bundle.{
  sorted_set, load_sessions, assert_compatible, total_lights, session_lights_folder,
}
use astrolab.Builder.Staging.{stage_multi_session_lights}
use astrolab.Builder.Wire.{Wired, wire_nodes}

abbrev pub min_frames_for_stack : ℕ
min_frames_for_stack = 3

-- The checks before anything is staged.
unfoldable pub check_bundle : Catalog → List ℕ → Built (Unit {0})
unfolding load_sessions assert_compatible total_lights
check_bundle db sids = do
  sessions ← load_sessions db sids
  _ ← assert_compatible sessions
  let total = total_lights db sids
  if ltb total min_frames_for_stack then err (too_few_frames total) else ok tt

unfoldable pub lights_dir : Paths → Catalog → List ℕ → Files → Files × Built String
unfolding session_lights_folder stage_multi_session_lights
lights_dir paths db [] files = (files, err no_session)
lights_dir paths db (sid ∷ []) files = (files, session_lights_folder paths db sid)
lights_dir paths db (sid ∷ sid' ∷ sids) files =
    stage_multi_session_lights paths db (sid ∷ sid' ∷ sids) files

module _ {V : Type 0} (json : List DarkMeta → V) (paths : Paths) (registry : Registry) where
  abbrev pub job_of : Template V → CalibrationSpec → List ℕ → Wired V → Job V
  job_of t cal sids w = record {
    template_id = t.id;
    template_version = t.version;
    profile_id = none;
    target_id = none;
    session_ids = map paths.show sids;
    calibration = cal;
    param_overrides = w.param_overrides;
    inputs = w.inputs;
    preview_only = false;
  }

  unfoldable pub wire_job :
      Catalog → Template V → CalibrationSpec → List ℕ → (cal_session : ℕ) → String → Built (Job V)
  unfolding wire_nodes
  wire_job db t cal sids first dir = do
    w ←
        wire_nodes json registry
          (record { db = db; session_ids = sids; cal_session = first; cal = cal; lights_dir = dir })
          t.nodes (record { inputs = []; param_overrides = [] })
    ok (job_of t cal sids w)

  -- After the ids are sorted. The files are those that staging leaves.
  unfoldable pub build_sorted :
      Catalog → Template V → CalibrationSpec → List ℕ → Files → Files × Built (Job V)
  unfolding check_bundle lights_dir wire_job
  build_sorted db t cal [] files = (files, err no_session)
  build_sorted db t cal (sid ∷ sids) files =
      let (files', dir) = lights_dir paths db (sid ∷ sids) files in
      elim (check_bundle db (sid ∷ sids)) [
        | err e ↦ (files, err e)
        | ok _ ↦ (files', do d ← dir; wire_job db t cal (sid ∷ sids) sid d)
      ]

  unfoldable pub build_from_sessions :
      Catalog → List ℕ → Template V → CalibrationSpec → Files → Files × Built (Job V)
  unfolding build_sorted sorted_set
  build_from_sessions db sids t cal files = build_sorted db t cal (sorted_set sids) files

  unfoldable pub build_from_session :
      Catalog → ℕ → Template V → CalibrationSpec → Files → Files × Built (Job V)
  unfolding build_from_sessions
  build_from_session db sid t cal files = build_from_sessions db (sid ∷ []) t cal files

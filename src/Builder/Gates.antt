-- ===== src/Builder/Gates.antt =====
-- Which requests `build_from_sessions` of server/job_builder.py lets through.
use astrolab.Prelude.{
  ℕ, ◌≤◌, String, List, [], ◌∷◌, map, ltb, ◌≡◌, refl, sym, ap, ◌↔◌, if◌then◌else◌, arith,
}
use astrolab.Models.{Template, CalibrationSpec, Job}
use astrolab.Catalog.Rows.{SessionRow, Catalog}
use astrolab.Builder.Records.{
  Built, ok, err, ◌>>=◌, Paths, Registry, Files, DarkMeta, too_few_frames,
}
use astrolab.Builder.Bundle.{sorted_set, load_sessions, assert_compatible, total_lights}
use astrolab.Builder.Wire.{Wired, wire_nodes}
use astrolab.Builder.Build.{
  min_frames_for_stack, check_bundle, lights_dir, job_of, wire_job, build_sorted,
  build_from_sessions,
}
use astrolab.Builder.Compatible.{
  AreRows, AllAgree, AreRows-load_sessions, load_sessions-AreRows, assert_compatible_iff,
}

-- A list of ids passes the checks if and only if each is a session of the table, these agree with the
-- first one on instrument, camera, filter, gain and binning, and they have three light frames.
abbrev pub Passes : Catalog → List ℕ → Type 0
Passes db sids =
    (ss : List SessionRow) × AreRows db sids ss
    × AllAgree ss
    × (min_frames_for_stack ≤ total_lights db sids)

abbrev enough : Catalog → List ℕ → Built (Unit {0})
enough db sids =
    if ltb (total_lights db sids) min_frames_for_stack
    then err (too_few_frames (total_lights db sids))
    else ok tt

check_bundle_iff : (db : Catalog) (sids : List ℕ) → (check_bundle db sids ≡ ok tt) ↔ Passes db sids
unfolding check_bundle
check_bundle_iff db sids = (
  λ h. passes_of (load_sessions db sids) refl h,
  λ h.
      ground (arith, load_sessions-AreRows db sids h.0 h.1, (assert_compatible_iff h.0).1 h.2, h.3),
)
  where
    passes_of :
        (r : Built (List SessionRow))
        → load_sessions db sids ≡ r
        → (r >>= λ ss. assert_compatible ss >>= λ _. enough db sids) ≡ ok tt
        → Passes db sids
    passes_of (err x) e h = absurd (ground (arith, h))
    passes_of (ok ss) e h = (
      ss,
      AreRows-load_sessions db sids ss e,
      (assert_compatible_iff ss).0 (compatible (assert_compatible ss) h),
      ground (arith, h),
    )
      where
        compatible : (c : Built (Unit {0})) → (c >>= λ _. enough db sids) ≡ ok tt → c ≡ ok tt
        compatible (ok _) h = refl
        compatible (err x) h = absurd (ground (arith, h))

module _ {V : Type 0} (json : List DarkMeta → V) (paths : Paths) (registry : Registry) where
  abbrev pub Checked : Catalog → Template V → CalibrationSpec → List ℕ → Job V → Type 0
  Checked db t cal sids job =
      Passes db sids
      × (job.session_ids ≡ map paths.show sids)
      × (job.template_id ≡ t.id)
      × (job.template_version ≡ t.version)
      × (job.calibration ≡ cal)

  wire_job-Job :
      (db : Catalog) (t : Template V) (cal : CalibrationSpec) (sids : List ℕ) (first : ℕ)
      (dir : String) (job : Job V)
      → wire_job json paths registry db t cal sids first dir ≡ ok job
      → (job.session_ids ≡ map paths.show sids)
        × (job.template_id ≡ t.id)
        × (job.template_version ≡ t.version)
        × (job.calibration ≡ cal)
  unfolding wire_job
  wire_job-Job db t cal sids first dir job e =
      job_from
        (wire_nodes json registry
          (record { db = db; session_ids = sids; cal_session = first; cal = cal; lights_dir = dir })
          t.nodes (record { inputs = []; param_overrides = [] }))
        e
    where
      job_from :
          (w : Built (Wired V))
          → (w >>= λ w. ok (job_of json paths registry t cal sids w)) ≡ ok job
          → (job.session_ids ≡ map paths.show sids)
            × (job.template_id ≡ t.id)
            × (job.template_version ≡ t.version)
            × (job.calibration ≡ cal)
      job_from (err x) e = absurd (ground (arith, e))
      job_from (ok w) e =
          let same : job_of json paths registry t cal sids w ≡ job = ground (arith, e) in
          (
            sym (ap (λ j. j.session_ids) same),
            sym (ap (λ j. j.template_id) same),
            sym (ap (λ j. j.template_version) same),
            sym (ap (λ j. j.calibration) same),
          )

  build_sorted-Checked :
      (db : Catalog) (t : Template V) (cal : CalibrationSpec) (sids : List ℕ) (files : Files)
      (job : Job V)
      → (build_sorted json paths registry db t cal sids files).1 ≡ ok job
      → Checked db t cal sids job
  unfolding build_sorted
  build_sorted-Checked db t cal [] files job e = absurd (ground (arith, e))
  build_sorted-Checked db t cal (i ∷ is) files job e =
      checked (check_bundle db (i ∷ is)) refl (lights_dir paths db (i ∷ is) files).1
        (ground (arith, e))
    where
      checked :
          (c : Built (Unit {0}))
          → check_bundle db (i ∷ is) ≡ c
          → (d : Built String)
          → (c >>= λ _. d >>= λ dir. wire_job json paths registry db t cal (i ∷ is) i dir) ≡ ok job
          → Checked db t cal (i ∷ is) job
      checked (err x) f d e = absurd (ground (arith, e))
      checked (ok u) f (err x) e = absurd (ground (arith, e))
      checked (ok u) f (ok dir) e =
          let j = wire_job-Job db t cal (i ∷ is) i dir job e in
          ((check_bundle_iff db (i ∷ is)).0 f, j.0, j.1, j.2, j.3)

  -- A request for which a job is built names known sessions only, which agree on instrument, camera,
  -- filter, gain and binning and have three light frames or more between them; the job names these
  -- sessions, each once and in ascending order, with the template and the calibration of the
  -- request.
  pub build_from_sessions-Checked :
      (db : Catalog) (sids : List ℕ) (t : Template V) (cal : CalibrationSpec) (files : Files)
      (job : Job V)
      → (build_from_sessions json paths registry db sids t cal files).1 ≡ ok job
      → Checked db t cal (sorted_set sids) job
  unfolding build_from_sessions
  build_from_sessions-Checked db sids t cal files job e =
      build_sorted-Checked db t cal (sorted_set sids) files job e

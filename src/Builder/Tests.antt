-- ===== src/Builder/Tests.antt =====
-- Runs of the model of server/job_builder.py, and its theorems at concrete requests.
use astrolab.Prelude.{
  ℕ, String, false, none, some, List, [], ◌∷◌, ◌==◌, ◌≡◌, refl, if◌then◌else◌, arith,
}
use astrolab.Prelude.Int.{pos, ◌-ℤ◌}
use astrolab.Dict.{get_or}
use astrolab.Models.{
  Template, NodeSpec, CalibrationSpec, auto, Job, Ref, one, many, sequence_fits, master_fits,
  master_fits_list, PortType,
}
use astrolab.Catalog.Rows.{FrameRow, SessionRow, Catalog, light, good, MasterRow}
use astrolab.Builder.Records.{ok, err, Paths, Registry, Files, link, file, DarkMeta, too_few_frames}
use astrolab.Builder.Bundle.{sorted_set}
use astrolab.Builder.Staging.{stage_multi_session_lights, light_rows}
use astrolab.Builder.Build.{build_from_sessions}
use astrolab.Builder.Ids.{build_from_sessions-set}
use astrolab.Builder.Staged.{IsStaged, stage_multi_session_lights-IsStaged}
use astrolab.Builder.Gates.{Checked, build_from_sessions-Checked}

abbrev paths : Paths
paths = record {
  parent = λ p. "/lights";
  name = λ p. p;
  resolve = λ p. p;
  show = λ n. if n == 7 then "7" else if n == 8 then "8" else "?";
  stage_root = λ ids. "/stage";
}

abbrev frame : ℕ → String → FrameRow
frame i path = record {
  id = i;
  path = path;
  image_type = some light;
  quality = good;
  object = some "M31";
  scope_id = none;
  instrument = some "cam";
  camera = none;
  filter = none;
  exptime = some 60000000;
  gain = none;
  binning = none;
  ccd_temp = some (pos 4000);
  date_obs = none;
}

abbrev session : ℕ → SessionRow
session i = record {
  id = i;
  target_id = none;
  scope_id = none;
  instrument = some "cam";
  camera = none;
  filter = none;
  exptime = some 60000000;
  gain = none;
  binning = none;
  started_at = "";
  ended_at = "";
  frame_count = 2;
  failed_count = 0;
  notes = none;
  description = none;
}

abbrev dark : MasterRow
dark = record {
  id = 1;
  kind = "dark";
  path = "/d1";
  instrument = some "cam";
  camera = none;
  filter = none;
  exptime = some 60000000;
  gain = none;
  binning = none;
  ccd_temp = some (pos 5000);
  stack_count = some 3;
  date_built = none;
}

abbrev tables : Catalog
tables = record {
  targets = [];
  frames = frame 1 "a" ∷ frame 2 "b" ∷ frame 3 "a" ∷ [];
  sessions = session 7 ∷ session 8 ∷ [];
  session_frames =
      record { session_id = 7; frame_id = 1 }
      ∷ record { session_id = 7; frame_id = 2 }
      ∷ record { session_id = 8; frame_id = 3 }
      ∷ [];
  masters = dark ∷ [];
  calibration_matches = [];
}

abbrev convert : NodeSpec ℕ
convert = record {
  id = "n";
  kind = "convert";
  variant = none;
  params = [];
  inputs = [];
  ui_depends_on = none;
}

abbrev template : Template ℕ
template = record {
  id = "t";
  version = 2;
  description = "";
  profile = none;
  nodes = convert ∷ [];
  outputs = [];
}

abbrev registry : Registry
registry kind variant = some (record {
  inputs = ("lights", sequence_fits) ∷ ("dark", master_fits_list) ∷ [];
  optional_inputs = [];
})

abbrev calibration : CalibrationSpec
calibration = record { mode = auto; master_ids = [] }

abbrev json : List DarkMeta → ℕ
json ms = 5

abbrev stale : Files
stale = ("/stage", ("old", file) ∷ ("s7__a", link "a") ∷ []) ∷ []

abbrev ext : String → PortType → String → Ref
ext port type path = record {
  display_ready = false;
  node_hash = "ext";
  port = port;
  path = path;
  type = type;
}

abbrev job : Job ℕ
job = record {
  template_id = "t";
  template_version = 2;
  profile_id = none;
  target_id = none;
  session_ids = "7" ∷ "8" ∷ [];
  calibration = calibration;
  param_overrides = ("n", ("dark_bins", some 5) ∷ []) ∷ [];
  inputs =
      ("n.lights", one (ext "lights" sequence_fits "/stage"))
      ∷ ("n.dark", many (ext "dark" master_fits "/d1" ∷ []))
      ∷ [];
  preview_only = false;
}

abbrev staged : Files
staged = ("/stage", ("s7__a", link "a") ∷ ("s7__b", link "b") ∷ ("s8__a", link "a") ∷ []) ∷ []

build_runs :
    build_from_sessions json paths registry tables (8 ∷ 7 ∷ 8 ∷ []) template calibration stale
    ≡ (staged, ok job)
unfolding build_from_sessions ◌-ℤ◌
build_runs = refl

build_too_few :
    (build_from_sessions json paths registry tables (8 ∷ []) template calibration stale).1
    ≡ err (too_few_frames 1)
unfolding build_from_sessions
build_too_few = refl

build_from_sessions-set_example :
    build_from_sessions json paths registry tables (8 ∷ 7 ∷ []) template calibration stale
    ≡ build_from_sessions json paths registry tables (7 ∷ 8 ∷ 7 ∷ []) template calibration stale
build_from_sessions-set_example =
    build_from_sessions-set json paths registry tables (8 ∷ 7 ∷ []) (7 ∷ 8 ∷ 7 ∷ []) template
      calibration stale (λ k. ground arith)

stage_runs : (stage_multi_session_lights paths tables (7 ∷ 8 ∷ []) stale).1 ≡ ok "/stage"
unfolding stage_multi_session_lights
stage_runs = refl

stage_multi_session_lights-IsStaged_example :
    ("/stage" ≡ paths.stage_root (7 ∷ 8 ∷ []))
    × IsStaged paths
        (light_rows tables (7 ∷ 8 ∷ []) tables.session_frames)
        (get_or "/stage" [] (stage_multi_session_lights paths tables (7 ∷ 8 ∷ []) stale).0)
stage_multi_session_lights-IsStaged_example =
    stage_multi_session_lights-IsStaged paths tables (7 ∷ 8 ∷ []) stale "/stage" stage_runs

build_gives_job :
    (build_from_sessions json paths registry tables (8 ∷ 7 ∷ 8 ∷ []) template calibration stale).1
    ≡ ok job
unfolding build_from_sessions ◌-ℤ◌
build_gives_job = refl

build_from_sessions-Checked_example :
    Checked json paths registry tables template calibration (sorted_set (8 ∷ 7 ∷ 8 ∷ [])) job
build_from_sessions-Checked_example =
    build_from_sessions-Checked json paths registry tables (8 ∷ 7 ∷ 8 ∷ []) template calibration
      stale job build_gives_job

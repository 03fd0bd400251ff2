-- ===== src/Catalog/Sample.antt =====
-- A clock, frames, masters and tables that the runs of the model of server/catalog share.
use astrolab.Prelude.{
  ℕ, String, true, false, Option, none, some, List, [], ◌∷◌, str_eq, if◌then◌else◌,
}
use astrolab.Prelude.Int.{ℤ, pos}
use astrolab.Catalog.Rows.{
  FrameRow, SessionRow, MasterRow, MatchRow, Catalog, light, Quality, good, failed, approx, reason,
}
use astrolab.Catalog.Clusters.{Parser}

-- Three dates, and one with an offset.
abbrev pub clock : Parser
clock s =
    if str_eq s "t0"
    then some (record { micros = 0; aware = false })
    else if str_eq s "t1"
    then some (record { micros = 1000000; aware = false })
    else if str_eq s "t2"
    then some (record { micros = 9000000000; aware = false })
    else if str_eq s "u0"
    then some (record { micros = 0; aware = true })
    else none

abbrev pub frame : ℕ → String → Quality → Option ℤ → FrameRow
frame i date q temp = record {
  id = i;
  path = "/lights/a.fits";
  image_type = some light;
  quality = q;
  object = some "M31";
  scope_id = some "nina";
  instrument = some "cam";
  camera = none;
  filter = some "Ha";
  exptime = some 60000000;
  gain = some (pos 100);
  binning = some (pos 1);
  ccd_temp = temp;
  date_obs = some date;
}

abbrev pub frames : List FrameRow
frames =
    frame 1 "t2" good (some (pos 5000))
    ∷ frame 2 "t1Z" failed none
    ∷ frame 3 "t0" good (some (pos 4000))
    ∷ []

abbrev pub session : ℕ → SessionRow
session i = record {
  id = i;
  target_id = some 4;
  scope_id = some "nina";
  instrument = some "cam";
  camera = none;
  filter = some "Ha";
  exptime = some 60000000;
  gain = some (pos 100);
  binning = some (pos 1);
  started_at = "t1";
  ended_at = "t1";
  frame_count = 1;
  failed_count = 0;
  notes = some "windy";
  description = none;
}

abbrev dark : ℕ → String → ℤ → ℕ → MasterRow
dark i path temp stack = record {
  id = i;
  kind = "dark";
  path = path;
  instrument = some "cam";
  camera = none;
  filter = none;
  exptime = some 60000000;
  gain = some (pos 100);
  binning = some (pos 1);
  ccd_temp = some temp;
  stack_count = some stack;
  date_built = none;
}

abbrev pub masters : List MasterRow
masters = dark 1 "/d1" (pos 4000) 3 ∷ dark 2 "/d2" (pos 5500) 10 ∷ dark 3 "/d3" (pos 20000) 50 ∷ []

abbrev chosen_by_user : MatchRow
chosen_by_user = record {
  session_id = 7;
  kind = "dark";
  master_id = some 3;
  match_quality = approx;
  details = reason "mine";
  overridden = true;
  updated_at = 1;
}

abbrev pub tables : Catalog
tables = record {
  targets = record { id = 4; name = "M31" } ∷ [];
  frames = frames;
  sessions = session 7 ∷ session 8 ∷ [];
  session_frames =
      record { session_id = 7; frame_id = 2 }
      ∷ record { session_id = 7; frame_id = 3 }
      ∷ record { session_id = 8; frame_id = 9 }
      ∷ [];
  masters = masters;
  calibration_matches = chosen_by_user ∷ [];
}

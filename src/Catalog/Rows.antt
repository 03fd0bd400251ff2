-- ===== src/Catalog/Rows.antt =====
-- The tables of server/catalog/db.py that the sessions and the matcher read and write. A table is the
-- list of its rows in the order of insertion, NULL is `none`, and id 0 is below every rowid. Exposure
-- times count microseconds and temperatures thousandths of a degree.
use astrolab.Prelude.{ℕ, String, Bool, Option, List, true, false}
use astrolab.Prelude.Int.{ℤ}

pub data ImageType : Type 0 where
  light dark flat bias : ImageType

pub data Quality : Type 0 where
  good failed : Quality

-- A row of `frames`, by the columns that are read here.
pub record FrameRow : Type 0 where
  pub id : ℕ
  pub path : String
  pub image_type : Option ImageType
  pub quality : Quality
  pub object : Option String
  pub scope_id : Option String
  pub instrument : Option String
  pub camera : Option String
  pub filter : Option String
  pub exptime : Option ℕ
  pub gain : Option ℤ
  pub binning : Option ℤ
  pub ccd_temp : Option ℤ
  pub date_obs : Option String

-- `ConfigKey`
pub record Config : Type 0 where
  pub scope_id : Option String
  pub object : Option String
  pub instrument : Option String
  pub camera : Option String
  pub filter : Option String
  pub exptime : Option ℕ
  pub gain : Option ℤ
  pub binning : Option ℤ

-- A row of `sessions`.
pub record SessionRow : Type 0 where
  pub id : ℕ
  pub target_id : Option ℕ
  pub scope_id : Option String
  pub instrument : Option String
  pub camera : Option String
  pub filter : Option String
  pub exptime : Option ℕ
  pub gain : Option ℤ
  pub binning : Option ℤ
  pub started_at : String
  pub ended_at : String
  pub frame_count : ℕ
  pub failed_count : ℕ
  pub notes : Option String
  pub description : Option String

-- A row of `session_frames`.
pub record LinkRow : Type 0 where
  pub session_id : ℕ
  pub frame_id : ℕ

-- A row of `targets`.
pub record TargetRow : Type 0 where
  pub id : ℕ
  pub name : String

-- A row of `masters`, by the columns that the matcher reads.
pub record MasterRow : Type 0 where
  pub id : ℕ
  pub kind : String
  pub path : String
  pub instrument : Option String
  pub camera : Option String
  pub filter : Option String
  pub exptime : Option ℕ
  pub gain : Option ℤ
  pub binning : Option ℤ
  pub ccd_temp : Option ℤ
  pub stack_count : Option ℕ
  pub date_built : Option String

pub data MatchQuality : Type 0 where
  exact approx absent not_needed : MatchQuality

-- The `details` column: the reason of a choice, by its parts, or the difference of temperature.
pub data Details : Type 0 where
  reason : String → Details
  delta : ℤ → Details
  nothing : Details

-- A row of `calibration_matches`.
pub record MatchRow : Type 0 where
  pub session_id : ℕ
  pub kind : String
  pub master_id : Option ℕ
  pub match_quality : MatchQuality
  pub details : Details
  pub overridden : Bool
  pub updated_at : ℕ

pub record Catalog : Type 0 where
  pub targets : List TargetRow
  pub frames : List FrameRow
  pub sessions : List SessionRow
  pub session_frames : List LinkRow
  pub masters : List MasterRow
  pub calibration_matches : List MatchRow

abbrev pub is_light : Option ImageType → Bool
is_light (Option.some light) = true
is_light (Option.some dark) = false
is_light (Option.some flat) = false
is_light (Option.some bias) = false
is_light Option.none = false

abbrev pub is_failed : Quality → Bool
is_failed good = false
is_failed failed = true

-- ===== src/Builder/Records.antt =====
-- The errors of server/job_builder.py, and what it takes from elsewhere.
use astrolab.Prelude.{ℕ, String, Option, List}
use astrolab.Prelude.Int.{ℤ}
use astrolab.Dict.{Dict}
use astrolab.Models.{PortType}

pub data BuildError : Type 0 where
  no_session : BuildError
  session_not_found : ℕ → BuildError
  no_light_frames : BuildError
  incompatible_sessions : (fields : List String) → BuildError
  too_few_frames : ℕ → BuildError
  spans_folders : ℕ → BuildError
  calibration_missing : (port : String) → BuildError
  not_registered : BuildError
  type_error : BuildError

pub data Built {ℓ} (A : Type ℓ) : Type ℓ where
  ok : A → Built A
  err : BuildError → Built A

infixl 5 ◌>>=◌
abbrev pub ◌>>=◌ {ℓ κ} : {A : Type ℓ} {B : Type κ} → Built A → (A → Built B) → Built B
ok a >>= f = f a
err e >>= f = err e

-- `pathlib`, `str` of a number, the SHA-1 name of a stage directory under the program's home.
pub record Paths : Type 0 where
  pub parent : String → String
  pub name : String → String
  pub resolve : String → String
  pub show : ℕ → String
  pub stage_root : List ℕ → String

-- What is read of a node class of the registry.
pub record NodeClass : Type 0 where
  pub inputs : Dict PortType
  pub optional_inputs : List String

abbrev pub Registry : Type 0
Registry = String → Option String → Option NodeClass

-- A file of a stage directory: a symbolic link with its target, or something else.
pub data Entry : Type 0 where
  link : String → Entry
  file : Entry

-- Directories by their paths.
abbrev pub Files : Type 0
Files = Dict (Dict Entry)

-- An entry of the `dark_bins` param.
pub record DarkMeta : Type 0 where
  pub path : String
  pub exptime : Option ℕ
  pub gain : Option ℤ
  pub ccd_temp : Option ℤ

-- ===== src/Models.antt =====
-- server/models.py and server/ports.py: the shapes that the parts of the program share. A path is
-- its text. A Python value that may be None is an `Option` over `V`, the type of the other values.
use astrolab.Prelude.{ℕ, String, Bool, Option, List}
use astrolab.Dict.{Dict}

pub data PortType : Type 0 where
  image_png image_fits sequence_fits master_fits master_fits_list channel_triple : PortType

pub record Ref : Type 0 where
  pub display_ready : Bool
  pub node_hash : String
  pub port : String
  pub path : String
  pub type : PortType

-- `Ref | list[Ref]`
pub data Input : Type 0 where
  one : Ref → Input
  many : List Ref → Input

-- `dict[str, Any]`
abbrev pub Partial : Type 0 → Type 0
Partial V = Dict (Option V)

-- `dict[str, dict[str, Any]]`
abbrev pub Overrides : Type 0 → Type 0
Overrides V = Dict (Dict (Option V))

pub record NodeSpec (V : Type 0) : Type 0 where
  pub id : String
  pub kind : String
  pub variant : Option String
  pub params : Partial V
  pub inputs : Dict String
  pub ui_depends_on : Option String

pub record Template (V : Type 0) : Type 0 where
  pub id : String
  pub version : ℕ
  pub description : String
  pub profile : Option String
  pub nodes : List (NodeSpec V)
  pub outputs : Dict String

pub data CalibrationMode : Type 0 where
  auto explicit without : CalibrationMode

pub record CalibrationSpec : Type 0 where
  pub mode : CalibrationMode
  pub master_ids : Dict ℕ

pub record Job (V : Type 0) : Type 0 where
  pub template_id : String
  pub template_version : ℕ
  pub profile_id : Option String
  pub target_id : Option String
  pub session_ids : List String
  pub calibration : CalibrationSpec
  pub param_overrides : Overrides V
  pub inputs : Dict Input
  pub preview_only : Bool

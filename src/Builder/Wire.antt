-- ===== src/Builder/Wire.antt =====
-- The loop of `build_from_sessions` of server/job_builder.py over the ports of the template's nodes,
-- `matched_master_path` and `_fetch_dark_meta`.
use Prim.Native.String.{◌++◌ as ◌+s◌}
use mathlib.Core.Option
use astrolab.Prelude.{
  ℕ, String, Bool, true, false, ◌||◌, Option, none, some, List, [], ◌∷◌, ◌++◌, map, str_eq, ◌==◌,
  if◌then◌else◌, find_first, any,
}
use astrolab.Dict.{Dict, get, set, get_or}
use astrolab.Models.{
  PortType, sequence_fits, master_fits, master_fits_list, Ref, Input, one, many, NodeSpec,
  Overrides, CalibrationMode, auto, explicit, without, CalibrationSpec,
}
use astrolab.Catalog.Rows.{MasterRow, Catalog}
use astrolab.Catalog.Matches.{find_match}
use astrolab.Catalog.Bins.{BundleDarkBin, match_bundle_darks}
use astrolab.Builder.Records.{
  Built, ok, err, ◌>>=◌, NodeClass, Registry, DarkMeta, calibration_missing, not_registered,
  type_error,
}

abbrev pub master_by_id : ℕ → List MasterRow → Option MasterRow
master_by_id i masters = find_first (λ m. m.id == i) masters

abbrev pub master_by_path : String → List MasterRow → Option MasterRow
master_by_path p masters = find_first (λ m. str_eq m.path p) masters

unfoldable pub matched_master_path : Catalog → ℕ → String → Option String
matched_master_path db sid kind = elim (find_match sid kind db.calibration_matches) [
  | none ↦ none
  | some row ↦ elim row.master_id [
    | none ↦ none
    | some i ↦ Option.map (λ m. m.path) (master_by_id i db.masters)
  ]
]

abbrev pub meta_of : MasterRow → DarkMeta
meta_of m = record { path = m.path; exptime = m.exptime; gain = m.gain; ccd_temp = m.ccd_temp }

-- A master that is gone from the table has no metadata.
abbrev pub meta_at : String → Option MasterRow → DarkMeta
meta_at p none = record { path = p; exptime = none; gain = none; ccd_temp = none }
meta_at p (some m) = meta_of m

unfoldable pub fetch_dark_meta : List MasterRow → List String → List DarkMeta
fetch_dark_meta masters paths = map (λ p. meta_at p (master_by_path p masters)) paths

-- `unique_paths`, in the order of their first bins.
unfoldable pub unique_paths : List BundleDarkBin → List String → List String
unique_paths [] seen = seen
unique_paths (b ∷ bins) seen = unique_paths bins (elim b.master_path [
  | none ↦ seen
  | some p ↦ if any (str_eq p) seen then seen else seen ++ p ∷ []
])

abbrev pub ext_ref : String → PortType → String → Ref
ext_ref port type path = record {
  display_ready = false;
  node_hash = "ext";
  port = port;
  path = path;
  type = type;
}

abbrev pub is_optional : NodeClass → String → Bool
is_optional cls port = any (str_eq port) cls.optional_inputs

-- No master: the port is passed over if it is optional.
abbrev pub without_master {ℓ} : {A : Type ℓ} → NodeClass → String → Built (Option A)
without_master cls port = if is_optional cls port then ok none else err (calibration_missing port)

-- `cal.mode == "explicit" and port_name in cal.master_ids`
abbrev pub explicit_id : CalibrationSpec → String → Option ℕ
explicit_id cal port = elim cal.mode [
  | auto ↦ none
  | explicit ↦ get port cal.master_ids
  | without ↦ none
]

abbrev pub is_without : CalibrationMode → Bool
is_without auto = false
is_without explicit = false
is_without without = true

-- Convention 2: the darks of the bundle's bins, or the explicit one.
unfoldable pub dark_list :
    Catalog
    → List ℕ
    → CalibrationSpec
    → NodeClass
    → String
    → Built (Option (List Ref × List DarkMeta))
unfolding unique_paths fetch_dark_meta match_bundle_darks get
dark_list db sids cal cls port =
    let by_bins : Built (Option (List Ref × List DarkMeta)) = elim (match_bundle_darks db sids) [
      | none ↦ err type_error
      | some bins ↦ elim (unique_paths bins []) [
        | [] ↦ without_master cls port
        | p ∷ ps ↦
            ok (some (map (ext_ref port master_fits) (p ∷ ps), fetch_dark_meta db.masters (p ∷ ps)))
      ]
    ] in
    if is_without cal.mode then without_master cls port else elim (explicit_id cal port) [
      | none ↦ by_bins
      | some i ↦ elim (master_by_id i db.masters) [
        | none ↦ err (calibration_missing port)
        | some m ↦ ok (some (ext_ref port master_fits m.path ∷ [], meta_of m ∷ []))
      ]
    ]

-- Convention 3: the match of the session, or the explicit master.
unfoldable pub master_path :
    Catalog → (cal_session : ℕ) → CalibrationSpec → NodeClass → String → Built (Option String)
unfolding matched_master_path get
master_path db cal_session cal cls port =
    if is_without cal.mode then without_master cls port else elim (explicit_id cal port) [
      | none ↦ elim (matched_master_path db cal_session port) [
        | none ↦ without_master cls port
        | some p ↦ ok (some p)
      ]
      | some i ↦ elim (master_by_id i db.masters) [
        | none ↦ err (calibration_missing port)
        | some m ↦ ok (some m.path)
      ]
    ]

-- What the loop fills.
pub record Wired (V : Type 0) : Type 0 where
  pub inputs : Dict Input
  pub param_overrides : Overrides V

-- What the loop reads.
pub record Bundle : Type 0 where
  pub db : Catalog
  pub session_ids : List ℕ
  pub cal_session : ℕ
  pub cal : CalibrationSpec
  pub lights_dir : String

abbrev pub is_master_kind : String → Bool
is_master_kind port = str_eq port "dark" || (str_eq port "flat" || str_eq port "bias")

abbrev pub external_key : String → String → String
external_key node port = node +s "." +s port

-- `dark_bins` is a JSON value.
module _ {V : Type 0} (json : List DarkMeta → V) where
  unfoldable pub add_dark_bins : String → List DarkMeta → Overrides V → Overrides V
  unfolding get_or set
  add_dark_bins node [] overrides = overrides
  add_dark_bins node (m ∷ ms) overrides =
      set node (set "dark_bins" (some (json (m ∷ ms))) (get_or node [] overrides)) overrides

  unfoldable pub wire_dark_list :
      String → String → Option (List Ref × List DarkMeta) → Wired V → Wired V
  unfolding add_dark_bins set
  wire_dark_list node port none w = w
  wire_dark_list node port (some (refs, metas)) w = record {
    inputs = set (external_key node port) (many refs) w.inputs;
    param_overrides = add_dark_bins node metas w.param_overrides;
  }

  unfoldable pub wire_master : String → String → Option String → Wired V → Wired V
  unfolding set
  wire_master node port none w = w
  wire_master node port (some path) w = record w {
    inputs = set (external_key node port) (one (ext_ref port master_fits path)) w.inputs;
  }

  abbrev pub wire_lights : String → String → String → Wired V → Wired V
  wire_lights node port dir w = record w {
    inputs = set (external_key node port) (one (ext_ref port sequence_fits dir)) w.inputs;
  }

  -- The body of the inner loop, for an external port.
  unfoldable pub wire_external :
      Bundle → NodeSpec V → NodeClass → String → PortType → Wired V → Built (Wired V)
  unfolding dark_list master_path wire_dark_list wire_master set
  wire_external b n cls port sequence_fits w =
      if str_eq port "lights" then ok (wire_lights n.id port b.lights_dir w) else ok w
  wire_external b n cls port master_fits_list w =
      let wired = do
        r ← dark_list b.db b.session_ids b.cal cls port
        ok (wire_dark_list n.id port r w)
      in if str_eq port "dark" then wired else ok w
  wire_external b n cls port master_fits w =
      let wired = do
        r ← master_path b.db b.cal_session b.cal cls port
        ok (wire_master n.id port r w)
      in if is_master_kind port then wired else ok w
  wire_external b n cls port _ w = ok w

  unfoldable pub wire_ports :
      Bundle → NodeSpec V → NodeClass → Dict PortType → Wired V → Built (Wired V)
  unfolding wire_external get
  wire_ports b n cls [] w = ok w
  wire_ports b n cls ((port, type) ∷ ports) w = elim (get port n.inputs) [
    | some _ ↦ wire_ports b n cls ports w
    | none ↦ do w' ← wire_external b n cls port type w; wire_ports b n cls ports w'
  ]

  unfoldable pub wire_nodes : Registry → Bundle → List (NodeSpec V) → Wired V → Built (Wired V)
  unfolding wire_ports
  wire_nodes registry b [] w = ok w
  wire_nodes registry b (n ∷ nodes) w = elim (registry n.kind n.variant) [
    | none ↦ err not_registered
    | some cls ↦ do w' ← wire_ports b n cls cls.inputs w; wire_nodes registry b nodes w'
  ]

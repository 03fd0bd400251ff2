-- ===== src/Runtime/Inputs.antt =====
-- `_resolved_params`, `_resolve_inputs`, `_input_node_hashes` and `_locate_port_artifact` of
-- server/runtime.py. Of a node class the model keeps what the runtime reads; pydantic's validation of
-- params, the hash of a node and the file system are parameters.
use Prim.Native.String.{◌++◌ as ◌+s◌}
use astrolab.Prelude.{ℕ, String, Bool, Option, none, some, List, [], ◌∷◌, if◌then◌else◌}
use astrolab.Dict.{Dict, get, set, get_or}
use astrolab.Models.{Partial, Overrides, PortType, Ref, Input, one, many}
use astrolab.Cache.{member}
use astrolab.Runtime.Graph.{add}

pub record NodeClass : Type 0 where
  pub id : String
  pub version : ℕ
  pub inputs : Dict PortType
  pub outputs : Dict PortType
  pub optional_inputs : List String

pub data Failure : Type 0 where
  run_error : (node : String) → Failure
  job_cancelled : (node : String) → Failure
  not_registered : (node : String) → Failure
  invalid_params : (node : String) → Failure
  commit_refused : (node : String) → Failure
  skipped_output : (node : String) → Failure
  unresolved_output : (name : String) → Failure
  list_output : (name : String) → Failure

pub data Ran {ℓ} (A : Type ℓ) : Type ℓ where
  ok : A → Ran A
  failed : Failure → Ran A

infixl 5 ◌>>=◌
abbrev pub ◌>>=◌ {ℓ κ} : {A : Type ℓ} {B : Type κ} → Ran A → (A → Ran B) → Ran B
ok a >>= f = f a
failed e >>= f = failed e

-- "<node_id>.<port>" to a Ref or a list of them.
abbrev pub Refs : Type 0
Refs = Dict Input

abbrev pub port_key : String → String → String
port_key node port = node +s "." +s port

-- The port of a node that no edge reaches: an external input, or nothing if it is optional.
unfoldable pub unwired : (nid port : String) → NodeClass → Refs → Ran (Option Input)
unfolding get
unwired nid port cls refs = elim (get (port_key nid port) refs) [
  | some r ↦ ok (some r)
  | none ↦ if member port cls.optional_inputs then ok none else failed (run_error nid)
]

unfoldable pub resolve_port :
    (nid port : String) → Dict String → NodeClass → Refs → Ran (Option Input)
unfolding unwired get
resolve_port nid port edges cls refs = elim (get port edges) [
  | none ↦ unwired nid port cls refs
  | some src ↦ elim (get src refs) [ none ↦ failed (run_error nid) | some r ↦ ok (some r) ]
]

abbrev pub put_input : String → Option Input → Dict Input → Dict Input
put_input port none resolved = resolved
put_input port (some r) resolved = set port r resolved

unfoldable pub resolve_ports :
    (nid : String) → Dict String → NodeClass → Refs → Dict PortType → Dict Input → Ran (Dict Input)
unfolding resolve_port set
resolve_ports nid edges cls refs [] resolved = ok resolved
resolve_ports nid edges cls refs ((port, type) ∷ ports) resolved = do
  r ← resolve_port nid port edges cls refs
  resolve_ports nid edges cls refs ports (put_input port r resolved)

unfoldable pub resolve_inputs : (nid : String) → Dict String → NodeClass → Refs → Ran (Dict Input)
unfolding resolve_ports
resolve_inputs nid edges cls refs = resolve_ports nid edges cls refs cls.inputs []

abbrev pub add_hashes : List Ref → List String → List String
add_hashes [] out = out
add_hashes (r ∷ rs) out = add_hashes rs (add r.node_hash out)

abbrev pub refs_of : Input → List Ref
refs_of (one r) = r ∷ []
refs_of (many rs) = rs

unfoldable pub input_node_hashes : Dict Input → List String → List String
input_node_hashes [] out = out
input_node_hashes ((port, v) ∷ inputs) out = input_node_hashes inputs (add_hashes (refs_of v) out)

-- `<entry>/<port>` if it is a directory, else the first of the files `<entry>/<port>.*`.
unfoldable pub locate_port_artifact :
    (is_dir : String → String → Bool)
    → (dir_path : String → String → String) → (glob : String → String → List String)
    → (hash port : String) → Option String
locate_port_artifact is_dir dir_path glob hash port =
    if is_dir hash port
    then some (dir_path hash port)
    else elim (glob hash port) [ [] ↦ none | p ∷ ps ↦ some p ]

module _ {V : Type 0} where
  -- `merged.update(…)`
  unfoldable pub update : Partial V → Partial V → Partial V
  unfolding set
  update merged [] = merged
  update merged ((k, v) ∷ params) = update (set k v merged) params

  -- The defaults of a profile are keyed by kind and by node id.
  unfoldable pub merged_params :
      (nid kind : String) → Partial V → Option (Overrides V) → Overrides V → Partial V
  unfolding update get_or
  merged_params nid kind raw defaults overrides =
      let base : Partial V = elim defaults [
        | none ↦ []
        | some d ↦ update (update [] (get_or kind [] d)) (get_or nid [] d)
      ] in
      update (update base raw) (get_or nid [] overrides)

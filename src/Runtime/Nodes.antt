-- ===== src/Runtime/Nodes.antt =====
-- The first pass of `run_job` in server/runtime.py: the plan of each node and the placeholder refs.
use astrolab.Prelude.{
  String, Bool, false, not, ◌&&◌, Option, none, some, List, [], ◌∷◌, if◌then◌else◌, is_some,
}
use astrolab.Dict.{Dict, get, set}
use astrolab.Models.{Partial, Overrides, PortType, Ref, Input, one, NodeSpec, Template, Job}
use astrolab.Migrations.{node_by_id}
use astrolab.Cache.{Cache, is_committed}
use astrolab.Runtime.Inputs.{
  NodeClass, Ran, ok, failed, ◌>>=◌, run_error, not_registered, invalid_params, Refs, port_key,
  resolve_inputs, merged_params,
}

-- What the runtime calls. `hash` is `node_hash` with the version of Siril for the classes that use
-- it, and `validate` the params schema of a class.
pub record Library (V P : Type 0) : Type 0 where
  pub registry : String → Option String → Option NodeClass
  pub validate : NodeClass → Partial V → Option P
  pub hash : NodeClass → Dict Input → P → String
  pub entry_path : (hash port : String) → String

-- `_NodePlan`
pub record NodePlan (V P : Type 0) : Type 0 where
  pub spec : NodeSpec V
  pub cls : NodeClass
  pub h : String
  pub is_hit : Bool
  pub params : P

abbrev pub placeholder : (path : String) → String → String → PortType → Ref
placeholder path h port type = record {
  display_ready = false;
  node_hash = h;
  port = port;
  path = path;
  type = type;
}

module _ {V P : Type 0} (lib : Library V P) where
  -- The refs of external inputs are not shadowed.
  unfoldable pub add_placeholders : (nid h : String) → Dict PortType → Refs → Refs
  unfolding get set
  add_placeholders nid h [] refs = refs
  add_placeholders nid h ((port, type) ∷ ports) refs = add_placeholders nid h ports (
      if is_some (get (port_key nid port) refs)
      then refs
      else set (port_key nid port) (one (placeholder (lib.entry_path h port) h port type)) refs)

  module _ (t : Template V) (job : Job V) (defaults : Option (Overrides V)) (force : Bool) where
    abbrev pub Plan : Type 0
    Plan = Dict (NodePlan V P)

    -- `by_id[nid]` of a node of the order.
    unfoldable pub spec_of : String → Ran (NodeSpec V)
    unfolding node_by_id
    spec_of nid = elim (node_by_id nid t.nodes) [ none ↦ failed (run_error nid) | some s ↦ ok s ]

    abbrev pub class_of : String → NodeSpec V → Ran NodeClass
    class_of nid s = elim (lib.registry s.kind s.variant) [
      | none ↦ failed (not_registered nid)
      | some c ↦ ok c
    ]

    unfoldable pub params_of : String → NodeSpec V → NodeClass → Ran P
    unfolding merged_params
    params_of nid s cls =
        elim (lib.validate cls (merged_params nid s.kind s.params defaults job.param_overrides)) [
          | none ↦ failed (invalid_params nid)
          | some p ↦ ok p
        ]

    unfoldable pub plan_one : Cache V → (nid : String) → Refs → Ran (NodePlan V P)
    unfolding spec_of params_of resolve_inputs is_committed
    plan_one cache nid refs = do
      s ← spec_of nid
      cls ← class_of nid s
      inputs ← resolve_inputs nid s.inputs cls refs
      p ← params_of nid s cls
      let h = lib.hash cls inputs p
      ok (record {
        spec = s;
        cls = cls;
        h = h;
        is_hit = not force && is_committed h cache;
        params = p;
      })

    -- `for nid in order`
    unfoldable pub plan_all : Cache V → List String → Refs → Plan → Ran (Refs × Plan)
    unfolding plan_one add_placeholders set
    plan_all cache [] refs plan = ok (refs, plan)
    plan_all cache (nid ∷ order) refs plan = do
      p ← plan_one cache nid refs
      plan_all cache order (add_placeholders nid p.h p.cls.outputs refs) (set nid p plan)

-- ===== src/Runtime/Job.antt =====
-- `run_job` of server/runtime.py as a whole: the three passes and the outputs of the template.
use astrolab.Prelude.{
  String, Bool, false, not, ◌&&◌, Option, none, some, List, [], ◌∷◌, if◌then◌else◌,
}
use astrolab.Dict.{Dict, get, set}
use astrolab.Models.{Overrides, Ref, one, many, Template, Job}
use astrolab.Cache.{Cache, member}
use astrolab.Runtime.Graph.{node_part}
use astrolab.Runtime.Topo.{done, cycle, no_fuel, topo_order}
use astrolab.Runtime.Plan.{must_run}
use astrolab.Runtime.Inputs.{
  Ran, ok, failed, ◌>>=◌, run_error, skipped_output, unresolved_output, list_output, Refs,
}
use astrolab.Runtime.Nodes.{Library, NodePlan, plan_all}
use astrolab.Runtime.World.{World, Live, Step}
use astrolab.Runtime.Execute.{run_all}

module _ {V P : Type 0} where
  abbrev pub hit_in : Dict (NodePlan V P) → String → Bool
  hit_in plan nid = elim (get nid plan) [ none ↦ false | some p ↦ p.is_hit ]

  -- The source is planned, and is neither a hit nor to be run.
  unfoldable pub is_skipped : Dict (NodePlan V P) → List String → String → Bool
  unfolding get
  is_skipped plan must src = elim (get src plan) [
    | none ↦ false
    | some p ↦ not p.is_hit && not (member src must)
  ]

  unfoldable pub public_ref :
      Dict (NodePlan V P) → List String → Refs → (name internal : String) → Ran Ref
  unfolding is_skipped get
  public_ref plan must refs name internal = elim (get internal refs) [
    | none ↦ failed (unresolved_output name)
    | some r ↦
        let exposed : Ran Ref = elim r [ one r ↦ ok r | many rs ↦ failed (list_output name) ] in
        if is_skipped plan must (node_part internal)
        then failed (skipped_output (node_part internal))
        else exposed
  ]

  unfoldable pub public_outputs :
      Dict (NodePlan V P) → List String → Refs → Dict String → Dict Ref → Ran (Dict Ref)
  unfolding public_ref set
  public_outputs plan must refs [] public = ok public
  public_outputs plan must refs ((name, internal) ∷ outputs) public = do
    r ← public_ref plan must refs name internal
    public_outputs plan must refs outputs (set name r public)

  -- From the order on.
  module _ (lib : Library V P) (w : World V P) (t : Template V) (job : Job V)
      (defaults : Option (Overrides V)) (force : Bool) where
    abbrev pub closing : Dict (NodePlan V P) → List String → Step V → Live V × Ran (Dict Ref)
    closing plan must (s, some e) = (s, failed e)
    closing plan must (s, none) = (s, public_outputs plan must s.refs t.outputs [])

    unfoldable pub run_plan :
        Cache V → List String → Refs × Dict (NodePlan V P) → Live V × Ran (Dict Ref)
    unfolding run_all must_run public_outputs get
    run_plan cache order (refs, plan) =
        let must = must_run (hit_in plan) t order in
        closing plan must
          (run_all w force must plan order (record { cache = cache; refs = refs; events = [] }))

    abbrev idle : Cache V → Live V
    idle cache = record { cache = cache; refs = job.inputs; events = [] }

    unfoldable pub run_order : Cache V → List String → Live V × Ran (Dict Ref)
    unfolding run_plan plan_all
    run_order cache order = elim (plan_all lib t job defaults force cache order job.inputs []) [
      | failed e ↦ (idle cache, failed e)
      | ok planned ↦ run_plan cache order planned
    ]

    unfoldable pub run_job : Cache V → Live V × Ran (Dict Ref)
    unfolding run_order topo_order
    run_job cache = elim (topo_order t) [
      | done s ↦ run_order cache s.order
      | cycle n ↦ (idle cache, failed (run_error n))
      | no_fuel ↦ (idle cache, failed (run_error ""))
    ]

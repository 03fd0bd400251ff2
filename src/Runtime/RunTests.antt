-- ===== src/Runtime/RunTests.antt =====
-- Runs of the model of `run_job` in server/runtime.py on a template of three nodes, and the theorems
-- on its events and its outputs at it.
use Prim.Native.String.{◌++◌ as ◌+s◌}
use astrolab.Prelude.{
  ℕ, String, Bool, true, false, none, some, [], ◌∷◌, ◌++◌, ◌≡◌, ◌≢◌, refl, List, str_eq, map,
  if◌then◌else◌,
}
use astrolab.Dict.{Dict}
use astrolab.Models.{
  PortType, image_fits, sequence_fits, auto, Partial, Ref, one, NodeSpec, Template, Job,
}
use astrolab.Cache.{Cache}
use astrolab.Runtime.Topo.{Search, done, topo_order}
use astrolab.Runtime.Plan.{must_run}
use astrolab.Runtime.Inputs.{Ran, ok, failed, job_cancelled, run_error, Refs, skipped_output}
use astrolab.Runtime.Nodes.{Library, NodePlan, plan_all}
use astrolab.Runtime.World.{
  RunEvent, node_started, node_cached, node_skipped, node_completed, node_warning, node_progress,
  progress, warn, outputs, raised, World, Live,
}
use astrolab.Runtime.Execute.{run_all}
use astrolab.Runtime.Job.{hit_in, public_outputs, run_job}
use astrolab.Runtime.Stages.{stages, lives}
use astrolab.Runtime.Events.{run_all-Sends}
use astrolab.Runtime.Safe.{public_outputs-not_skipped}

abbrev node : String → Dict String → NodeSpec ℕ
node id inputs = record {
  id = id;
  kind = id;
  variant = none;
  params = [];
  inputs = inputs;
  ui_depends_on = none;
}

abbrev template : Template ℕ
template = record {
  id = "single";
  version = 1;
  description = "";
  profile = none;
  nodes =
      node "convert" []
      ∷ node "stack" (("seq", "convert.out") ∷ [])
      ∷ node "stretch" (("image", "stack.out") ∷ [])
      ∷ [];
  outputs = ("final", "stretch.out") ∷ [];
}

abbrev job : Job ℕ
job = record {
  template_id = "single";
  template_version = 1;
  profile_id = none;
  target_id = none;
  session_ids = [];
  calibration = record { mode = auto; master_ids = [] };
  param_overrides = [];
  inputs = [];
  preview_only = false;
}

abbrev ports_of : String → Dict PortType
ports_of kind =
    if str_eq kind "stack"
    then ("seq", sequence_fits) ∷ []
    else if str_eq kind "stretch"
    then ("image", image_fits) ∷ []
    else []

-- The hash of a node is the id of its class, and no param is refused.
abbrev lib : Library ℕ (Partial ℕ)
lib = record {
  registry = λ kind variant. some (record {
    id = kind;
    version = 1;
    inputs = ports_of kind;
    outputs = ("out", image_fits) ∷ [];
    optional_inputs = [];
  });
  validate = λ cls params. some params;
  hash = λ cls inputs params. cls.id;
  entry_path = λ hash port. hash +s "/" +s port;
}

abbrev ref : String → Ref
ref hash = record {
  display_ready = false;
  node_hash = hash;
  port = "out";
  path = hash +s "/out";
  type = image_fits;
}

-- A node warns once, writes its output and is done.
abbrev world : World ℕ (Partial ℕ)
world = record {
  is_cancelled = λ nid. false;
  exists = λ r. true;
  is_dir = λ hash port. true;
  dir_path = λ hash port. hash +s "/" +s port;
  glob = λ hash port. [];
  join = λ hash path. path;
  estimate = λ cls inputs params. 0;
  headroom = none;
  run = λ cls inputs params. (warn 7 ∷ progress 1 ∷ [], outputs (("out", ref cls.id) ∷ []));
  is_inside = λ hash r. true;
  relative = λ hash r. some r.path;
  entry_bytes = λ hash rs. 10;
  job_id = some "j";
}

-- The stack is committed, by a version that wrote no manifest.
abbrev cache : Cache ℕ
cache =
    ("stack", record { done = true; bytes = 5; outputs = none; warnings = 3 ∷ []; marks = [] }) ∷ []

abbrev events_of : World ℕ (Partial ℕ) → List (RunEvent ℕ)
events_of w = (run_job lib w template job none false cache).0.events

abbrev result_of : World ℕ (Partial ℕ) → Ran (Dict Ref)
result_of w = (run_job lib w template job none false cache).1

runs :
    events_of world
    ≡ node_started "convert" "convert"
      ∷ node_skipped "convert" "convert"
      ∷ node_started "stack" "stack"
      ∷ node_cached "stack" "stack"
      ∷ node_warning "stack" 3
      ∷ node_started "stretch" "stretch"
      ∷ node_warning "stretch" 7
      ∷ node_progress "stretch" 1
      ∷ node_completed "stretch" "stretch"
      ∷ []
unfolding run_job
runs = refl

returns : result_of world ≡ ok (("final", ref "stretch") ∷ [])
unfolding run_job
returns = refl

-- The entry and that of its input are marked.
marks :
    map {B = String × List String}
      (λ e. (e.0, e.1.marks))
      (run_job lib world template job none false cache).0.cache
    ≡ ("stack", "j" ∷ []) ∷ ("stretch", "j" ∷ []) ∷ []
unfolding run_job
marks = refl

raises :
    result_of (record world { run = λ cls inputs params. ([], raised) })
    ≡ failed (run_error "stretch")
unfolding run_job
raises = refl

abbrev cancelled : World ℕ (Partial ℕ)
cancelled = record world { is_cancelled = λ nid. str_eq nid "stack" }

stops : result_of cancelled ≡ failed (job_cancelled "stack")
unfolding run_job
stops = refl

abbrev order : List String
order = "convert" ∷ "stack" ∷ "stretch" ∷ []

abbrev found : Search
found = record { visited = order; order = order }

sorts : topo_order template ≡ done found
unfolding topo_order
sorts = refl

abbrev plan_node : String → Dict String → (is_hit : Bool) → NodePlan ℕ (Partial ℕ)
plan_node id inputs is_hit = record {
  spec = node id inputs;
  cls = record {
    id = id;
    version = 1;
    inputs = ports_of id;
    outputs = ("out", image_fits) ∷ [];
    optional_inputs = [];
  };
  h = id;
  is_hit = is_hit;
  params = [];
}

abbrev plan : Dict (NodePlan ℕ (Partial ℕ))
plan =
    ("convert", plan_node "convert" [] false)
    ∷ ("stack", plan_node "stack" (("seq", "convert.out") ∷ []) true)
    ∷ ("stretch", plan_node "stretch" (("image", "stack.out") ∷ []) false)
    ∷ []

abbrev planned : Refs × Dict (NodePlan ℕ (Partial ℕ))
planned = (
  ("convert.out", one (ref "convert"))
      ∷ ("stack.out", one (ref "stack"))
      ∷ ("stretch.out", one (ref "stretch"))
      ∷ [],
  plan,
)

plans : plan_all lib template job none false cache order [] [] ≡ ok planned
unfolding plan_all
plans = refl

must : must_run (hit_in plan) template order ≡ "stretch" ∷ []
unfolding must_run
must = refl

abbrev live : Live ℕ
live = record { cache = cache; refs = planned.0; events = [] }

ends : (run_all world false ("stretch" ∷ []) plan order live).1 ≡ none
unfolding run_all
ends = refl

run_all-Sends_example :
    stages (run_all world false ("stretch" ∷ []) plan order live).0.events
    ≡ stages live.events ++ lives ("stretch" ∷ []) plan order
run_all-Sends_example = run_all-Sends world false ("stretch" ∷ []) plan order live ends

public_outputs-not_skipped_example :
    public_outputs planned.1
      (must_run (hit_in planned.1) template found.order)
      planned.0
      template.outputs
      []
    ≢ failed (skipped_output "stretch")
public_outputs-not_skipped_example =
    public_outputs-not_skipped lib template job none false cache found planned planned.0 "stretch"
      sorts plans

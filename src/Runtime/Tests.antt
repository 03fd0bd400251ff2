-- ===== src/Runtime/Tests.antt =====
-- Runs of the model of server/runtime.py on a small template, and its theorems at it.
use astrolab.Prelude.{Bool, true, ◌≡◌, refl, none, [], ◌∷◌, ◌||◌, ◌↔◌, ℕ}
use Prim.Native.String.{String}
use astrolab.Models.{NodeSpec, Template}
use astrolab.Dict.{Dict}
use astrolab.Cache.{member}
use astrolab.Runtime.Graph.{output_sources}
use astrolab.Runtime.Plan.{Needed, must_run}
use astrolab.Runtime.Topo.{Search, done, cycle, topo_order}
use astrolab.Runtime.Edges.{succs_of}
use astrolab.Runtime.Order.{IsSorted, topo_order-IsSorted, must_run-feeds, must_run-Needed}

abbrev node : String → Dict String → NodeSpec ℕ
node id inputs = record {
  id = id;
  kind = id;
  variant = none;
  params = [];
  inputs = inputs;
  ui_depends_on = none;
}

-- The nodes stand out of order.
abbrev template : Template ℕ
template = record {
  id = "mosaic";
  version = 1;
  description = "";
  profile = none;
  nodes =
      node "stretch" (("in", "stack.image") ∷ [])
      ∷ node "register" (("in", "convert.seq") ∷ [])
      ∷ node "stack" (("in", "register.seq") ∷ [])
      ∷ node "convert" []
      ∷ [];
  outputs = ("final", "stretch.image") ∷ [];
}

abbrev found : Search
found = record {
  visited = "convert" ∷ "register" ∷ "stack" ∷ "stretch" ∷ [];
  order = "convert" ∷ "register" ∷ "stack" ∷ "stretch" ∷ [];
}

sorts : topo_order template ≡ done found
unfolding topo_order
sorts = refl

loops :
    topo_order (record template {
      nodes = node "a" (("in", "b.x") ∷ []) ∷ node "b" (("in", "a.x") ∷ []) ∷ [];
    })
    ≡ cycle "a"
unfolding topo_order
loops = refl

-- The stack is in the cache.
abbrev hit : String → Bool
hit id = member id ("stack" ∷ [])

plans : must_run hit template found.order ≡ "stretch" ∷ []
unfolding must_run
plans = refl

topo_order-IsSorted_example : IsSorted template (topo_order template)
topo_order-IsSorted_example = topo_order-IsSorted template

must_run-feeds_example : hit "stack" || member "stack" (must_run hit template found.order) ≡ true
unfolding must_run
must_run-feeds_example = must_run-feeds hit template found "stack" "stretch" sorts refl refl refl

must_run-Needed_example :
    (member "register" (must_run hit template found.order) ≡ true)
    ↔ Needed hit (output_sources template.outputs) (succs_of template) "register"
must_run-Needed_example = must_run-Needed hit template found "register" sorts refl

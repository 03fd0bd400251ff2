-- ===== src/Runtime/Topo.antt =====
-- `_topo_order` of server/runtime.py. Its recursion is on fuel. `visiting`, which a call adds its node
-- to and removes it from again, is an argument: an error ends the whole search.
use astrolab.Prelude.{
  ℕ, zero, suc, String, none, some, List, [], ◌∷◌, ◌++◌, map, if◌then◌else◌, length,
}
use astrolab.Dict.{Dict, get_or, set, get}
use astrolab.Models.{NodeSpec, Template}
use astrolab.Cache.{member}
use astrolab.Runtime.Graph.{node_part, add, no_edges}

-- `if src_node in deps: deps[node.id].add(src_node)`
unfoldable pub add_dep : (nid src : String) → Dict (List String) → Dict (List String)
unfolding get set get_or
add_dep nid src deps = elim (get src deps) [
  | none ↦ deps
  | some _ ↦ set nid (add src (get_or nid [] deps)) deps
]

unfoldable pub add_deps : (nid : String) → Dict String → Dict (List String) → Dict (List String)
unfolding add_dep
add_deps nid [] deps = deps
add_deps nid ((port, ref) ∷ inputs) deps = add_deps nid inputs (add_dep nid (node_part ref) deps)

-- The variables of the search that last.
pub record Search : Type 0 where
  pub visited : List String
  pub order : List String

pub data Visit : Type 0 where
  done : Search → Visit
  cycle : (node : String) → Visit
  no_fuel : Visit

-- `for d in …: visit(d)`
unfoldable pub visit_each : (String → Search → Visit) → List String → Search → Visit
visit_each visit [] s = done s
visit_each visit (d ∷ ds) s = elim (visit d s) [
  | done s' ↦ visit_each visit ds s'
  | cycle n ↦ cycle n
  | no_fuel ↦ no_fuel
]

abbrev pub finish : String → Visit → Visit
finish nid (done s) = done (record { visited = add nid s.visited; order = s.order ++ nid ∷ [] })
finish nid (cycle n) = cycle n
finish nid no_fuel = no_fuel

unfoldable pub visit :
    (deps : String → List String) (fuel : ℕ) (visiting : List String) → String → Search → Visit
unfolding visit_each
visit deps zero visiting nid s = no_fuel
visit deps (suc fuel) visiting nid s =
    let down = visit_each (visit deps fuel (add nid visiting)) (deps nid) s in
    if member nid s.visited
    then done s
    else if member nid visiting
    then cycle nid
    else finish nid down

module _ {V : Type 0} where
  unfoldable pub node_deps : List (NodeSpec V) → Dict (List String) → Dict (List String)
  unfolding add_deps
  node_deps [] deps = deps
  node_deps (n ∷ nodes) deps = node_deps nodes (add_deps n.id n.inputs deps)

  abbrev pub ids : Template V → List String
  ids t = map (λ n. n.id) t.nodes

  unfoldable pub topo_order : Template V → Visit
  unfolding visit node_deps no_edges visit_each get_or
  topo_order t =
      let deps = node_deps t.nodes (no_edges t.nodes []) in
      visit_each (visit (λ n. get_or n [] deps) (suc (length (ids t))) []) (ids t)
        (record { visited = []; order = [] })

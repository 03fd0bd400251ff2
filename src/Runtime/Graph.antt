-- ===== src/Runtime/Graph.antt =====
-- The edges of a template, in server/runtime.py. A set of node ids is a list without repetition.
use Prim.Native.Char.{code}
use Prim.Native.String.{String}
use astrolab.Prelude.{none, some, List, [], ◌∷◌, ◌++◌, ◌==◌, if◌then◌else◌}
use astrolab.Dict.{Dict, get, set}
use astrolab.Models.{NodeSpec, Template}
use astrolab.Cache.{member}

-- `ref.split(".", 1)[0]`, where 46 is the dot.
abbrev pub node_part : String → String
node_part String.[] = String.[]
node_part (String.◌∷◌ c s) = if code c == 46 then String.[] else String.◌∷◌ c (node_part s)

-- `s.add(x)`
abbrev pub add : String → List String → List String
add x xs = if member x xs then xs else xs ++ x ∷ []

-- `if src_nid in out: out[src_nid].add(node.id)`
unfoldable pub add_edge : (src nid : String) → Dict (List String) → Dict (List String)
unfolding get set
add_edge src nid out = elim (get src out) [ none ↦ out | some s ↦ set src (add nid s) out ]

-- The loop over `node.inputs.values()`.
unfoldable pub add_inputs : (nid : String) → Dict String → Dict (List String) → Dict (List String)
unfolding add_edge
add_inputs nid [] out = out
add_inputs nid ((port, ref) ∷ inputs) out = add_inputs nid inputs (add_edge (node_part ref) nid out)

-- `template_output_sources`
unfoldable pub output_sources : Dict String → List String
output_sources [] = []
output_sources ((name, ref) ∷ outputs) = add (node_part ref) (output_sources outputs)

-- `reversed(order)`
abbrev pub reversed : List String → List String
reversed [] = []
reversed (x ∷ xs) = reversed xs ++ x ∷ []

module _ {V : Type 0} where
  -- `{n.id: set() for n in template.nodes}`
  unfoldable pub no_edges : List (NodeSpec V) → Dict (List String) → Dict (List String)
  unfolding set
  no_edges [] out = out
  no_edges (n ∷ nodes) out = no_edges nodes (set n.id [] out)

  unfoldable pub add_nodes : List (NodeSpec V) → Dict (List String) → Dict (List String)
  unfolding add_inputs
  add_nodes [] out = out
  add_nodes (n ∷ nodes) out = add_nodes nodes (add_inputs n.id n.inputs out)

  -- `_successors`
  unfoldable pub successors : Template V → Dict (List String)
  unfolding no_edges add_nodes
  successors t = add_nodes t.nodes (no_edges t.nodes [])

-- ===== src/Runtime/Edges.antt =====
-- `_successors` and the dependencies of `_topo_order` (server/runtime.py), edge by edge.
use Prim.Native.String.{String}
use astrolab.Prelude.{
  Bool, true, false, ◌≡◌, refl, List, [], ◌∷◌, map, arith, str_eq, eq_iff, ◌&&◌, ◌||◌, any, is_some,
  Option-cases, inl, inr, ◌∙◌,
}
use astrolab.Dict.{Dict, get, set, get_or, get-set}
use astrolab.Models.{NodeSpec, Template}
use astrolab.Cache.{member}
use astrolab.Runtime.Graph.{node_part, add, no_edges, add_edge, add_inputs, add_nodes, successors}
use astrolab.Runtime.Topo.{add_dep, add_deps, node_deps, ids}
use astrolab.Runtime.Sorted.{member-add}

abbrev has_key : String → Dict (List String) → Bool
has_key q d = is_some (get q d)

abbrev at : String → Dict (List String) → List String
at q d = get_or q [] d

-- An input edge comes from the node.
abbrev pub reads : String → Dict String → Bool
reads src inputs = any (λ i. str_eq (node_part i.1) src) inputs

key-add_edge :
    (src nid q : String) (out : Dict (List String))
    → has_key q (add_edge src nid out) ≡ has_key q out
unfolding add_edge
key-add_edge src nid q out = elim (Option-cases (get src out)) [
  | inl e ↦ ground (arith, e)
  | inr (s, e) ↦ ground (arith, e, get-set src q (add nid s) out, eq_iff src q)
]

at-add_edge :
    (src nid q x : String) (out : Dict (List String))
    → member x (at q (add_edge src nid out))
      ≡ (member x (at q out) || (str_eq src q && has_key q out && str_eq nid x))
unfolding add_edge get_or
at-add_edge src nid q x out = elim (Option-cases (get src out)) [
  | inl e ↦ ground (arith, e, eq_iff src q)
  | inr (s, e) ↦ ground (arith, e, get-set src q (add nid s) out, eq_iff src q, member-add x nid s)
]

key-add_inputs :
    (nid q : String) (inputs : Dict String) (out : Dict (List String))
    → has_key q (add_inputs nid inputs out) ≡ has_key q out
unfolding add_inputs
key-add_inputs nid q [] out = refl
key-add_inputs nid q ((port, ref) ∷ inputs) out = ground (
  arith,
  key-add_inputs nid q inputs (add_edge (node_part ref) nid out),
  key-add_edge (node_part ref) nid q out,
)

at-add_inputs :
    (nid q x : String) (inputs : Dict String) (out : Dict (List String))
    → member x (at q (add_inputs nid inputs out))
      ≡ (member x (at q out) || (reads q inputs && has_key q out && str_eq nid x))
unfolding add_inputs
at-add_inputs nid q x [] out = ground arith
at-add_inputs nid q x ((port, ref) ∷ inputs) out = ground (
  arith,
  at-add_inputs nid q x inputs (add_edge (node_part ref) nid out),
  at-add_edge (node_part ref) nid q x out,
  key-add_edge (node_part ref) nid q out,
)

key-add_dep :
    (nid src q : String) (deps : Dict (List String))
    → has_key nid deps ≡ true
    → has_key q (add_dep nid src deps) ≡ has_key q deps
unfolding add_dep
key-add_dep nid src q deps known = elim (Option-cases (get src deps)) [
  | inl e ↦ ground (arith, e)
  | inr (s, e) ↦
      ground (arith, e, get-set nid q (add src (get_or nid [] deps)) deps, eq_iff nid q, known)
]

at-add_dep :
    (nid src q x : String) (deps : Dict (List String))
    → member x (at q (add_dep nid src deps))
      ≡ (member x (at q deps) || (str_eq nid q && str_eq src x && has_key x deps))
unfolding add_dep get_or
at-add_dep nid src q x deps = elim (Option-cases (get src deps)) [
  | inl e ↦ ground (arith, e, eq_iff src x)
  | inr (s, e) ↦ ground (
    arith,
    e,
    get-set nid q (add src (get_or nid [] deps)) deps,
    eq_iff nid q,
    eq_iff src x,
    member-add x src (get_or nid [] deps),
  )
]

key-add_deps :
    (nid q : String) (inputs : Dict String) (deps : Dict (List String))
    → has_key nid deps ≡ true
    → has_key q (add_deps nid inputs deps) ≡ has_key q deps
unfolding add_deps
key-add_deps nid q [] deps known = refl
key-add_deps nid q ((port, ref) ∷ inputs) deps known = ground (
  arith,
  key-add_deps nid q inputs (add_dep nid (node_part ref) deps),
  key-add_dep nid (node_part ref) q deps,
  key-add_dep nid (node_part ref) nid deps,
  known,
)

at-add_deps :
    (nid q x : String) (inputs : Dict String) (deps : Dict (List String))
    → has_key nid deps ≡ true
    → member x (at q (add_deps nid inputs deps))
      ≡ (member x (at q deps) || (str_eq nid q && reads x inputs && has_key x deps))
unfolding add_deps
at-add_deps nid q x [] deps known = ground arith
at-add_deps nid q x ((port, ref) ∷ inputs) deps known = ground (
  arith,
  at-add_deps nid q x inputs (add_dep nid (node_part ref) deps),
  at-add_dep nid (node_part ref) q x deps,
  key-add_dep nid (node_part ref) x deps,
  key-add_dep nid (node_part ref) nid deps,
  known,
)

module _ {V : Type 0} where
  -- A node with the id `q` has an input from `src`.
  abbrev pub feeds : (src q : String) → List (NodeSpec V) → Bool
  feeds src q nodes = any (λ n. str_eq n.id q && reads src n.inputs) nodes

  at-add_nodes :
      (q x : String) (nodes : List (NodeSpec V)) (out : Dict (List String))
      → member x (at q (add_nodes nodes out))
        ≡ (member x (at q out) || (has_key q out && feeds q x nodes))
  unfolding add_nodes
  at-add_nodes q x [] out = ground arith
  at-add_nodes q x (n ∷ nodes) out = ground (
    arith,
    at-add_nodes q x nodes (add_inputs n.id n.inputs out),
    at-add_inputs n.id q x n.inputs out,
    key-add_inputs n.id q n.inputs out,
  )

  at-node_deps :
      (q x : String) (nodes : List (NodeSpec V)) (deps : Dict (List String))
      → ((k : String) → member k (map (λ n. n.id) nodes) ≡ true → has_key k deps ≡ true)
      → member x (at q (node_deps nodes deps))
        ≡ (member x (at q deps) || (has_key x deps && feeds x q nodes))
  unfolding node_deps
  at-node_deps q x [] deps known = ground arith
  at-node_deps q x (n ∷ nodes) deps known =
      let here : has_key n.id deps ≡ true = known n.id (ground (arith, eq_iff n.id n.id)) in
      let rest =
        at-node_deps q x nodes (add_deps n.id n.inputs deps)
          (λ k h. key-add_deps n.id k n.inputs deps here ∙ known k (ground (arith, h))) in
      ground (
        arith,
        rest,
        at-add_deps n.id q x n.inputs deps here,
        key-add_deps n.id x n.inputs deps here,
      )

  key-no_edges :
      (q : String) (nodes : List (NodeSpec V)) (out : Dict (List String))
      → has_key q (no_edges nodes out) ≡ (member q (map (λ n. n.id) nodes) || has_key q out)
  unfolding no_edges
  key-no_edges q [] out = refl
  key-no_edges q (n ∷ nodes) out =
      ground (arith, key-no_edges q nodes (set n.id [] out), get-set n.id q [] out)

  at-no_edges :
      (q x : String) (nodes : List (NodeSpec V)) (out : Dict (List String))
      → member x (at q out) ≡ false
      → member x (at q (no_edges nodes out)) ≡ false
  unfolding no_edges get_or
  at-no_edges q x [] out h = h
  at-no_edges q x (n ∷ nodes) out h =
      ground (arith, at-no_edges q x nodes (set n.id [] out), get-set n.id q [] out)

  abbrev pub deps_of : Template V → String → List String
  deps_of t n = get_or n [] (node_deps t.nodes (no_edges t.nodes []))

  abbrev pub succs_of : Template V → String → List String
  succs_of t n = get_or n [] (successors t)

  pub member-deps_of :
      (t : Template V) (q x : String)
      → member x (deps_of t q) ≡ (member x (ids t) && feeds x q t.nodes)
  unfolding get get_or
  member-deps_of t q x = ground (
    arith,
    at-node_deps q x t.nodes (no_edges t.nodes [])
        (λ k h. ground (arith, key-no_edges k t.nodes [], h)),
    at-no_edges q x t.nodes [] refl,
    key-no_edges x t.nodes [],
  )

  pub member-succs_of :
      (t : Template V) (q x : String)
      → member x (succs_of t q) ≡ (member q (ids t) && feeds q x t.nodes)
  unfolding get get_or successors
  member-succs_of t q x = ground (
    arith,
    at-add_nodes q x t.nodes (no_edges t.nodes []),
    at-no_edges q x t.nodes [] refl,
    key-no_edges q t.nodes [],
  )

-- ===== src/Runtime/Order.antt =====
-- The order and the plan of a whole template, in server/runtime.py.
use Prim.Native.String.{String}
use astrolab.Prelude.{
  suc, Bool, true, false, ◌≡◌, refl, List, [], ◌∷◌, map, arith, str_eq, eq_iff, ◌||◌, All, length,
  ◌↔◌, ◌∙◌, sym, subst, Bool-cases, inl, inr,
}
use astrolab.Models.{NodeSpec, Template}
use astrolab.Cache.{member}
use astrolab.Runtime.Graph.{reversed, output_sources}
use astrolab.Runtime.Plan.{IsReversed, Needed, must_run, plan_nodes-feeds, member-plan_nodes_iff}
use astrolab.Runtime.Topo.{Search, Visit, done, cycle, no_fuel, visit_each, visit, ids, topo_order}
use astrolab.Runtime.Sorted.{IsTopo, AfterEach, visit_each-After, visit-After}
use astrolab.Runtime.Fuel.{Reaches, Ends, Ends-visit_each, Ends-visit, free-length}
use astrolab.Runtime.Edges.{deps_of, succs_of, feeds, member-deps_of, member-succs_of}

All-member :
    (P : String → Type 0) (xs : List String) → ((x : String) → member x xs ≡ true → P x) → All P xs
All-member P [] h = tt
All-member P (x ∷ xs) h =
    (h x (ground (arith, eq_iff x x)), All-member P xs (λ y k. h y (ground (arith, k))))

member_of_All :
    (d : String) (xs order : List String)
    → All (λ x. member x order ≡ true) xs
    → member d xs ≡ true
    → member d order ≡ true
member_of_All d [] order all h = cc
member_of_All d (x ∷ xs) order all h = elim (Bool-cases (str_eq x d)) [
  | inl same ↦ subst (λ y. member y order ≡ true) ((eq_iff x d).0 same) all.0
  | inr other ↦ member_of_All d xs order all.1 (ground (arith, other, h))
]

module _ (deps : String → List String) where
  member-IsTopo :
      (s d : String) (order : List String)
      → IsTopo deps order
      → member s order ≡ true
      → member d (deps s) ≡ true
      → member d order ≡ true
  member-IsTopo s d [] topo there edge = cc
  member-IsTopo s d (n ∷ order) topo there edge = elim (Bool-cases (str_eq n s)) [
    | inl same ↦
        let edge' = subst (λ x. member d (deps x) ≡ true) (sym ((eq_iff n s).0 same)) edge in
        ground (arith, member_of_All d (deps n) order topo.1 edge')
    | inr other ↦ ground (arith, member-IsTopo s d order topo.2 (ground (arith, other, there)) edge)
  ]

  not_behind :
      (n s : String) (order : List String)
      → IsTopo deps (n ∷ order)
      → member n (deps s) ≡ true
      → member s (n ∷ order) ≡ false
  not_behind n s order topo edge = elim (Bool-cases (member s (n ∷ order))) [
    | inr absent ↦ absent
    | inl there ↦ ground (arith, member-IsTopo s n (n ∷ order) topo there edge, again there)
  ]
    where
      again : member s (n ∷ order) ≡ true → member n order ≡ true
      again there = elim (Bool-cases (str_eq n s)) [
        | inl same ↦
            member_of_All n (deps n) order topo.1
              (subst (λ x. member n (deps x) ≡ true) (sym ((eq_iff n s).0 same)) edge)
        | inr other ↦ member-IsTopo s n order topo.2 (ground (arith, other, there)) edge
      ]

  IsTopo-IsReversed :
      (succs : String → List String) (order : List String)
      → ((n s : String) → member s (succs n) ≡ true → member n (deps s) ≡ true)
      → IsTopo deps order
      → IsReversed succs order
  IsTopo-IsReversed succs [] back topo = tt
  IsTopo-IsReversed succs (n ∷ order) back topo = (
    topo.0,
    All-member (λ s. member s (n ∷ order) ≡ false) (succs n)
        (λ s edge. not_behind n s order topo (back n s edge)),
    IsTopo-IsReversed succs order back topo.2,
  )

module _ {V : Type 0} where
  succs-deps :
      (t : Template V) (n s : String)
      → member s (succs_of t n) ≡ true
      → member n (deps_of t s) ≡ true
  succs-deps t n s h = member-deps_of t s n ∙ sym (member-succs_of t n s) ∙ h

  dep-known :
      (t : Template V) (n d : String) → member d (deps_of t n) ≡ true → member d (ids t) ≡ true
  dep-known t n d h = ground (arith, member-deps_of t n d, h)

  feeds-ids :
      (src q : String) (nodes : List (NodeSpec V))
      → feeds src q nodes ≡ true
      → member q (map (λ n. n.id) nodes) ≡ true
  feeds-ids src q [] h = cc
  feeds-ids src q (n ∷ nodes) h = ground (arith, feeds-ids src q nodes)

  -- What `_topo_order` gives: an order with every node once and behind all that it depends on, or a
  -- node on a cycle.
  abbrev pub IsSorted : Template V → Visit → Type 0
  IsSorted t (done s) =
      IsTopo (deps_of t) (reversed s.order)
      × ((n : String) → member n (ids t) ≡ true → member n (reversed s.order) ≡ true)
  IsSorted t (cycle n) = Reaches (deps_of t) n n
  IsSorted t no_fuel = ⊥

  sorted :
      (t : Template V) (r : Visit)
      → Ends (deps_of t) r
      → AfterEach (deps_of t) [] (ids t) (record { visited = []; order = [] }) r
      → IsSorted t r
  sorted t (done s) ends (after, all) =
      (after.good.topo, λ n h. sym (after.good.same n) ∙ member_of_All n (ids t) s.visited all h)
  sorted t (cycle n) ends after = ends
  sorted t no_fuel ends after = absurd ends

  -- `_topo_order` always ends with the fuel that it is given: with an order that holds every node, no
  -- node twice and each behind the nodes that it depends on, or with the report of a node that
  -- depends on itself along a chain of inputs.
  pub topo_order-IsSorted : (t : Template V) → IsSorted t (topo_order t)
  unfolding topo_order
  topo_order-IsSorted t =
      let run = visit (deps_of t) (suc (length (ids t))) [] in
      let begin : Search = record { visited = []; order = [] } in
      sorted t (visit_each run (ids t) begin)
        (Ends-visit_each (deps_of t) run (ids t) (ids t) begin
          (λ d s known.
            Ends-visit (deps_of t) (ids t) (dep-known t) (suc (length (ids t))) [] d s
              (omega (arith, free-length (ids t))) known (λ v h. cc))
          (λ d h. h))
        (visit_each-After (deps_of t) [] run (visit-After (deps_of t) (suc (length (ids t))) [])
          (ids t) begin (record { same = λ q. refl; topo = tt; apart = λ q h. refl }))

  ordered :
      (t : Template V) (s : Search)
      → topo_order t ≡ done s
      → IsReversed (succs_of t) (reversed s.order)
        × ((n : String) → member n (ids t) ≡ true → member n (reversed s.order) ≡ true)
  ordered t s e =
      let (topo, all) = subst (IsSorted t) e (topo_order-IsSorted t) in
      (IsTopo-IsReversed (deps_of t) (succs_of t) (reversed s.order) (succs-deps t) topo, all)

  succs-known :
      (t : Template V) (n s : String) → member s (succs_of t n) ≡ true → member s (ids t) ≡ true
  succs-known t n s h = feeds-ids n s t.nodes (ground (arith, member-succs_of t n s, h))

  -- Where the template has an order: a node that a must-run node reads from is a cache hit or must
  -- run itself, so that no node runs on the placeholder of files that nobody wrote.
  pub must_run-feeds :
      (hit : String → Bool) (t : Template V) (s : Search) (src q : String)
      → topo_order t ≡ done s
      → member src (ids t) ≡ true
      → feeds src q t.nodes ≡ true
      → member q (must_run hit t s.order) ≡ true
      → hit src || member src (must_run hit t s.order) ≡ true
  unfolding must_run
  must_run-feeds hit t s src q e known edge due =
      let (order, all) = ordered t s e in
      plan_nodes-feeds hit (output_sources t.outputs) (succs_of t) (reversed s.order) order src q
        (all src known) (ground (arith, member-succs_of t src q, known, edge)) due

  -- Where the template has an order: a node is planned to run if and only if it is no cache hit and
  -- an output of the template comes from it, or from a node that reads from it along a chain of nodes
  -- none of which is a hit.
  pub must_run-Needed :
      (hit : String → Bool) (t : Template V) (s : Search) (q : String)
      → topo_order t ≡ done s
      → member q (ids t) ≡ true
      → (member q (must_run hit t s.order) ≡ true)
        ↔ Needed hit (output_sources t.outputs) (succs_of t) q
  unfolding must_run
  must_run-Needed hit t s q e known =
      let (order, all) = ordered t s e in
      member-plan_nodes_iff hit (output_sources t.outputs) (succs_of t) (reversed s.order) order
        (λ n x h. all x (succs-known t n x h)) q (all q known)

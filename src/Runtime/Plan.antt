-- ===== src/Runtime/Plan.antt =====
-- The second pass of `run_job` in server/runtime.py: the set of nodes that must run. The first pass
-- gives `hit`, whether a node's entry is committed (and `force` is off).
use astrolab.Prelude.{
  String, Bool, true, false, ◌≡◌, refl, List, [], ◌∷◌, arith, str_eq, eq_iff, if◌then◌else◌, ◌&&◌,
  ◌||◌, not, any, All, Bool-cases, inl, inr, ◌∙◌, subst, sym, if_both_eq, ◌↔◌,
}
use astrolab.Dict.{get_or}
use astrolab.Models.{Template}
use astrolab.Cache.{member}
use astrolab.Runtime.Graph.{successors, output_sources, reversed}

-- In the reversed order no node stands twice, and the successors of a node stand before it.
abbrev pub IsReversed : (succs : String → List String) → List String → Type 0
IsReversed succs [] = Unit
IsReversed succs (n ∷ order) =
    (member n order ≡ false)
    × All (λ s. member s (n ∷ order) ≡ false) (succs n)
    × IsReversed succs order

module _ (hit : String → Bool) (outputs : List String) (succs : String → List String) where
  -- One node. It is not in the set yet.
  unfoldable pub plan_node : String → List String → List String
  plan_node n must =
      if hit n
      then must
      else if member n outputs
      then n ∷ must
      else if any (λ s. member s must) (succs n)
      then n ∷ must
      else must

  -- `for nid in reversed(order)`
  unfoldable pub plan_nodes : List String → List String → List String
  unfolding plan_node
  plan_nodes [] must = must
  plan_nodes (n ∷ order) must = plan_nodes order (plan_node n must)

  member-plan_nodes :
      (q : String) (order must : List String)
      → member q order ≡ false
      → member q (plan_nodes order must) ≡ member q must
  unfolding plan_nodes
  member-plan_nodes q [] must h = refl
  member-plan_nodes q (n ∷ order) must h =
      ground (arith, member-plan_nodes q order (plan_node n must))

  any-plan_nodes :
      (ss order must : List String)
      → All (λ s. member s order ≡ false) ss
      → any (λ s. member s (plan_nodes order must)) ss ≡ any (λ s. member s must) ss
  any-plan_nodes [] order must h = refl
  any-plan_nodes (s ∷ ss) order must h =
      ground (arith, any-plan_nodes ss order must h.1, member-plan_nodes s order must h.0)

  member-plan_node :
      (q n : String) (must : List String)
      → str_eq n q ≡ false
      → member q (plan_node n must) ≡ member q must
  unfolding plan_node
  member-plan_node q n must h = ground (arith, h)

  member_distinct :
      (q n : String) (order : List String)
      → member n order ≡ false
      → member q order ≡ true
      → str_eq n q ≡ false
  member_distinct q n [] h k = cc
  member_distinct q n (x ∷ order) h k =
      ground (arith, member_distinct q n order, eq_iff n q, eq_iff x q, eq_iff x n)

  -- The reason for a node of the order to be in the final set.
  abbrev pub is_due : List String → String → Bool
  is_due must q = not (hit q) && (member q outputs || any (λ s. member s must) (succs q))

  plan_nodes-first :
      (n : String) (order must : List String)
      → IsReversed succs (n ∷ order)
      → member n must ≡ false
      → member n (plan_nodes order (plan_node n must))
        ≡ is_due (plan_nodes order (plan_node n must)) n
  unfolding plan_nodes plan_node
  plan_nodes-first n order must r new = ground (
    arith,
    member-plan_nodes n order (plan_node n must) r.0,
    any-plan_nodes (succs n) (n ∷ order) must r.1,
    eq_iff n n,
    new,
  )

  plan_nodes-is_due :
      (q : String) (order must : List String)
      → IsReversed succs order
      → member q order ≡ true
      → member q must ≡ false
      → member q (plan_nodes order must) ≡ is_due (plan_nodes order must) q
  unfolding plan_nodes
  plan_nodes-is_due q [] must r there new = cc
  plan_nodes-is_due q (n ∷ order) must r there new = elim (Bool-cases (str_eq n q)) [
    | inr other ↦
        plan_nodes-is_due q order (plan_node n must) r.2 (ground (arith, there, other))
          (member-plan_node q n must other ∙ new)
    | inl same ↦
        subst
          (λ q.
            member q must ≡ false
            → member q (plan_nodes order (plan_node n must))
              ≡ is_due (plan_nodes order (plan_node n must)) q)
          ((eq_iff n q).0 same) (plan_nodes-first n order must r) new
  ]

  -- Why a node must run: it is no cache hit, and an output of the template comes from it or a
  -- successor must run.
  pub data Needed : String → Type 0 where
    for_output : (n : String) → hit n ≡ false → member n outputs ≡ true → Needed n
    for_node : (n s : String) → hit n ≡ false → member s (succs n) ≡ true → Needed s → Needed n

  -- A member of both lists.
  any-common :
      (ss must : List String)
      → any (λ s. member s must) ss ≡ true
      → (s : String) × (member s ss ≡ true) × (member s must ≡ true)
  any-common [] must h = cc
  any-common (x ∷ ss) must h = elim (Bool-cases (member x must)) [
    | inl c ↦ (x, ground (arith, eq_iff x x), c)
    | inr c ↦
        let (s, there, at) = any-common ss must (ground (arith, c, h)) in
        (s, ground (arith, there), at)
  ]

  any-member :
      (s : String) (ss must : List String)
      → member s ss ≡ true
      → member s must ≡ true
      → any (λ x. member x must) ss ≡ true
  any-member s [] must h k = cc
  any-member s (x ∷ ss) must h k = elim (Bool-cases (str_eq x s)) [
    | inl same ↦ rw (subst (λ y. member y must ≡ true) (sym ((eq_iff x s).0 same)) k) refl
    | inr other ↦ ground (arith, any-member s ss must, other, h, k)
  ]

  cons-Needed :
      (n : String) (must : List String)
      → ((q : String) → member q must ≡ true → Needed q)
      → (q : String) → Needed n
      → member q (n ∷ must) ≡ true
      → Needed q
  cons-Needed n must all q needed h = elim (Bool-cases (str_eq n q)) [
    | inl same ↦ subst Needed ((eq_iff n q).0 same) needed
    | inr other ↦ all q (ground (arith, other, h))
  ]

  plan_node-Needed :
      (n : String) (must : List String)
      → ((q : String) → member q must ≡ true → Needed q)
      → (q : String) → member q (plan_node n must) ≡ true
      → Needed q
  plan_node-Needed n must all q =
      let P = λ (ms : List String). member q ms ≡ true → Needed q in
      unfold plan_node in
      if_both_eq P (hit n) (λ _ h. all q h)
        (λ miss.
          if_both_eq P (member n outputs) (λ o. cons-Needed n must all q (for_output n miss o))
            (λ _.
              if_both_eq P (any (λ s. member s must) (succs n))
                (λ a.
                  let (s, there, at) = any-common (succs n) must a in
                  cons-Needed n must all q (for_node n s miss there (all s at)))
                (λ _ h. all q h)))

  plan_nodes-Needed :
      (order must : List String)
      → ((q : String) → member q must ≡ true → Needed q)
      → (q : String) → member q (plan_nodes order must) ≡ true
      → Needed q
  unfolding plan_nodes
  plan_nodes-Needed [] must all q h = all q h
  plan_nodes-Needed (n ∷ order) must all q h =
      plan_nodes-Needed order (plan_node n must) (plan_node-Needed n must all) q h

  Needed-plan_nodes :
      (order : List String)
      → IsReversed succs order
      → ((n s : String) → member s (succs n) ≡ true → member s order ≡ true)
      → (q : String) → member q order ≡ true
      → Needed q
      → member q (plan_nodes order []) ≡ true
  Needed-plan_nodes order r closed q there (for_output q' miss o) =
      plan_nodes-is_due q order [] r there refl ∙ ground (arith, miss, o)
  Needed-plan_nodes order r closed q there (for_node q' s miss next needed) =
      let due = Needed-plan_nodes order r closed s (closed q s next) needed in
      plan_nodes-is_due q order [] r there refl
      ∙ ground (arith, miss, any-member s (succs q) (plan_nodes order []) next due)

  -- Along a reversed topological order that holds all successors: the pass puts a node into the set
  -- if and only if the node is no cache hit and a chain of successors that are none either leads from
  -- it to an output of the template.
  pub member-plan_nodes_iff :
      (order : List String)
      → IsReversed succs order
      → ((n s : String) → member s (succs n) ≡ true → member s order ≡ true)
      → (q : String) → member q order ≡ true
      → (member q (plan_nodes order []) ≡ true) ↔ Needed q
  member-plan_nodes_iff order r closed q there =
      (plan_nodes-Needed order [] (λ q h. cc) q, Needed-plan_nodes order r closed q there)

  -- Along a reversed topological order: a node that feeds one that must run is a cache hit or must
  -- run itself, so that no node runs on files that nobody wrote.
  pub plan_nodes-feeds :
      (order : List String)
      → IsReversed succs order
      → (src q : String) → member src order ≡ true
      → member q (succs src) ≡ true
      → member q (plan_nodes order []) ≡ true
      → hit src || member src (plan_nodes order []) ≡ true
  plan_nodes-feeds order r src q there edge due = ground (
    arith,
    plan_nodes-is_due src order [] r there refl,
    any-member q (succs src) (plan_nodes order []) edge due,
  )

-- The pass over the order of the nodes.
unfoldable pub must_run :
    {V : Type 0} → (hit : String → Bool) → Template V → (order : List String) → List String
unfolding plan_nodes successors output_sources get_or
must_run hit t order =
    plan_nodes hit (output_sources t.outputs) (λ n. get_or n [] (successors t)) (reversed order) []

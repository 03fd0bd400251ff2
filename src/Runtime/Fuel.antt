-- ===== src/Runtime/Fuel.antt =====
-- How the search of `_topo_order` (server/runtime.py) can end: each call goes on with one more node in
-- `visiting`, which is a chain of dependencies.
use astrolab.Prelude.{
  ℕ, zero, suc, ◌<◌, ◌≤◌, String, true, false, ◌≡◌, refl, List, [], ◌∷◌, arith, str_eq, eq_iff,
  if◌then◌else◌, if_both_eq, length, Bool-cases, inl, inr, subst,
}
use astrolab.Cache.{member}
use astrolab.Runtime.Graph.{add}
use astrolab.Runtime.Topo.{Search, Visit, done, cycle, no_fuel, visit_each, finish, visit}
use astrolab.Runtime.Sorted.{member-add}

-- The nodes that are not in `visiting`.
abbrev pub free : List String → List String → ℕ
free visiting [] = 0
free visiting (n ∷ nodes) =
    let rest = free visiting nodes in if member n visiting then rest else suc rest

pub free-length : (nodes : List String) → free [] nodes ≡ length nodes
free-length [] = refl
free-length (n ∷ nodes) = ground (arith, free-length nodes)

free-add_most :
    (x : String) (visiting nodes : List String) → free (add x visiting) nodes ≤ free visiting nodes
free-add_most x visiting [] = omega arith
free-add_most x visiting (n ∷ nodes) =
    ground (arith, free-add_most x visiting nodes, member-add n x visiting)

free-add :
    (x : String) (visiting nodes : List String)
    → member x visiting ≡ false
    → member x nodes ≡ true
    → free (add x visiting) nodes < free visiting nodes
free-add x visiting [] new there = cc
free-add x visiting (n ∷ nodes) new there = ground (
  arith,
  free-add x visiting nodes,
  free-add_most x visiting nodes,
  member-add n x visiting,
  eq_iff n x,
  eq_iff x n,
  new,
)

module _ (deps : String → List String) where
  -- A chain of one or more dependencies.
  pub data Reaches : String → String → Type 0 where
    one : (a b : String) → member b (deps a) ≡ true → Reaches a b
    more : (a b c : String) → Reaches a b → member c (deps b) ≡ true → Reaches a c

  -- The search gives no fuel up, and a cycle that it reports is one.
  abbrev pub Ends : Visit → Type 0
  Ends (done s) = Unit
  Ends (cycle n) = Reaches n n
  Ends no_fuel = ⊥

  Ends-finish : (nid : String) (r : Visit) → Ends r → Ends (finish nid r)
  Ends-finish nid (done s) h = tt
  Ends-finish nid (cycle n) h = h
  Ends-finish nid no_fuel h = absurd h

  Ends-first :
      (v : String → Search → Visit) (ds : List String) (r : Visit)
      → Ends r
      → ((s : Search) → Ends (visit_each v ds s))
      → Ends (elim r [ done s ↦ visit_each v ds s | cycle n ↦ cycle n | no_fuel ↦ no_fuel ])
  Ends-first v ds (done s) h rest = rest s
  Ends-first v ds (cycle n) h rest = h
  Ends-first v ds no_fuel h rest = absurd h

  pub Ends-visit_each :
      (v : String → Search → Visit) (all ds : List String) (s : Search)
      → ((d : String) (s : Search) → member d all ≡ true → Ends (v d s))
      → ((d : String) → member d ds ≡ true → member d all ≡ true)
      → Ends (visit_each v ds s)
  unfolding visit_each
  Ends-visit_each v all [] s ends within = tt
  Ends-visit_each v all (d ∷ ds) s ends within =
      Ends-first v ds (v d s) (ends d s (within d (ground (arith, eq_iff d d))))
        (λ t. Ends-visit_each v all ds t ends (λ e h. within e (ground (arith, h))))

  along :
      (visiting : List String) (nid d : String)
      → ((v : String) → member v visiting ≡ true → Reaches v nid)
      → member d (deps nid) ≡ true
      → (v : String) → member v (add nid visiting) ≡ true
      → Reaches v d
  along visiting nid d chain edge v h = elim (Bool-cases (str_eq nid v)) [
    | inl same ↦ subst (λ x. Reaches x d) ((eq_iff nid v).0 same) (one nid d edge)
    | inr other ↦ more v nid d (chain v (ground (arith, member-add v nid visiting, other, h))) edge
  ]

  pub Ends-visit :
      (nodes : List String)
      → ((n d : String) → member d (deps n) ≡ true → member d nodes ≡ true)
      → (fuel : ℕ) (visiting : List String) (nid : String) (s : Search) → free visiting nodes < fuel
      → member nid nodes ≡ true
      → ((v : String) → member v visiting ≡ true → Reaches v nid)
      → Ends (visit deps fuel visiting nid s)
  unfolding visit
  Ends-visit nodes closed zero visiting nid s enough known chain = absurd (omega (arith, enough))
  Ends-visit nodes closed (suc fuel) visiting nid s enough known chain =
      if_both_eq Ends (member nid s.visited) (λ _. tt)
        (λ _.
          if_both_eq Ends (member nid visiting) (λ on. chain nid on)
            (λ new. Ends-finish nid _ (
              Ends-visit_each (visit deps fuel (add nid visiting)) (deps nid) (deps nid) s
                (λ d t edge.
                  Ends-visit nodes closed fuel (add nid visiting) d t
                    (omega (arith, enough, free-add nid visiting nodes new known))
                    (closed nid d edge) (along visiting nid d chain edge))
                (λ d h. h))))

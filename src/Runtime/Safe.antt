-- ===== src/Runtime/Safe.antt =====
-- The check of `run_job` in server/runtime.py on the node that an output of the template comes from.
use astrolab.Prelude.{
  String, Bool, true, false, Option, some, List, [], ◌∷◌, ◌++◌, ◌≡◌, ◌≢◌, refl, ◌∙◌, subst, str_eq,
  eq_iff, arith, Bool-cases, Option-cases, inl, inr, ◌⊎◌, map,
}
use astrolab.Dict.{Dict, get, set, get-set}
use astrolab.Models.{Overrides, Ref, one, many, NodeSpec, Template, Job}
use astrolab.Migrations.{node_by_id}
use astrolab.Cache.{Cache, member}
use astrolab.Runtime.Graph.{node_part, output_sources, add}
use astrolab.Runtime.Topo.{Search, done, topo_order, ids}
use astrolab.Runtime.Plan.{must_run, Needed}
use astrolab.Runtime.Order.{must_run-Needed}
use astrolab.Runtime.Inputs.{Failure, Ran, ok, failed, skipped_output, Refs}
use astrolab.Runtime.Nodes.{Library, NodePlan, spec_of, plan_one, plan_all, add_placeholders}
use astrolab.Runtime.Job.{hit_in, is_skipped, public_ref, public_outputs}

module _ {V : Type 0} where
  member-node_by_id :
      (nid : String) (nodes : List (NodeSpec V)) (s : NodeSpec V)
      → node_by_id nid nodes ≡ some s
      → member nid (map (λ n. n.id) nodes) ≡ true
  unfolding node_by_id
  member-node_by_id nid [] s e = absurd (ground (arith, e))
  member-node_by_id nid (n ∷ nodes) s e = elim (Option-cases (node_by_id nid nodes)) [
    | inl f ↦ ground (arith, e, f, eq_iff n.id nid)
    | inr (t, f) ↦ ground (arith, member-node_by_id nid nodes t f)
  ]

member-add : (x y : String) (xs : List String) → member x xs ≡ true → member x (add y xs) ≡ true
member-add x y xs h = elim (Bool-cases (member y xs)) [
  | inl e ↦ ground (arith, e, h)
  | inr e ↦ ground (arith, e, member-end x y xs h)
]
  where
    member-end :
        (x y : String) (xs : List String) → member x xs ≡ true → member x (xs ++ y ∷ []) ≡ true
    member-end x y [] h = absurd (ground (arith, h))
    member-end x y (z ∷ xs) h = ground (arith, h, member-end x y xs)

member-add_self : (y : String) (xs : List String) → member y (add y xs) ≡ true
member-add_self y xs = elim (Bool-cases (member y xs)) [
  | inl e ↦ ground (arith, e)
  | inr e ↦ ground (arith, e, at_end xs)
]
  where
    at_end : (xs : List String) → member y (xs ++ y ∷ []) ≡ true
    at_end [] = ground (arith, eq_iff y y)
    at_end (z ∷ xs) = ground (arith, at_end xs)

Ran-cases : {A : Type 0} (r : Ran A) → ((a : A) × (r ≡ ok a)) ⊎ ((e : Failure) × (r ≡ failed e))
Ran-cases (ok a) = inl (a, refl)
Ran-cases (failed e) = inr (e, refl)

module _ {V P : Type 0} where
  public_ref-safe :
      (plan : Dict (NodePlan V P)) (must : List String) (refs : Refs) (name internal n : String)
      → is_skipped plan must (node_part internal) ≡ false
      → public_ref plan must refs name internal ≢ failed (skipped_output n)
  unfolding public_ref
  public_ref-safe plan must refs name internal n safe e = elim (Option-cases (get internal refs)) [
    | inl f ↦ ground (arith, e, f)
    | inr (one r, f) ↦ ground (arith, e, f, safe)
    | inr (many rs, f) ↦ ground (arith, e, f, safe)
  ]

module _ {V P : Type 0} (lib : Library V P) (t : Template V) (job : Job V)
    (defaults : Option (Overrides V)) (force : Bool) where
  -- Every planned node is one of the template.
  abbrev IsPlanned : Dict (NodePlan V P) → Type 0
  IsPlanned plan = (q : String) (p : NodePlan V P) → get q plan ≡ some p → member q (ids t) ≡ true

  plan_one-member :
      (cache : Cache V) (nid : String) (refs : Refs) (p : NodePlan V P)
      → plan_one lib t job defaults force cache nid refs ≡ ok p
      → member nid (ids t) ≡ true
  unfolding plan_one spec_of
  plan_one-member cache nid refs p e = elim (Option-cases (node_by_id nid t.nodes)) [
    | inl f ↦ absurd (ground (arith, e, f))
    | inr (s, f) ↦ member-node_by_id nid t.nodes s f
  ]

  plan_all-IsPlanned :
      (cache : Cache V) (order : List String) (refs : Refs) (plan : Dict (NodePlan V P))
      (out : Refs × Dict (NodePlan V P))
      → IsPlanned plan
      → plan_all lib t job defaults force cache order refs plan ≡ ok out
      → IsPlanned out.1
  unfolding plan_all
  plan_all-IsPlanned cache [] refs plan out h e =
      let here : Refs × Dict (NodePlan V P) = (refs, plan) in
      let same : here ≡ out = ground (arith, e) in
      subst (λ (o : Refs × Dict (NodePlan V P)). IsPlanned o.1) same h
  plan_all-IsPlanned cache (nid ∷ order) refs plan out h e =
      elim (Ran-cases (plan_one lib t job defaults force cache nid refs)) [
        | inr (x, f) ↦ absurd (ground (arith, e, f))
        | inl (p, f) ↦
            plan_all-IsPlanned cache order (add_placeholders lib nid p.h p.cls.outputs refs)
              (set nid p plan) out
              (λ q r g. elim (Bool-cases (str_eq nid q)) [
                | inl s ↦
                    subst (λ x. member x (ids t) ≡ true) ((eq_iff nid q).0 s)
                      (plan_one-member cache nid refs p f)
                | inr s ↦ h q r (ground (arith, g, s, get-set nid q p plan))
              ])
              (ground (arith, e, f))
      ]

  -- The failure of the check is not that of the code around it.
  public_outputs-safe :
      (plan : Dict (NodePlan V P)) (must : List String) (refs : Refs) (outputs : Dict String)
      (public : Dict Ref) (n : String)
      → ((src : String)
          → member src (output_sources outputs) ≡ true
          → is_skipped plan must src ≡ false)
      → public_outputs plan must refs outputs public ≢ failed (skipped_output n)
  unfolding public_outputs output_sources
  public_outputs-safe plan must refs [] public n safe e = ground (arith, e)
  public_outputs-safe plan must refs ((name, internal) ∷ outputs) public n safe e =
      let src = node_part internal in
      let rest = λ (r : Ref).
        public_outputs-safe plan must refs outputs (set name r public) n
          (λ q m. safe q (member-add q src (output_sources outputs) m)) in
      let here = safe src (member-add_self src (output_sources outputs)) in
      elim (Ran-cases (public_ref plan must refs name internal)) [
        | inl (r, f) ↦ rest r (ground (arith, e, f))
        | inr (x, f) ↦
            public_ref-safe plan must refs name internal n here (f ∙ ground (arith, e, f))
      ]

  -- Whatever the third pass leaves, no output of the template comes from a node that was planned and
  -- then skipped, so that the check for it never fires: where the template has an order and every
  -- node could be planned, each source of an output is a cache hit or must run.
  pub public_outputs-not_skipped :
      (cache : Cache V) (s : Search) (planned : Refs × Dict (NodePlan V P)) (refs : Refs)
      (n : String)
      → topo_order t ≡ done s
      → plan_all lib t job defaults force cache s.order job.inputs [] ≡ ok planned
      → public_outputs planned.1 (must_run (hit_in planned.1) t s.order) refs t.outputs []
        ≢ failed (skipped_output n)
  unfolding is_skipped
  public_outputs-not_skipped cache s planned refs n ordered e =
      let plan = planned.1 in
      let must = must_run (hit_in plan) t s.order in
      public_outputs-safe plan must refs t.outputs [] n (λ src m.
        elim (Option-cases (get src plan)) [
          | inl f ↦ ground (arith, f)
          | inr (p, f) ↦ elim (Bool-cases p.is_hit) [
            | inl hit ↦ ground (arith, f, hit)
            | inr miss ↦
                let known =
                  plan_all-IsPlanned cache s.order job.inputs [] planned
                    (λ q r g. absurd (unfold get in ground (arith, g))) e src p f in
                let due =
                  (must_run-Needed (hit_in plan) t s src ordered known).1
                    (Needed.for_output src (ground (arith, f, miss)) m) in
                ground (arith, f, due)
          ]
        ])

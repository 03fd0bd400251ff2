-- ===== src/Runtime/Stages.antt =====
-- The life of a node as the events of `run_job` in server/runtime.py tell it, and how the events of
-- steps add up.
use mathlib.Core.List.{append_assoc}
use astrolab.Prelude.{
  String, Bool, true, false, Option, none, some, List, [], ◌∷◌, ◌++◌, map, ◌≡◌, refl, ◌⊎◌, inl, inr,
  if◌then◌else◌, keep_if, arith,
}
use astrolab.Dict.{Dict, get}
use astrolab.Models.{Ref}
use astrolab.Cache.{Cache, member, committed, refused, Committed, CommitError}
use astrolab.Runtime.Inputs.{Failure}
use astrolab.Runtime.Nodes.{NodePlan}
use astrolab.Runtime.World.{
  RunEvent, node_started, node_cached, node_skipped, node_completed, node_failed, node_warning,
  node_progress, Live, Step, after,
}

-- The events that tell a node's life, without its warnings and its progress.
abbrev pub is_stage : {V : Type 0} → RunEvent V → Bool
is_stage (node_started n h) = true
is_stage (node_cached n h) = true
is_stage (node_skipped n h) = true
is_stage (node_completed n h) = true
is_stage (node_failed n) = true
is_stage (node_warning n v) = false
is_stage (node_progress n v) = false

abbrev pub stages : {V : Type 0} → List (RunEvent V) → List (RunEvent V)
stages es = keep_if is_stage es

-- The life of a node in a run that comes to its end.
abbrev pub life : {V P : Type 0} → List String → String → NodePlan V P → List (RunEvent V)
life must nid p =
    node_started nid p.h
    ∷ (if p.is_hit
        then node_cached nid p.h
        else if member nid must
        then node_completed nid p.h
        else node_skipped nid p.h)
    ∷ []

abbrev pub life_at :
    {V P : Type 0} → List String → String → Option (NodePlan V P) → List (RunEvent V)
life_at must nid none = []
life_at must nid (some p) = life must nid p

abbrev pub lives :
    {V P : Type 0} → List String → Dict (NodePlan V P) → List String → List (RunEvent V)
lives must plan [] = []
lives must plan (nid ∷ order) = life_at must nid (get nid plan) ++ lives must plan order

module _ {V : Type 0} where
  pub stages-append : (xs ys : List (RunEvent V)) → stages (xs ++ ys) ≡ stages xs ++ stages ys
  stages-append [] ys = refl
  stages-append (x ∷ xs) ys = ground (arith, stages-append xs ys)

  pub stages-warnings : (nid : String) (ws : List V) → stages (map (node_warning nid) ws) ≡ []
  stages-warnings nid [] = refl
  stages-warnings nid (v ∷ ws) = stages-warnings nid ws

  -- A step that does not fail sends these stages.
  abbrev pub Sends : Live V → Step V → List (RunEvent V) → Type 0
  Sends s r es = r.1 ≡ none → stages r.0.events ≡ stages s.events ++ es

  pub Sends-after :
      (s : Live V) (r : Step V) (f : Live V → Step V) (es fs : List (RunEvent V))
      → Sends s r es
      → Sends r.0 (f r.0) fs
      → Sends s (after r f) (es ++ fs)
  Sends-after s (s', some e) f es fs h k n = absurd (ground (arith, n))
  Sends-after s (s', none) f es fs h k n =
      ground (arith, h refl, k n, append_assoc (stages s.events) es fs)

  -- A failing step sends whatever it likes.
  Sends-failed : (s s' : Live V) (e : Failure) (es : List (RunEvent V)) → Sends s (s', some e) es
  Sends-failed s s' e es n = absurd (ground (arith, n))

  pub Committed-cases :
      (r : Committed × Cache V)
      → ((rs : Dict Ref) × (r ≡ (committed rs, r.1))) ⊎ ((e : CommitError) × (r ≡ (refused e, r.1)))
  Committed-cases (committed rs, c) = inl (rs, refl)
  Committed-cases (refused e, c) = inr (e, refl)

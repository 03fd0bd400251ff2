-- ===== src/Runtime/Events.antt =====
-- The events that `run_job` of server/runtime.py sends for each node.
use mathlib.Core.List.{append_assoc, append-nil}
use astrolab.Prelude.{
  true, ℕ, String, Bool, none, some, List, [], ◌∷◌, ◌++◌, map, ◌≡◌, refl, sym, ◌∙◌, subst, inl, inr,
  arith, Bool-cases, Option-cases,
}
use astrolab.Dict.{Dict, get}
use astrolab.Models.{Ref, Input}
use astrolab.Cache.{Cache, member, load_warnings, reserve, commit, committed, refused, Committed}
use astrolab.Storage.Headroom.{Headroom, enough, swept, insufficient}
use astrolab.Runtime.Inputs.{Ran, ok, failed, commit_refused, resolve_inputs}
use astrolab.Runtime.Nodes.{NodePlan}
use astrolab.Runtime.World.{
  RunEvent, node_started, node_cached, node_skipped, node_completed, node_warning, Note, progress,
  warn, Produced, outputs, cancelled_inside, raised, World, Live, Step, after,
}
use astrolab.Runtime.Execute.{
  emit, emit_all, run_hit, event_of, warnings_of, committed_refs, set_refs, commit_outputs,
  run_node, check_headroom, mark_entries, run_miss, run_one, run_all,
}
use astrolab.Runtime.Stages.{
  is_stage, stages, life, lives, stages-append, stages-warnings, Sends, Sends-after,
  Committed-cases,
}

module _ {V P : Type 0} (w : World V P) where
  stages-notes : (nid : String) (notes : List (Note V)) → stages (map (event_of w nid) notes) ≡ []
  stages-notes nid [] = refl
  stages-notes nid (progress v ∷ notes) = stages-notes nid notes
  stages-notes nid (warn v ∷ notes) = stages-notes nid notes

  run_hit-Sends :
      (nid : String) (p : NodePlan V P) (s : Live V)
      → Sends s (run_hit w nid p s) (node_cached nid p.h ∷ [])
  unfolding run_hit
  run_hit-Sends nid p s n = ground (
    arith,
    stages-append s.events
        (node_cached nid p.h ∷ map (node_warning nid) (load_warnings p.h s.cache)),
    stages-warnings nid (load_warnings p.h s.cache),
  )

  -- The last part of `commit_outputs`.
  abbrev finish_commit :
      (nid : String) → NodePlan V P → Dict Ref → Live V → Committed × Cache V → Step V
  finish_commit nid p refs s (committed rs, c) = (
    emit w (node_completed nid p.h) (record s { cache = c; refs = set_refs w nid refs s.refs }),
    none,
  )
  finish_commit nid p refs s (refused e, c) = (record s { cache = c }, some (commit_refused nid))

  finish-Sends :
      (nid : String) (p : NodePlan V P) (refs : Dict Ref) (s : Live V) (r : Committed × Cache V)
      → Sends s (finish_commit nid p refs s r) (node_completed nid p.h ∷ [])
  finish-Sends nid p refs s (committed rs, c) n =
      stages-append s.events (node_completed nid p.h ∷ [])
  finish-Sends nid p refs s (refused e, c) n = absurd (ground (arith, n))

  commit_outputs-Sends :
      (nid : String) (p : NodePlan V P) (ws : List V) (produced : Dict Ref) (s : Live V)
      → Sends s (commit_outputs w nid p ws produced s) (node_completed nid p.h ∷ [])
  unfolding commit_outputs
  commit_outputs-Sends nid p ws produced s n =
      elim (Option-cases (committed_refs w p.h p.cls.outputs produced)) [
        | inl e ↦ absurd (ground (arith, n, e))
        | inr (refs, e) ↦
            let r = commit (w.relative p.h) p.h refs ws (w.entry_bytes p.h refs) s.cache in
            elim (Committed-cases r) [
              | inl (rs, f) ↦ ground (arith, n, e, f, finish-Sends nid p refs s r)
              | inr (x, f) ↦ absurd (ground (arith, n, e, f))
            ]
      ]

  run_node-Sends :
      (nid : String) (p : NodePlan V P) (inputs : Dict Input) (s : Live V)
      → Sends s (run_node w nid p inputs s) (node_completed nid p.h ∷ [])
  unfolding run_node
  run_node-Sends nid p inputs s n = ran (w.run p.cls inputs p.params).1 refl n
    where
      ran :
          (o : Produced)
          → (w.run p.cls inputs p.params).1 ≡ o
          → (run_node w nid p inputs s).1 ≡ none
          → stages (run_node w nid p inputs s).0.events
            ≡ stages s.events ++ node_completed nid p.h ∷ []
      ran (outputs refs) e n =
          let notes = (w.run p.cls inputs p.params).0 in
          let s' = emit_all w (map (event_of w nid) notes) s in
          ground (
            arith,
            e,
            n,
            commit_outputs-Sends nid p (warnings_of w notes) refs s',
            stages-append s.events (map (event_of w nid) notes),
            stages-notes nid notes,
            append-nil (stages s.events),
          )
      ran cancelled_inside e n = absurd (ground (arith, e, n))
      ran raised e n = absurd (ground (arith, e, n))

  check_headroom-Sends :
      (nid : String) (need : ℕ) (s : Live V) → Sends s (check_headroom w nid need s) []
  unfolding check_headroom
  check_headroom-Sends nid need s n = elim (Option-cases w.headroom) [
    | inl e ↦ ground (arith, e, append-nil (stages s.events))
    | inr (h, e) ↦ checked h e (h need s.cache).0 refl
  ]
    where
      checked :
          (h : ℕ → Cache V → Headroom × Cache V)
          → w.headroom ≡ some h
          → (r : Headroom) → (h need s.cache).0 ≡ r
          → stages (check_headroom w nid need s).0.events ≡ stages s.events ++ []
      checked h e enough f = ground (arith, e, f, n, append-nil (stages s.events))
      checked h e (swept r) f = ground (arith, e, f, n, append-nil (stages s.events))
      checked h e (insufficient x y z) f = ground (arith, e, f, n, append-nil (stages s.events))

  run_miss-Sends :
      (force : Bool) (nid : String) (p : NodePlan V P) (s : Live V)
      → Sends s (run_miss w force nid p s) (node_completed nid p.h ∷ [])
  unfolding run_miss
  run_miss-Sends force nid p s n = resolved (resolve_inputs nid p.spec.inputs p.cls s.refs) refl
    where
      resolved :
          (o : Ran (Dict Input))
          → resolve_inputs nid p.spec.inputs p.cls s.refs ≡ o
          → stages (run_miss w force nid p s).0.events
            ≡ stages s.events ++ node_completed nid p.h ∷ []
      resolved (failed e) f = absurd (ground (arith, f, n))
      resolved (ok inputs) f =
          let need = w.estimate p.cls inputs p.params in
          let checked = check_headroom w nid need s in
          let run : Live V → Step V = λ s'.
            run_node w nid p inputs
              (record s' { cache = mark_entries w p.h inputs (reserve p.h force s'.cache) }) in
          let same : run_miss w force nid p s ≡ after checked run = ground (arith, f) in
          let sends =
            Sends-after s checked run [] (node_completed nid p.h ∷ [])
              (check_headroom-Sends nid need s)
              (run_node-Sends nid p inputs (record checked.0 {
                cache = mark_entries w p.h inputs (reserve p.h force checked.0.cache);
              })) in
          subst (λ r. Sends s r (node_completed nid p.h ∷ [])) (sym same) sends n

  -- A stage that is sent before a step.
  Sends-emit :
      (e : RunEvent V) (s : Live V) (step : Step V) (es : List (RunEvent V))
      → is_stage e ≡ true
      → Sends (emit w e s) step es
      → Sends s step (e ∷ es)
  Sends-emit e s step es h sends n = ground (
    arith,
    sends n,
    h,
    stages-append s.events (e ∷ []),
    append_assoc (stages s.events) (e ∷ []) es,
  )

  run_one-Sends :
      (force : Bool) (must : List String) (nid : String) (p : NodePlan V P) (s : Live V)
      → Sends s (run_one w force must nid p s) (life must nid p)
  unfolding run_one
  run_one-Sends force must nid p s =
      let begun = emit w (node_started nid p.h) s in
      let start = Sends-emit (node_started nid p.h) s in
      elim (Bool-cases (w.is_cancelled nid)) [
        | inl e ↦ λ n. absurd (ground (arith, n, e))
        | inr e ↦ elim (Bool-cases p.is_hit) [
          | inl f ↦ λ n. ground (
            arith,
            n,
            e,
            f,
            start (run_hit w nid p begun) (node_cached nid p.h ∷ []) refl
                (run_hit-Sends nid p begun),
          )
          | inr f ↦ elim (Bool-cases (member nid must)) [
            | inl g ↦ λ n. ground (
              arith,
              n,
              e,
              f,
              g,
              start (run_miss w force nid p begun) (node_completed nid p.h ∷ []) refl
                  (run_miss-Sends force nid p begun),
            )
            | inr g ↦ λ n. ground (
              arith,
              n,
              e,
              f,
              g,
              start (emit w (node_skipped nid p.h) begun, none) (node_skipped nid p.h ∷ []) refl
                  (λ m. stages-append begun.events (node_skipped nid p.h ∷ [])),
            )
          ]
        ]
      ]

  -- Where the third pass comes to its end, each node of the order has sent, in this order and nothing
  -- else but warnings and progress: that it started, and then that it was cached where it is a hit,
  -- completed where it is none and must run, and skipped otherwise.
  pub run_all-Sends :
      (force : Bool) (must : List String) (plan : Dict (NodePlan V P)) (order : List String)
      (s : Live V)
      → (run_all w force must plan order s).1 ≡ none
      → stages (run_all w force must plan order s).0.events
        ≡ stages s.events ++ lives must plan order
  unfolding run_all
  run_all-Sends force must plan [] s n = sym (append-nil (stages s.events))
  run_all-Sends force must plan (nid ∷ order) s n = elim (Option-cases (get nid plan)) [
    | inl e ↦ absurd (ground (arith, n, e))
    | inr (p, e) ↦
        let first = run_one w force must nid p s in
        let same : run_all w force must plan (nid ∷ order) s
            ≡ after first (run_all w force must plan order) =
          ground (arith, e) in
        let sends =
          Sends-after s first (run_all w force must plan order) (life must nid p)
            (lives must plan order) (run_one-Sends force must nid p s)
            (run_all-Sends force must plan order first.0) in
        subst (λ r. Sends s r (life must nid p ++ lives must plan order)) (sym same) sends n
        ∙ ground (arith, e)
  ]

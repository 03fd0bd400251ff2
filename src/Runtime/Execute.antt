-- ===== src/Runtime/Execute.antt =====
-- The third pass of `run_job` in server/runtime.py, node by node. What a node's `run` logs and produces,
-- the file system and the free disk are parameters.
use astrolab.Prelude.{
  ℕ, String, Bool, true, false, not, ◌&&◌, Option, none, some, List, [], ◌∷◌, ◌++◌, map, ltb,
  if◌then◌else◌, any,
}
use astrolab.Dict.{Dict, get, set, pop, keys}
use astrolab.Models.{PortType, Ref, Input, one}
use astrolab.Cache.{
  Cache, member, reserve, mark_in_use, load_warnings, load_outputs, commit, committed, refused,
}
use astrolab.Storage.Headroom.{enough, swept, insufficient}
use astrolab.Runtime.Inputs.{
  Failure, ok, failed, run_error, job_cancelled, commit_refused, Refs, port_key, resolve_inputs,
  input_node_hashes, locate_port_artifact,
}
use astrolab.Runtime.Nodes.{NodePlan}
use astrolab.Runtime.World.{
  RunEvent, node_started, node_cached, node_skipped, node_completed, node_failed, node_warning,
  node_progress, Note, progress, warn, outputs, cancelled_inside, raised, World, Live, Step, after,
}

module _ {V P : Type 0} (w : World V P) where
  abbrev pub emit : RunEvent V → Live V → Live V
  emit e s = record s { events = s.events ++ e ∷ [] }

  abbrev pub emit_all : List (RunEvent V) → Live V → Live V
  emit_all es s = record s { events = s.events ++ es }

  -- The ref of one output of a cached entry.
  unfoldable pub cached_ref : (h : String) → Option (Dict Ref) → String → PortType → Option Ref
  unfolding get locate_port_artifact
  cached_ref h manifest port type =
      let by_name : Option Ref = elim (locate_port_artifact w.is_dir w.dir_path w.glob h port) [
        | none ↦ none
        | some path ↦
            some (record {
              display_ready = false;
              node_hash = h;
              port = port;
              path = path;
              type = type;
            })
      ] in
      elim manifest [
        | none ↦ by_name
        | some m ↦ elim (get port m) [
          | none ↦ by_name
          | some entry ↦
              if w.exists entry
              then some (record {
                display_ready = false;
                node_hash = h;
                port = port;
                path = entry.path;
                type = type;
              })
              else none
        ]
      ]

  -- The refs of all outputs, and whether one is missing.
  unfoldable pub rehydrate_ports :
      (nid h : String) → Option (Dict Ref) → Dict PortType → Refs → Refs × Bool
  unfolding cached_ref set
  rehydrate_ports nid h manifest [] refs = (refs, false)
  rehydrate_ports nid h manifest ((port, type) ∷ ports) refs =
      elim (cached_ref h manifest port type) [
        | none ↦ ((rehydrate_ports nid h manifest ports refs).0, true)
        | some r ↦ rehydrate_ports nid h manifest ports (set (port_key nid port) (one r) refs)
      ]

  unfoldable pub run_hit : (nid : String) → NodePlan V P → Live V → Step V
  unfolding rehydrate_ports load_warnings load_outputs
  run_hit nid p s =
      let seen =
        emit_all (node_cached nid p.h ∷ map (node_warning nid) (load_warnings p.h s.cache)) s in
      let r = rehydrate_ports nid p.h (load_outputs w.join p.h s.cache) p.cls.outputs s.refs in
      (record seen { refs = r.0 }, if r.1 then some (run_error nid) else none)

  -- The marks on the entry and on those of its inputs.
  unfoldable pub mark_all : (job_id : String) → List String → Cache V → Cache V
  unfolding mark_in_use
  mark_all job_id [] c = c
  mark_all job_id (h ∷ hs) c = mark_all job_id hs (mark_in_use h job_id c)

  unfoldable pub mark_entries : (h : String) → Dict Input → Cache V → Cache V
  unfolding mark_all input_node_hashes mark_in_use
  mark_entries h inputs c = elim w.job_id [
    | none ↦ c
    | some j ↦ mark_all j (input_node_hashes inputs []) (mark_in_use h j c)
  ]

  abbrev pub event_of : (nid : String) → Note V → RunEvent V
  event_of nid (progress v) = node_progress nid v
  event_of nid (warn v) = node_warning nid v

  abbrev pub warnings_of : List (Note V) → List V
  warnings_of [] = []
  warnings_of (progress v ∷ notes) = warnings_of notes
  warnings_of (warn v ∷ notes) = v ∷ warnings_of notes

  -- Every key of the first stands in the second.
  abbrev pub covers {ℓ κ} : {A : Type ℓ} {B : Type κ} → Dict A → Dict B → Bool
  covers a b = not (any (λ k. not (member k (keys b))) (keys a))

  -- The refs to commit, or `none` where one lies outside of the entry.
  unfoldable pub committed_refs : (h : String) → Dict PortType → Dict Ref → Option (Dict Ref)
  unfolding get
  committed_refs h types [] = some []
  committed_refs h types ((port, ref) ∷ produced) =
      let rest = committed_refs h types produced in
      elim (get port types) [
        | none ↦ none
        | some type ↦
            if w.is_inside h ref
            then elim rest [
              | none ↦ none
              | some rs ↦ some ((port, record ref { node_hash = h; port = port; type = type }) ∷ rs)
            ]
            else none
      ]

  unfoldable pub set_refs : (nid : String) → Dict Ref → Refs → Refs
  unfolding set
  set_refs nid [] refs = refs
  set_refs nid ((port, r) ∷ rs) refs = set_refs nid rs (set (port_key nid port) (one r) refs)

  -- From the outputs on that `run` returned.
  unfoldable pub commit_outputs :
      (nid : String) → NodePlan V P → List V → Dict Ref → Live V → Step V
  unfolding committed_refs set_refs commit
  commit_outputs nid p warnings produced s =
      let done : Step V = elim (committed_refs p.h p.cls.outputs produced) [
        | none ↦ (s, some (run_error nid))
        | some refs ↦
            let (r, cache) =
              commit (w.relative p.h) p.h refs warnings (w.entry_bytes p.h refs) s.cache in
            elim r [
              | committed _ ↦ (
                emit (node_completed nid p.h)
                    (record s { cache = cache; refs = set_refs nid refs s.refs }),
                none,
              )
              | refused _ ↦ (record s { cache = cache }, some (commit_refused nid))
            ]
      ] in
      if covers produced p.cls.outputs && covers p.cls.outputs produced
      then done
      else (s, some (run_error nid))

  -- `shutil.rmtree(out_dir)` and the event of a failed run.
  abbrev pub give_up : (nid h : String) → Failure → Live V → Step V
  give_up nid h e s = (emit (node_failed nid) (record s { cache = pop h s.cache }), some e)

  -- From `run` on.
  unfoldable pub run_node : (nid : String) → NodePlan V P → Dict Input → Live V → Step V
  unfolding commit_outputs pop
  run_node nid p inputs s =
      let (notes, result) = w.run p.cls inputs p.params in
      let s' = emit_all (map (event_of nid) notes) s in
      elim result [
        | outputs refs ↦ commit_outputs nid p (warnings_of notes) refs s'
        | cancelled_inside ↦ give_up nid p.h (job_cancelled nid) s'
        | raised ↦ give_up nid p.h (run_error nid) s'
      ]

  -- The disk is checked for the nodes that estimate what they write.
  unfoldable pub check_headroom : (nid : String) → ℕ → Live V → Step V
  check_headroom nid need s = elim w.headroom [
    | none ↦ (s, none)
    | some headroom ↦
        let (r, cache) = headroom need s.cache in
        let checked : Step V = elim r [
          | enough ↦ (record s { cache = cache }, none)
          | swept _ ↦ (record s { cache = cache }, none)
          | insufficient _ _ _ ↦
              (emit (node_failed nid) (record s { cache = cache }), some (run_error nid))
        ] in
        if ltb 0 need then checked else (s, none)
  ]

  unfoldable pub run_miss : (force : Bool) → (nid : String) → NodePlan V P → Live V → Step V
  unfolding resolve_inputs check_headroom reserve mark_entries run_node
  run_miss force nid p s = elim (resolve_inputs nid p.spec.inputs p.cls s.refs) [
    | failed e ↦ (s, some e)
    | ok inputs ↦ after (check_headroom nid (w.estimate p.cls inputs p.params) s) (λ s'.
        run_node nid p inputs
          (record s' { cache = mark_entries p.h inputs (reserve p.h force s'.cache) }))
  ]

  -- The body of the loop.
  unfoldable pub run_one :
      (force : Bool) → (must : List String) → (nid : String) → NodePlan V P → Live V → Step V
  unfolding run_hit run_miss
  run_one force must nid p s =
      let begun = emit (node_started nid p.h) s in
      if w.is_cancelled nid
      then (s, some (job_cancelled nid))
      else if p.is_hit
      then run_hit nid p begun
      else if member nid must
      then run_miss force nid p begun
      else (emit (node_skipped nid p.h) begun, none)

  unfoldable pub run_all :
      (force : Bool) → (must : List String) → Dict (NodePlan V P) → List String → Live V → Step V
  unfolding run_one get
  run_all force must plan [] s = (s, none)
  run_all force must plan (nid ∷ order) s = elim (get nid plan) [
    | none ↦ (s, some (run_error nid))
    | some p ↦ after (run_one force must nid p s) (run_all force must plan order)
  ]

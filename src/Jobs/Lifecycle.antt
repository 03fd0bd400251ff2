-- ===== src/Jobs/Lifecycle.antt =====
-- How the status of a job in the tables of server/jobs.py may change.
use astrolab.Prelude.{
  ℕ, ◌≤◌, ◌==◌, String, Bool, ◌≡◌, refl, Option, none, some, List, [], ◌∷◌, ◌++◌, arith, str_eq,
  if_both, option_both, keep_if, Bool-cases, Option-cases, inl, inr,
}
use astrolab.Models.{Template, Job}
use astrolab.Jobs.Store.{
  JobStatus, queued, running, is_queued, is_running, is_live, load_events, JobRecord, Store,
  find_job, update_job, rowcount, persist_event,
}
use astrolab.Jobs.Manager.{queued_record, submit, cancel}
use astrolab.Jobs.Worker.{
  oldest_queued, claim, claim_next_queued, start, heartbeat, emit_event, finish, quality_at,
  terminate, is_healthy, interrupt, reclaim_row, reclaim_rows, reclaim_stale,
}
use astrolab.Jobs.Steps.{
  is_final, Step, submitted, cancelled, claimed, beat, emitted, terminated, reclaimed, Reach, here,
  next,
}
use astrolab.Jobs.Rows.{HasIds, find_job-update_job, HasIds-update_job, HasIds-append}

abbrev stage : JobStatus → ℕ
stage queued = 1
stage running = 2
stage _ = 3

stage-bound : (s : JobStatus) → stage s ≤ 3
stage-bound queued = omega arith
stage-bound running = omega arith
stage-bound JobStatus.completed = omega arith
stage-bound JobStatus.failed = omega arith
stage-bound JobStatus.interrupted = omega arith

stage-is_final : (s : JobStatus) → is_final s ≡ Bool.true → stage s ≡ 3
stage-is_final queued h = cc
stage-is_final running h = cc
stage-is_final JobStatus.completed h = refl
stage-is_final JobStatus.failed h = refl
stage-is_final JobStatus.interrupted h = refl

module _ {V : Type 0} where
  -- 0 before the submission, 1 in the queue, 2 while it runs, 3 after its end.
  abbrev stage_of : Option (JobRecord V) → ℕ
  stage_of none = 0
  stage_of (some r) = stage r.status

  abbrev pub stage_at : String → Store V → ℕ
  stage_at id db = stage_of (find_job id db.jobs)

  -- A transaction keeps the ids distinct and takes no job a stage back.
  record IsForward (db after : Store V) : Type 0 where
    ids : HasIds db.jobs → HasIds after.jobs
    forward : (id : String) → stage_at id db ≤ stage_at id after

  find_job-more :
      (id : String) (r : JobRecord V) (rows : List (JobRecord V))
      → stage_of (find_job id rows) ≤ stage_of (find_job id (rows ++ r ∷ []))
  unfolding find_job
  find_job-more id r [] = ground arith
  find_job-more id r (f ∷ rows) = ground (arith, find_job-more id r rows)

  -- An update that takes no row it changes a stage back.
  update-IsForward :
      (test : JobRecord V → Bool) (change : JobRecord V → JobRecord V) (i : String)
      (db after : Store V)
      → after.jobs ≡ update_job test change i db.jobs
      → ((r : JobRecord V) → (change r).id ≡ r.id)
      → ((r : JobRecord V) → test r ≡ Bool.true → stage r.status ≤ stage (change r).status)
      → IsForward db after
  update-IsForward test change i db after same keep up = record {
    ids = λ h. rw same (HasIds-update_job test change i db.jobs keep h);
    forward = λ id. rw same (
        rw (find_job-update_job test change i id db.jobs keep) (elim (Bool-cases (str_eq i id)) [
          | inr other ↦ rw other (omega arith)
          | inl at ↦ rw at (elim (Option-cases (find_job id db.jobs)) [
            | inl e ↦ rw e (omega arith)
            | inr (r, e) ↦
                rw e (elim (Bool-cases (test r)) [
                  | inl c ↦ rw c (up r c)
                  | inr c ↦ rw c (omega arith)
                ])
          ])
        ]));
  }

  same-IsForward : (db after : Store V) → after.jobs ≡ db.jobs → IsForward db after
  same-IsForward db after same = record {
    ids = λ h. rw same h;
    forward = λ id. rw same (omega arith);
  }

  then-IsForward : (a b c : Store V) → IsForward a b → IsForward b c → IsForward a c
  then-IsForward a b c f g = record {
    ids = λ h. g.ids (f.ids h);
    forward = λ id. omega (arith, f.forward id, g.forward id);
  }

  submit-IsForward :
      (t : Template V) (j : Job V) (force : Bool) (id : String) (now : ℕ) (db : Store V)
      → find_job id db.jobs ≡ none
      → IsForward db (submit t j force id now db)
  unfolding submit persist_event
  submit-IsForward t j force id now db new = record {
    ids = λ h. HasIds-append (queued_record t j force id now) db.jobs new h;
    forward = λ q. find_job-more q (queued_record t j force id now) db.jobs;
  }

  queued-start :
      (pid now : ℕ) (r : JobRecord V) → is_queued r.status ≡ Bool.true → stage r.status ≤ 2
  queued-start pid now r h =
      elim (r.status) as (λ s. is_queued s ≡ Bool.true → stage s ≤ 2) [
        | queued ↦ λ e. omega arith
        | running ↦ λ e. omega arith
        | JobStatus.completed ↦ λ e. cc
        | JobStatus.failed ↦ λ e. cc
        | JobStatus.interrupted ↦ λ e. cc
      ]
        h

  claim-IsForward : (pid now : ℕ) (db : Store V) → IsForward db (claim_next_queued pid now db).0
  claim-IsForward pid now db =
      let P = λ (x : Store V × Option (JobRecord V)). IsForward db x.0 in
      unfold claim_next_queued in
      option_both P (oldest_queued db.jobs) (same-IsForward db db refl) λ r _.
        unfold claim in
        unfold persist_event in
        if_both P (rowcount (λ q. is_queued q.status) r.id db.jobs == 1)
          (update-IsForward (λ q. is_queued q.status) (start pid now) r.id db _ refl (λ q. refl)
            (queued-start pid now))
          (update-IsForward (λ q. is_queued q.status) (start pid now) r.id db _ refl (λ q. refl)
            (queued-start pid now))

  reclaim_rows-IsForward :
      (exists : ℕ → Bool) (now : ℕ) (rows : List (JobRecord V)) (db : Store V)
      → IsForward db (reclaim_rows exists now rows db).0
  unfolding reclaim_rows reclaim_row persist_event
  reclaim_rows-IsForward exists now [] db = same-IsForward db db refl
  reclaim_rows-IsForward exists now (r ∷ rows) db =
      if_both (λ (x : Store V × List String). IsForward db x.0) (is_healthy exists now r)
        (reclaim_rows-IsForward exists now rows db)
        (then-IsForward db (reclaim_row now r.id db) _
          (update-IsForward (λ q. is_running q.status) (interrupt now) r.id db _ refl (λ q. refl)
            (λ q _. stage-bound q.status))
          (reclaim_rows-IsForward exists now rows (reclaim_row now r.id db)))

  Step-IsForward : {db after : Store V} → Step db after → IsForward db after
  unfolding heartbeat emit_event terminate cancel reclaim_stale persist_event
  Step-IsForward (submitted t j force id now db new fresh) =
      submit-IsForward t j force id now db new
  Step-IsForward (cancelled id db) =
      update-IsForward (λ r. is_live r.status) (λ r. record r { cancel_requested = Bool.true }) id
        db _ refl (λ r. refl) (λ r _. omega arith)
  Step-IsForward (claimed pid now db) = claim-IsForward pid now db
  Step-IsForward (beat now id db) =
      update-IsForward (λ r. Bool.true) (λ r. record r { heartbeat_at = some now }) id db _ refl
        (λ r. refl) (λ r _. omega arith)
  Step-IsForward (emitted id event db) = same-IsForward db _ refl
  Step-IsForward (terminated compute finished r status error db final) =
      update-IsForward (λ row. Bool.true)
        (finish (record r { status = status; error = error; finished_at = some finished })
          (quality_at compute status
            (record r { status = status; error = error; finished_at = some finished })
            (load_events r.id none db)))
        r.id db _ refl (λ q. refl)
        (λ q _. omega (arith, stage-bound q.status, stage-is_final status final))
  Step-IsForward (reclaimed exists now db) =
      reclaim_rows-IsForward exists now (keep_if (λ r. is_running r.status) db.jobs) db

  -- Whatever order the transactions come in, no job goes back a stage (unknown, queued, running,
  -- ended), so that an ended job stays ended.
  pub stage_at-Reach :
      (id : String) {db after : Store V} → Reach db after → stage_at id db ≤ stage_at id after
  stage_at-Reach id here = omega arith
  stage_at-Reach id (next reach step) =
      omega (arith, stage_at-Reach id reach, (Step-IsForward step).forward id)

  -- The ids of the rows stay distinct.
  pub Reach-HasIds : {db after : Store V} → Reach db after → HasIds db.jobs → HasIds after.jobs
  Reach-HasIds here h = h
  Reach-HasIds (next reach step) h = (Step-IsForward step).ids (Reach-HasIds reach h)

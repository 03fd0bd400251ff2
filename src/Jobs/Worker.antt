-- ===== src/Jobs/Worker.antt =====
-- JobWorker of server/jobs.py: the worker process's side of the tables. What the operating system
-- and the runtime answer is an argument.
use astrolab.Prelude.{
  ℕ, ◌+◌, ◌*◌, String, Bool, true, false, Option, none, some, List, [], ◌∷◌, ◌&&◌, not, ltb, leb,
  ◌==◌, if◌then◌else◌, keep_if,
}
use astrolab.Jobs.Store.{
  JobStatus, running, completed, failed, interrupted, is_queued, is_running, job_started,
  job_completed, job_failed, job_interrupted, JobRecord, JobEvent, Store, plain_event, find_job,
  update_job, rowcount, persist_event, load_events,
}

-- Instants count microseconds.
abbrev pub stale_heartbeat : ℕ
stale_heartbeat = 120 * 1000000

-- `_pid_alive`, where `os.kill(pid, 0)` answers `exists`.
abbrev pub pid_alive : (ℕ → Bool) → Option ℕ → Bool
pid_alive exists none = false
pid_alive exists (some pid) = exists pid

abbrev crashed : String
crashed = "worker crashed before this job finished"

module _ {V : Type 0} where
  -- `r["heartbeat_at"] or r["started_at"]`
  abbrev pub last_seen : JobRecord V → Option ℕ
  last_seen r = elim r.heartbeat_at [ none ↦ r.started_at | some t ↦ some t ]

  abbrev pub stale_by_time : (now : ℕ) → JobRecord V → Bool
  stale_by_time now r = elim (last_seen r) [ none ↦ true | some t ↦ ltb (t + stale_heartbeat) now ]

  -- What `reclaim_stale` leaves alone: `_pid_alive(...) and not stale_by_time`.
  abbrev pub is_healthy : (ℕ → Bool) → (now : ℕ) → JobRecord V → Bool
  is_healthy exists now r = pid_alive exists r.worker_pid && not (stale_by_time now r)

  abbrev pub interrupt : (now : ℕ) → JobRecord V → JobRecord V
  interrupt now r = record r { status = interrupted; error = some crashed; finished_at = some now }

  -- One round of the loop, for a row that is stale.
  unfoldable pub reclaim_row : (now : ℕ) → String → Store V → Store V
  unfolding update_job persist_event
  reclaim_row now id db =
      (persist_event id (plain_event job_interrupted now (some crashed)) none
        (record db { jobs = update_job (λ r. is_running r.status) (interrupt now) id db.jobs })).0

  -- The loop over the rows read; it also gives the ids whose marks in the cache are released,
  -- as many as the count that the method returns.
  unfoldable pub reclaim_rows :
      (ℕ → Bool) → (now : ℕ) → List (JobRecord V) → Store V → Store V × List String
  unfolding reclaim_row
  reclaim_rows exists now [] db = (db, [])
  reclaim_rows exists now (r ∷ rows) db =
      if is_healthy exists now r
      then reclaim_rows exists now rows db
      else (let (after, ids) = reclaim_rows exists now rows (reclaim_row now r.id db) in
          (after, r.id ∷ ids))

  unfoldable pub reclaim_stale : (ℕ → Bool) → (now : ℕ) → Store V → Store V × List String
  unfolding reclaim_rows
  reclaim_stale exists now db =
      reclaim_rows exists now (keep_if (λ r. is_running r.status) db.jobs) db

  -- `WHERE status = 'queued' ORDER BY submitted_at ASC LIMIT 1`
  abbrev pub older : JobRecord V → Option (JobRecord V) → JobRecord V
  older r none = r
  older r (some q) = if leb r.submitted_at q.submitted_at then r else q

  unfoldable pub oldest_queued : List (JobRecord V) → Option (JobRecord V)
  oldest_queued [] = none
  oldest_queued (r ∷ rows) =
      let rest = oldest_queued rows in if is_queued r.status then some (older r rest) else rest

  abbrev pub start : (pid now : ℕ) → JobRecord V → JobRecord V
  start pid now r = record r {
    status = running;
    started_at = some now;
    worker_pid = some pid;
    heartbeat_at = some now;
  }

  -- From the `UPDATE` on, for the id that was read.
  unfoldable pub claim : (pid now : ℕ) → String → Store V → Store V × Option (JobRecord V)
  unfolding update_job rowcount persist_event find_job
  claim pid now id db =
      let updated : Store V = record db {
        jobs = update_job (λ r. is_queued r.status) (start pid now) id db.jobs;
      } in
      if rowcount (λ r. is_queued r.status) id db.jobs == 1
      then (let logged = (persist_event id (plain_event job_started now none) none updated).0 in
          (logged, find_job id logged.jobs))
      else (updated, none)

  unfoldable pub claim_next_queued : (pid now : ℕ) → Store V → Store V × Option (JobRecord V)
  unfolding oldest_queued claim
  claim_next_queued pid now db = elim (oldest_queued db.jobs) [
    | none ↦ (db, none)
    | some r ↦ claim pid now r.id db
  ]

  unfoldable pub heartbeat : (now : ℕ) → String → Store V → Store V
  unfolding update_job
  heartbeat now id db = record db {
    jobs = update_job (λ r. true) (λ r. record r { heartbeat_at = some now }) id db.jobs;
  }

  unfoldable pub read_cancel : String → Store V → Bool
  unfolding find_job
  read_cancel id db = elim (find_job id db.jobs) [ none ↦ false | some r ↦ r.cancel_requested ]

  unfoldable pub emit_event : String → JobEvent V → Store V → Store V
  unfolding persist_event
  emit_event id event db = (persist_event id event none db).0

  -- The event that ends a job, by its status.
  abbrev pub terminal : JobStatus → (finished : ℕ) → Option String → JobEvent V
  terminal completed finished error = plain_event job_completed finished none
  terminal failed finished error = plain_event job_failed finished error
  terminal interrupted finished error = plain_event job_interrupted finished error
  terminal _ finished error = plain_event job_failed finished error

  -- `compute` is `compute_quality_for_record`, where it raises it gives `none`.
  abbrev pub quality_at :
      (JobRecord V → List (JobEvent V) → Option V)
      → JobStatus
      → JobRecord V
      → List (JobEvent V)
      → Option V
  quality_at compute completed r events = compute r events
  quality_at compute _ r events = none

  -- The columns that `_terminate` writes, from the worker's record.
  abbrev pub finish : JobRecord V → Option V → JobRecord V → JobRecord V
  finish done quality row = record row {
    status = done.status;
    outputs = done.outputs;
    error = done.error;
    finished_at = done.finished_at;
    node_hashes = done.node_hashes;
    quality = quality;
  }

  unfoldable pub terminate :
      (JobRecord V → List (JobEvent V) → Option V)
      → (finished : ℕ) → JobRecord V
      → JobStatus
      → Option String
      → Store V
      → Store V
  unfolding update_job persist_event load_events
  terminate compute finished r status error db =
      let done : JobRecord V = record r {
        status = status;
        error = error;
        finished_at = some finished;
      } in
      let quality = quality_at compute status done (load_events r.id none db) in
      (persist_event r.id (terminal status finished error) none
        (record db { jobs = update_job (λ row. true) (finish done quality) r.id db.jobs })).0

-- ===== src/Jobs/Manager.antt =====
-- JobManager of server/jobs.py: the API's side. Ids and instants come from outside.
use astrolab.Prelude.{
  ℕ, String, Bool, true, Option, none, some, List, [], ◌∷◌, ◌++◌, ltb, leb, if◌then◌else◌,
}
use astrolab.Models.{Template, Job}
use astrolab.Jobs.Store.{
  JobRecord, JobEvent, Store, queued, is_live, job_queued, plain_event, find_job, update_job,
  rowcount, persist_event, load_events,
}

module _ {V : Type 0} where
  abbrev pub queued_record : Template V → Job V → Bool → (job_id : String) (now : ℕ) → JobRecord V
  queued_record template job force job_id now = record {
    id = job_id;
    status = queued;
    template = template;
    job = job;
    submitted_at = now;
    started_at = none;
    finished_at = none;
    outputs = none;
    error = none;
    force = force;
    quality = none;
    node_hashes = [];
    cancel_requested = Bool.false;
    worker_pid = none;
    heartbeat_at = none;
  }

  unfoldable pub submit :
      Template V → Job V → Bool → (job_id : String) (now : ℕ) → Store V → Store V
  unfolding persist_event
  submit template job force job_id now db =
      let inserted : Store V = record db {
        jobs = db.jobs ++ queued_record template job force job_id now ∷ [];
      } in
      (persist_event job_id (plain_event job_queued now none) (some 0) inserted).0

  unfoldable pub cancel : String → Store V → Store V × Bool
  unfolding update_job rowcount
  cancel job_id db = (
    record db {
      jobs =
          update_job (λ r. is_live r.status) (λ r. record r { cancel_requested = true }) job_id
            db.jobs;
    },
    ltb 0 (rowcount (λ r. is_live r.status) job_id db.jobs),
  )

  unfoldable pub get_job : String → Store V → Option (JobRecord V)
  unfolding find_job
  get_job job_id db = find_job job_id db.jobs

  unfoldable pub get_events : String → Option ℕ → Store V → List (JobEvent V)
  unfolding load_events
  get_events = load_events

  -- `ORDER BY submitted_at ASC`, as a stable sort.
  unfoldable pub insert_by_submitted : JobRecord V → List (JobRecord V) → List (JobRecord V)
  insert_by_submitted r [] = r ∷ []
  insert_by_submitted r (q ∷ rows) =
      if leb r.submitted_at q.submitted_at then r ∷ q ∷ rows else q ∷ insert_by_submitted r rows

  unfoldable pub order_by_submitted : List (JobRecord V) → List (JobRecord V)
  unfolding insert_by_submitted
  order_by_submitted [] = []
  order_by_submitted (r ∷ rows) = insert_by_submitted r (order_by_submitted rows)

  unfoldable pub list_jobs : Store V → List (JobRecord V)
  unfolding order_by_submitted
  list_jobs db = order_by_submitted db.jobs

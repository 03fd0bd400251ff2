-- ===== src/Jobs/Store.antt =====
-- server/jobs.py: JobRecord, JobEvent, and the helpers over the tables (`_persist_event`,
-- `_load_events`). A table is the list of its rows in the order of insertion.
use astrolab.Prelude.{
  ℕ, suc, String, Bool, true, Option, none, some, List, [], ◌∷◌, ◌++◌, map, max, str_eq, leb, ltb,
  if◌then◌else◌, ◌&&◌, keep_if,
}
use astrolab.Dict.{Dict}
use astrolab.Models.{Partial, Template, Job, Ref}

pub data JobStatus : Type 0 where
  queued running completed failed interrupted : JobStatus

-- `status IN ('queued', 'running')`
abbrev pub is_live : JobStatus → Bool
is_live queued = true
is_live running = true
is_live _ = Bool.false

abbrev pub is_queued : JobStatus → Bool
is_queued queued = true
is_queued _ = Bool.false

abbrev pub is_running : JobStatus → Bool
is_running running = true
is_running _ = Bool.false

pub data EventType : Type 0 where
  job_queued job_started node_started node_progress node_cached node_skipped : EventType
  node_warning node_completed node_failed job_completed job_failed job_interrupted : EventType

pub record JobEvent (V : Type 0) : Type 0 where
  pub type : EventType
  pub timestamp : ℕ
  pub node_id : Option String
  pub fraction : Option V
  pub message : Option String
  pub error : Option String
  pub extra : Partial V

-- A row of `jobs`.
pub record JobRecord (V : Type 0) : Type 0 where
  pub id : String
  pub status : JobStatus
  pub template : Template V
  pub job : Job V
  pub submitted_at : ℕ
  pub started_at : Option ℕ
  pub finished_at : Option ℕ
  pub outputs : Option (Dict Ref)
  pub error : Option String
  pub force : Bool
  pub quality : Option V
  pub node_hashes : Dict String
  pub cancel_requested : Bool
  pub worker_pid : Option ℕ
  pub heartbeat_at : Option ℕ

-- A row of `job_events`.
pub record EventRow (V : Type 0) : Type 0 where
  pub job_id : String
  pub seq : ℕ
  pub event : JobEvent V

pub record Store (V : Type 0) : Type 0 where
  pub jobs : List (JobRecord V)
  pub job_events : List (EventRow V)

-- `COALESCE(MAX(seq), -1) + 1`
unfoldable pub next_seq : List ℕ → ℕ
next_seq [] = 0
next_seq (s ∷ seqs) = max (suc s) (next_seq seqs)

-- `seq > after_seq`. `none` is the after_seq of -1.
abbrev pub is_after : Option ℕ → ℕ → Bool
is_after none seq = true
is_after (some after) seq = ltb after seq

module _ {V : Type 0} where
  -- An event with a type, a time and an error, and the defaults of the dataclass.
  abbrev pub plain_event : EventType → ℕ → Option String → JobEvent V
  plain_event type timestamp error = record {
    type = type;
    timestamp = timestamp;
    node_id = none;
    fraction = none;
    message = none;
    error = error;
    extra = [];
  }

  -- `SELECT * FROM jobs WHERE id = ?`, the first row
  unfoldable pub find_job : String → List (JobRecord V) → Option (JobRecord V)
  find_job id [] = none
  find_job id (r ∷ rows) = if str_eq r.id id then some r else find_job id rows

  -- `UPDATE jobs SET … WHERE id = ?` and a further condition on the row
  unfoldable pub update_job :
      (JobRecord V → Bool)
      → (JobRecord V → JobRecord V)
      → String
      → List (JobRecord V)
      → List (JobRecord V)
  update_job test change id [] = []
  update_job test change id (r ∷ rows) =
      (if str_eq r.id id && test r then change r else r) ∷ update_job test change id rows

  -- `cursor.rowcount` of that update
  unfoldable pub rowcount : (JobRecord V → Bool) → String → List (JobRecord V) → ℕ
  rowcount test id [] = 0
  rowcount test id (r ∷ rows) =
      let rest = rowcount test id rows in if str_eq r.id id && test r then suc rest else rest

  -- `SELECT seq FROM job_events WHERE job_id = ?`
  unfoldable pub seqs_of : String → List (EventRow V) → List ℕ
  seqs_of id [] = []
  seqs_of id (e ∷ rows) =
      let rest = seqs_of id rows in if str_eq e.job_id id then e.seq ∷ rest else rest

  unfoldable pub persist_event : String → JobEvent V → Option ℕ → Store V → Store V × ℕ
  unfolding seqs_of next_seq
  persist_event job_id event none db =
      let seq = next_seq (seqs_of job_id db.job_events) in
      (
        record db {
          job_events = db.job_events ++ record { job_id = job_id; seq = seq; event = event } ∷ [];
        },
        seq,
      )
  persist_event job_id event (some seq) db = (
    record db {
      job_events = db.job_events ++ record { job_id = job_id; seq = seq; event = event } ∷ [];
    },
    seq,
  )

  -- `ORDER BY seq ASC`, as a stable sort.
  unfoldable pub insert_by_seq : EventRow V → List (EventRow V) → List (EventRow V)
  insert_by_seq e [] = e ∷ []
  insert_by_seq e (f ∷ rows) = if leb e.seq f.seq then e ∷ f ∷ rows else f ∷ insert_by_seq e rows

  unfoldable pub order_by_seq : List (EventRow V) → List (EventRow V)
  unfolding insert_by_seq
  order_by_seq [] = []
  order_by_seq (e ∷ rows) = insert_by_seq e (order_by_seq rows)

  -- `WHERE job_id = ? AND seq > ? ORDER BY seq ASC`
  unfoldable pub load_events : String → Option ℕ → Store V → List (JobEvent V)
  unfolding order_by_seq
  load_events job_id after_seq db =
      map (λ e. e.event)
        (order_by_seq
          (keep_if (λ e. str_eq e.job_id job_id && is_after after_seq e.seq) db.job_events))

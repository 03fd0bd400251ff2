-- ===== src/Jobs/Steps.antt =====
-- The transactions of server/jobs.py as a step relation over the tables: the API's submissions and
-- cancellations, and the worker's claims, heartbeats, events, ends and reclaims, in any order.
use astrolab.Prelude.{ℕ, String, Bool, true, false, ◌≡◌, [], Option, none, List}
use astrolab.Models.{Template, Job}
use astrolab.Jobs.Store.{
  JobStatus, completed, failed, interrupted, JobRecord, JobEvent, Store, find_job, seqs_of,
}
use astrolab.Jobs.Manager.{submit, cancel}
use astrolab.Jobs.Worker.{claim_next_queued, heartbeat, emit_event, terminate, reclaim_stale}

-- The statuses that `_run` gives to `_terminate`.
abbrev pub is_final : JobStatus → Bool
is_final completed = true
is_final failed = true
is_final interrupted = true
is_final _ = false

module _ {V : Type 0} where
  -- A submission draws a fresh uuid, of which there is no row and no event yet.
  pub data Step : Store V → Store V → Type 0 where
    submitted :
        (t : Template V) (j : Job V) (force : Bool) (id : String) (now : ℕ) (db : Store V)
        → find_job id db.jobs ≡ none
        → seqs_of id db.job_events ≡ []
        → Step db (submit t j force id now db)
    cancelled : (id : String) (db : Store V) → Step db (cancel id db).0
    claimed : (pid now : ℕ) (db : Store V) → Step db (claim_next_queued pid now db).0
    beat : (now : ℕ) (id : String) (db : Store V) → Step db (heartbeat now id db)
    emitted : (id : String) (event : JobEvent V) (db : Store V) → Step db (emit_event id event db)
    terminated :
        (compute : JobRecord V → List (JobEvent V) → Option V) (finished : ℕ) (r : JobRecord V)
        (status : JobStatus) (error : Option String) (db : Store V)
        → is_final status ≡ true
        → Step db (terminate compute finished r status error db)
    reclaimed :
        (exists : ℕ → Bool) (now : ℕ) (db : Store V) → Step db (reclaim_stale exists now db).0

  pub data Reach (db : Store V) : Store V → Type 0 where
    here : Reach db db
    next : {b c : Store V} → Reach db b → Step b c → Reach db c

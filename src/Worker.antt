-- ===== src/Worker.antt =====
-- server/worker.py: `_run_loop` and `_Shutdown` as a step relation. A signal may come between any two
-- steps. What `_run` does to the tables, and others while it runs, is any change.
use astrolab.Prelude.{ℕ, String, Bool, true, false, ◌≡◌, refl, Option, none, some}
use astrolab.Jobs.Store.{JobRecord, Store}
use astrolab.Jobs.Manager.{cancel}
use astrolab.Jobs.Worker.{claim_next_queued, reclaim_stale}
pub mod Drain
mod Tests

pub record Shutdown : Type 0 where
  pub stop : Bool
  pub cancel_current : Bool

-- Before `reclaim_stale`, at the head of the loop, with a record claimed, in `_run`, and after the loop.
pub data Phase : Type 0 where
  boot idle exited : Phase
  taken running : (job_id : String) → Phase

pub record Loop (V : Type 0) : Type 0 where
  pub phase : Phase
  pub shutdown : Shutdown
  pub store : Store V

module _ {V : Type 0} where
  abbrev pub on_usr1 : Loop V → Loop V
  on_usr1 l = record l { shutdown = record l.shutdown { stop = true } }

  abbrev pub on_term : Loop V → Loop V
  on_term l = record l { shutdown = record { stop = true; cancel_current = true } }

  -- `claim_next_queued`, and the wait where there is no record
  abbrev pub phase_of : Option (JobRecord V) → Phase
  phase_of none = idle
  phase_of (some r) = taken r.id

  -- The head of the loop.
  unfoldable pub poll : (pid now : ℕ) → Loop V → Loop V
  unfolding claim_next_queued
  poll pid now l =
      let (store, record_) = claim_next_queued pid now l.store in
      elim l.shutdown.stop [
        | true ↦ record l { phase = exited }
        | false ↦ record l { phase = phase_of record_; store = store }
      ]

  -- `if shutdown.cancel_current.is_set()`, up to the call of `_run`
  unfoldable pub forward : (job_id : String) → Loop V → Loop V
  unfolding cancel
  forward job_id l = elim l.shutdown.cancel_current [
    | true ↦ record l {
      phase = running job_id;
      shutdown = record l.shutdown { cancel_current = false };
      store = (cancel job_id l.store).0;
    }
    | false ↦ record l { phase = running job_id }
  ]

  pub data LoopStep : Loop V → Loop V → Type 0 where
    usr1 : (l : Loop V) → LoopStep l (on_usr1 l)
    term : (l : Loop V) → LoopStep l (on_term l)
    booted :
        (exists : ℕ → Bool) (now : ℕ) (s : Shutdown) (db : Store V)
        → LoopStep
            (record { phase = boot; shutdown = s; store = db })
            (record { phase = idle; shutdown = s; store = (reclaim_stale exists now db).0 })
    polled :
        (pid now : ℕ) (s : Shutdown) (db : Store V)
        → LoopStep
            (record { phase = idle; shutdown = s; store = db })
            (poll pid now (record { phase = idle; shutdown = s; store = db }))
    forwarded :
        (id : String) (s : Shutdown) (db : Store V)
        → LoopStep
            (record { phase = taken id; shutdown = s; store = db })
            (forward id (record { phase = taken id; shutdown = s; store = db }))
    -- another process writes to the tables, or the monitor does
    written :
        (p : Phase) (s : Shutdown) (db after : Store V)
        → LoopStep
            (record { phase = p; shutdown = s; store = db })
            (record { phase = p; shutdown = s; store = after })
    returned :
        (id : String) (s : Shutdown) (db after : Store V)
        → LoopStep
            (record { phase = running id; shutdown = s; store = db })
            (record { phase = idle; shutdown = s; store = after })

  pub data Run (l : Loop V) : Loop V → Type 0 where
    here : Run l l
    next : {b c : Loop V} → Run l b → LoopStep b c → Run l c

-- ===== src/Jobs/Numbers.antt =====
-- The seqs of the events of each job, in server/jobs.py, and reading them from a seq on.
use astrolab.Prelude.{
  ℕ, suc, ◌+◌, max, String, Bool, ◌≡◌, refl, Option, none, List, [], ◌∷◌, ◌++◌, arith, str_eq,
  eq_iff, if◌then◌else◌, length, if_both, option_both, keep_if, ◌==◌, Bool-cases, inl, inr, subst,
}
use astrolab.Models.{Template, Job}
use astrolab.Jobs.Store.{
  JobEvent, EventRow, JobRecord, Store, next_seq, seqs_of, persist_event, rowcount, plain_event,
  job_queued, is_queued, is_running,
}
use astrolab.Jobs.Manager.{submit, cancel}
use astrolab.Jobs.Worker.{
  oldest_queued, claim, claim_next_queued, heartbeat, emit_event, terminate, reclaim_row,
  reclaim_rows, is_healthy, reclaim_stale,
}
use astrolab.Jobs.Steps.{
  Step, submitted, cancelled, claimed, beat, emitted, terminated, reclaimed, Reach, here, next,
}

-- The numbers from `k` on, one by one.
abbrev pub Counts : ℕ → List ℕ → Type 0
Counts k [] = Unit
Counts k (n ∷ ns) = (n ≡ k) × Counts (suc k) ns

Counts-append : (k : ℕ) (ns : List ℕ) → Counts k ns → Counts k (ns ++ (k + length ns) ∷ [])
Counts-append k [] h = (omega arith, tt)
Counts-append k (n ∷ ns) h = (h.0, ground (arith, Counts-append (suc k) ns h.1))

next_seq-Counts : (k : ℕ) (ns : List ℕ) → Counts k ns → max k (next_seq ns) ≡ k + length ns
unfolding next_seq
next_seq-Counts k [] h = omega arith
next_seq-Counts k (n ∷ ns) h = omega (arith, next_seq-Counts (suc k) ns h.1, h.0)

module _ {V : Type 0} where
  -- Each job's events are numbered 0, 1, 2, … in the order of their insertion.
  pub record IsNumbered (db : Store V) : Type 0 where
    pub counts : (id : String) → Counts 0 (seqs_of id db.job_events)

  seqs_of-append :
      (id : String) (e : EventRow V) (rows : List (EventRow V))
      → seqs_of id (rows ++ e ∷ [])
        ≡ (if str_eq e.job_id id then seqs_of id rows ++ e.seq ∷ [] else seqs_of id rows)
  unfolding seqs_of
  seqs_of-append id e [] = ground arith
  seqs_of-append id e (f ∷ rows) = ground (arith, seqs_of-append id e rows)

  persist_event-IsNumbered :
      (id : String) (event : JobEvent V) (db : Store V)
      → IsNumbered db
      → IsNumbered (persist_event id event none db).0
  unfolding persist_event
  persist_event-IsNumbered id event db h =
      let row : EventRow V = record {
        job_id = id;
        seq = next_seq (seqs_of id db.job_events);
        event = event;
      } in
      record {
        counts = λ q. rw (seqs_of-append q row db.job_events) (elim (Bool-cases (str_eq id q)) [
          | inl same ↦ rw same (
              subst
                (λ q.
                  Counts 0 (seqs_of q db.job_events ++ next_seq (seqs_of id db.job_events) ∷ []))
                ((eq_iff id q).0 same)
                (subst (λ n. Counts 0 (seqs_of id db.job_events ++ n ∷ []))
                  (omega (arith, next_seq-Counts 0 (seqs_of id db.job_events) (h.counts id)))
                  (Counts-append 0 (seqs_of id db.job_events) (h.counts id))))
          | inr other ↦ rw other (h.counts q)
        ]);
      }

  submit-IsNumbered :
      (t : Template V) (j : Job V) (force : Bool) (id : String) (now : ℕ) (db : Store V)
      → seqs_of id db.job_events ≡ []
      → IsNumbered db
      → IsNumbered (submit t j force id now db)
  unfolding submit persist_event
  submit-IsNumbered t j force id now db fresh h = record {
    counts = λ q.
        rw
          (seqs_of-append q
            (record { job_id = id; seq = 0; event = plain_event job_queued now none })
            db.job_events)
          (elim (Bool-cases (str_eq id q)) [
            | inl same ↦ rw same (
                subst (λ q. Counts 0 (seqs_of q db.job_events ++ 0 ∷ [])) ((eq_iff id q).0 same)
                  (rw fresh (refl, tt)))
            | inr other ↦ rw other (h.counts q)
          ]);
  }

  reclaim_rows-IsNumbered :
      (exists : ℕ → Bool) (now : ℕ) (rows : List (JobRecord V)) (db : Store V)
      → IsNumbered db
      → IsNumbered (reclaim_rows exists now rows db).0
  unfolding reclaim_rows
  reclaim_rows-IsNumbered exists now [] db h = h
  reclaim_rows-IsNumbered exists now (r ∷ rows) db h =
      if_both (λ (x : Store V × List String). IsNumbered x.0) (is_healthy exists now r)
        (reclaim_rows-IsNumbered exists now rows db h)
        (reclaim_rows-IsNumbered exists now rows (reclaim_row now r.id db)
          (unfold reclaim_row in persist_event-IsNumbered r.id _ _ (record { counts = h.counts })))

  claim_next_queued-IsNumbered :
      (pid now : ℕ) (db : Store V) → IsNumbered db → IsNumbered (claim_next_queued pid now db).0
  claim_next_queued-IsNumbered pid now db h =
      let P = λ (x : Store V × Option (JobRecord V)). IsNumbered x.0 in
      unfold claim_next_queued in
      option_both P (oldest_queued db.jobs) h λ r _.
        unfold claim in
        if_both P (rowcount (λ q. is_queued q.status) r.id db.jobs == 1)
          (persist_event-IsNumbered r.id _ _ (record { counts = h.counts }))
          (record { counts = h.counts })

  Step-IsNumbered : {db after : Store V} → Step db after → IsNumbered db → IsNumbered after
  unfolding heartbeat emit_event terminate cancel reclaim_stale
  Step-IsNumbered (submitted t j force id now db new fresh) h =
      submit-IsNumbered t j force id now db fresh h
  Step-IsNumbered (cancelled id db) h = record { counts = h.counts }
  Step-IsNumbered (claimed pid now db) h = claim_next_queued-IsNumbered pid now db h
  Step-IsNumbered (beat now id db) h = record { counts = h.counts }
  Step-IsNumbered (emitted id event db) h = persist_event-IsNumbered id event db h
  Step-IsNumbered (terminated compute finished r status error db final) h =
      persist_event-IsNumbered r.id _ _ (record { counts = h.counts })
  Step-IsNumbered (reclaimed exists now db) h =
      reclaim_rows-IsNumbered exists now (keep_if (λ r. is_running r.status) db.jobs) db h

  -- Whatever order the transactions come in, the events of each job are numbered from 0 on, without
  -- a gap and in the order in which they are stored, if they were at the start.
  pub Reach-IsNumbered : {db after : Store V} → Reach db after → IsNumbered db → IsNumbered after
  Reach-IsNumbered here h = h
  Reach-IsNumbered (next reach step) h = Step-IsNumbered step (Reach-IsNumbered reach h)

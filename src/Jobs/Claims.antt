-- ===== src/Jobs/Claims.antt =====
-- `claim_next_queued` of server/jobs.py, and the queue in the order of submission.
use astrolab.Prelude.{
  ℕ, ◌≤◌, String, true, ◌≡◌, refl, Option, none, some, List, [], ◌∷◌, ◌++◌, arith, str_eq, eq_iff,
  if◌then◌else◌, ◌==◌, if_both_eq, Option-cases, inl, inr,
}
use astrolab.Jobs.Store.{
  JobRecord, Store, EventRow, is_queued, find_job, update_job, rowcount, next_seq, seqs_of,
  plain_event, job_started, persist_event,
}
use astrolab.Jobs.Worker.{oldest_queued, start, claim, claim_next_queued}
use astrolab.Jobs.Rows.{HasIds, find_job-update_job, rowcount-find_job}

module _ {V : Type 0} where
  pub record IsOldest (r : JobRecord V) (rows : List (JobRecord V)) : Type 0 where
    pub at : find_job r.id rows ≡ some r
    pub is_waiting : is_queued r.status ≡ true
    pub first :
        (id : String) (q : JobRecord V)
        → find_job id rows ≡ some q
        → is_queued q.status ≡ true
        → r.submitted_at ≤ q.submitted_at

  oldest_queued-none :
      (rows : List (JobRecord V)) (id : String) (q : JobRecord V)
      → oldest_queued rows ≡ none
      → find_job id rows ≡ some q
      → is_queued q.status ≡ true
      → ⊥
  unfolding oldest_queued find_job
  oldest_queued-none [] id q e found waits = cc
  oldest_queued-none (r ∷ rows) id q e found waits = ground (arith, oldest_queued-none rows id q)

  oldest_queued-first :
      (rows : List (JobRecord V)) (r : JobRecord V) (id : String) (q : JobRecord V)
      → oldest_queued rows ≡ some r
      → find_job id rows ≡ some q
      → is_queued q.status ≡ true
      → r.submitted_at ≤ q.submitted_at
  unfolding oldest_queued find_job
  oldest_queued-first [] r id q e found waits = cc
  oldest_queued-first (f ∷ rows) r id q e found waits = elim (Option-cases (oldest_queued rows)) [
    | inl none_left ↦ ground (arith, oldest_queued-none rows id q, none_left)
    | inr (g, rest) ↦ ground (arith, oldest_queued-first rows g id q rest, rest)
  ]

  oldest_queued-waiting :
      (rows : List (JobRecord V)) (r : JobRecord V)
      → oldest_queued rows ≡ some r
      → is_queued r.status ≡ true
  unfolding oldest_queued
  oldest_queued-waiting [] r e = cc
  oldest_queued-waiting (f ∷ rows) r e = elim (Option-cases (oldest_queued rows)) [
    | inl none_left ↦ ground (arith, none_left)
    | inr (g, rest) ↦ ground (arith, oldest_queued-waiting rows g rest, rest)
  ]

  oldest_queued-at :
      (rows : List (JobRecord V)) (r : JobRecord V)
      → HasIds rows
      → oldest_queued rows ≡ some r
      → find_job r.id rows ≡ some r
  unfolding oldest_queued find_job
  oldest_queued-at [] r h e = cc
  oldest_queued-at (f ∷ rows) r h e = elim (Option-cases (oldest_queued rows)) [
    | inl none_left ↦ ground (arith, none_left, eq_iff f.id f.id)
    | inr (g, rest) ↦
        ground
          (arith, oldest_queued-at rows g h.1 rest, rest, h.0, eq_iff f.id r.id, eq_iff f.id f.id)
  ]

  abbrev started_row : (now : ℕ) → JobRecord V → Store V → EventRow V
  started_row now r db = record {
    job_id = r.id;
    seq = next_seq (seqs_of r.id db.job_events);
    event = plain_event job_started now none;
  }

  -- The job `r` is claimed: it is given out as running, its row says so, no other row changes, and
  -- one event is logged.
  pub record IsClaimed (pid now : ℕ) (r : JobRecord V) (db : Store V)
      (x : Store V × Option (JobRecord V)) : Type 0 where
    pub given : x.1 ≡ some (start pid now r)
    pub rows :
        (id : String)
        → find_job id x.0.jobs
          ≡ (if str_eq r.id id then some (start pid now r) else find_job id db.jobs)
    pub logged : x.0.job_events ≡ db.job_events ++ started_row now r db ∷ []

  -- The two ways of a claim.
  pub data Claim (pid now : ℕ) (db : Store V) : Store V × Option (JobRecord V) → Type 0 where
    idle :
        ((id : String) (q : JobRecord V)
          → find_job id db.jobs ≡ some q
          → is_queued q.status ≡ true
          → ⊥)
        → Claim pid now db (db, none)
    taken :
        {x : Store V × Option (JobRecord V)} (r : JobRecord V)
        → IsOldest r db.jobs
        → IsClaimed pid now r db x
        → Claim pid now db x

  started-find_job :
      (pid now : ℕ) (r : JobRecord V) (id : String) (rows : List (JobRecord V))
      → find_job r.id rows ≡ some r
      → is_queued r.status ≡ true
      → find_job id (update_job (λ q. is_queued q.status) (start pid now) r.id rows)
        ≡ (if str_eq r.id id then some (start pid now r) else find_job id rows)
  started-find_job pid now r id rows at waits = ground (
    arith,
    find_job-update_job (λ q. is_queued q.status) (start pid now) r.id id rows (λ q. refl),
    eq_iff r.id id,
  )

  claim-IsClaimed :
      (pid now : ℕ) (r : JobRecord V) (db : Store V)
      → HasIds db.jobs
      → IsOldest r db.jobs
      → IsClaimed pid now r db (claim pid now r.id db)
  claim-IsClaimed pid now r db h old =
      let counted : rowcount (λ q. is_queued q.status) r.id db.jobs ≡ 1 = ground (
        arith,
        rowcount-find_job (λ q. is_queued q.status) r.id r db.jobs h old.at,
        old.is_waiting,
      ) in
      unfold claim in
      if_both_eq (IsClaimed pid now r db) (rowcount (λ q. is_queued q.status) r.id db.jobs == 1)
        (λ _.
          unfold persist_event in
          record {
            given = ground (
              arith,
              started-find_job pid now r r.id db.jobs old.at old.is_waiting,
              eq_iff r.id r.id,
            );
            rows = λ id. started-find_job pid now r id db.jobs old.at old.is_waiting;
            logged = refl;
          })
        (λ other. ground (arith, counted, other))

  -- Where the ids are distinct, a claim changes nothing and gives nothing if no job is queued, and
  -- otherwise it gives out a queued job that was submitted no later than any other, as running; its
  -- row says so, all other rows stay, and its start is logged.
  pub claim_next_queued-Claim :
      (pid now : ℕ) (db : Store V)
      → HasIds db.jobs
      → Claim pid now db (claim_next_queued pid now db)
  unfolding claim_next_queued
  claim_next_queued-Claim pid now db h = elim (Option-cases (oldest_queued db.jobs)) [
    | inl e ↦
        rw (claim_next_queued, e)
          (idle (λ id q found waits. oldest_queued-none db.jobs id q e found waits))
    | inr (r, e) ↦
        let old : IsOldest r db.jobs = record {
          at = oldest_queued-at db.jobs r h e;
          is_waiting = oldest_queued-waiting db.jobs r e;
          first = λ id q found waits. oldest_queued-first db.jobs r id q e found waits;
        } in
        rw (claim_next_queued, e) (taken r old (claim-IsClaimed pid now r db h old))
  ]

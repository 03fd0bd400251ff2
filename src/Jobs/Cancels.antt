-- ===== src/Jobs/Cancels.antt =====
-- `cancel` of JobManager and what the worker reads of it, in server/jobs.py.
use astrolab.Prelude.{
  String, Bool, true, ◌≡◌, refl, Option, none, some, arith, str_eq, eq_iff, if◌then◌else◌, ◌||◌,
  Option-cases, inl, inr,
}
use astrolab.Jobs.Store.{JobRecord, Store, is_live, find_job}
use astrolab.Jobs.Manager.{cancel}
use astrolab.Jobs.Worker.{read_cancel}
use astrolab.Jobs.Rows.{HasIds, updated, rowcount-none, find_job-update_job, rowcount-find_job}

module _ {V : Type 0} where
  abbrev is_live_at : Option (JobRecord V) → Bool
  is_live_at none = Bool.false
  is_live_at (some r) = is_live r.status

  abbrev is_asked_at : Option (JobRecord V) → Bool
  is_asked_at none = Bool.false
  is_asked_at (some r) = r.cancel_requested

  -- A row as it was, but for the request where the job is live.
  abbrev pub asked_row : Option (JobRecord V) → Option (JobRecord V)
  asked_row none = none
  asked_row (some r) =
      if is_live r.status then some (record r { cancel_requested = true }) else some r

  -- What a cancellation of `id` leaves.
  pub record IsCancelled (id : String) (db : Store V) (x : Store V × Bool) : Type 0 where
    pub answer : x.1 ≡ is_live_at (find_job id db.jobs)
    pub read :
        read_cancel id x.0 ≡ is_live_at (find_job id db.jobs) || is_asked_at (find_job id db.jobs)
    pub row : find_job id x.0.jobs ≡ asked_row (find_job id db.jobs)
    pub others : (q : String) → str_eq id q ≡ Bool.false → find_job q x.0.jobs ≡ find_job q db.jobs
    pub events : x.0.job_events ≡ db.job_events

  asked :
      (id : String) (db : Store V)
      → find_job id (cancel id db).0.jobs
        ≡ updated
            (λ r. is_live r.status)
            (λ r. record r { cancel_requested = true })
            (find_job id db.jobs)
  unfolding cancel
  asked id db = ground (
    arith,
    find_job-update_job (λ r. is_live r.status) (λ r. record r { cancel_requested = true }) id id
        db.jobs (λ r. refl),
    eq_iff id id,
  )

  -- Where the ids are distinct, `cancel` answers whether the job is live; the worker reads a request
  -- afterwards if the job was live or had one before; the request is all that changes in its row, and
  -- it changes only if the job is live; and no other row and no event changes.
  pub cancel-IsCancelled :
      (id : String) (db : Store V) → HasIds db.jobs → IsCancelled id db (cancel id db)
  unfolding cancel read_cancel
  cancel-IsCancelled id db h = record {
    answer = elim (Option-cases (find_job id db.jobs)) [
      | inl e ↦ ground (arith, e, rowcount-none (λ r. is_live r.status) id db.jobs e)
      | inr (r, e) ↦ ground (arith, e, rowcount-find_job (λ r. is_live r.status) id r db.jobs h e)
    ];
    read = elim (Option-cases (find_job id db.jobs)) [
      | inl e ↦ ground (arith, e, asked id db)
      | inr (r, e) ↦ ground (arith, e, asked id db)
    ];
    row = elim (Option-cases (find_job id db.jobs)) [
      | inl e ↦ ground (arith, e, asked id db)
      | inr (r, e) ↦ ground (arith, e, asked id db)
    ];
    others = λ q ne. ground (
      arith,
      find_job-update_job (λ r. is_live r.status) (λ r. record r { cancel_requested = true }) id q
          db.jobs (λ r. refl),
    );
    events = refl;
  }

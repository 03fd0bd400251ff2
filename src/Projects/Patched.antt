-- ===== src/Projects/Patched.antt =====
-- What `patch` of ProjectManager (server/projects.py) is to leave, and what it makes of the jobs.
use astrolab.Prelude.{
  ℕ, String, ◌≡◌, refl, Bool, true, false, Option, none, some, List, [], ◌∷◌, ◌++◌, arith, ◌==◌,
  if◌then◌else◌, inl, inr, map, str_eq, ◌&&◌, ◌||◌, Option-cases,
}
use astrolab.Dict.{get}
use astrolab.Models.{Overrides}
use astrolab.Jobs.Store.{
  JobStatus, queued, running, completed, failed, interrupted, is_live, JobRecord, Store, job_queued,
  plain_event, find_job, update_job,
}
use astrolab.Jobs.Manager.{cancel, get_job}
use astrolab.Jobs.Rows.{HasIds}
use astrolab.Jobs.Cancels.{cancel-IsCancelled}
use astrolab.Projects.Overrides.{Patch, deep_merge_overrides}
use astrolab.Projects.Records.{HistoryEntry, Project, Manager, Result, return, entry_at, edit}
use astrolab.Projects.Manager.{
  Edit, is_interrupted, submit_with_overrides, cancel_job, patch, collapses, patched_overrides,
  next_entry_seq,
}

-- A job that is in the queue or runs, or that was interrupted.
abbrev is_unfinished : JobStatus → Bool
is_unfinished queued = true
is_unfinished running = true
is_unfinished interrupted = true
is_unfinished completed = false
is_unfinished failed = false

unfinished : (s : JobStatus) → (is_interrupted (some s) || is_live s) ≡ is_unfinished s
unfinished queued = refl
unfinished running = refl
unfinished interrupted = refl
unfinished completed = refl
unfinished failed = refl

module _ {V : Type 0} where
  -- A job that was interrupted or is live: a patch writes over its entry.
  abbrev pub is_overwritten : Option (JobRecord V) → Bool
  is_overwritten none = false
  is_overwritten (some r) = is_unfinished r.status

  pub collapses_lem :
      (prev : HistoryEntry V) (db : Store V)
      → HasIds db.jobs
      → collapses prev db ≡ is_overwritten (find_job prev.job_id db.jobs)
  unfolding collapses get_job
  collapses_lem prev db ids =
      let asks = (cancel-IsCancelled prev.job_id db ids).answer in
      elim (Option-cases (find_job prev.job_id db.jobs)) [
        | inl e ↦ ground (arith, e, asks)
        | inr (r, e) ↦ ground (arith, e, asks, unfinished r.status)
      ]

  -- Where a patch writes: over the current entry, or at the tail.
  abbrev pub patch_seq : Project V → HistoryEntry V → Manager V → ℕ
  patch_seq p prev m =
      if is_overwritten (find_job prev.job_id m.store.jobs) then prev.seq else next_entry_seq p

  -- The overrides that a patch asks for.
  abbrev pub merged : Option (Patch V) → Overrides V → Overrides V
  merged none old = old
  merged (some patch) old = deep_merge_overrides old patch

  -- A row after the cancellation of `id`.
  abbrev pub asked : (id : String) → JobRecord V → JobRecord V
  asked id r =
      if str_eq r.id id && is_live r.status then record r { cancel_requested = true } else r

  -- The row of a new job: the project's template and job with the overrides, in the queue.
  abbrev pub new_row :
      Project V → Overrides V → (force : Bool) (job_id : String) (now : ℕ) → JobRecord V
  new_row p overrides force job_id now = record {
    id = job_id;
    status = queued;
    template = p.template;
    job = record p.base_job { param_overrides = overrides };
    submitted_at = now;
    started_at = none;
    finished_at = none;
    outputs = none;
    error = none;
    force = force;
    quality = none;
    node_hashes = [];
    cancel_requested = false;
    worker_pid = none;
    heartbeat_at = none;
  }

  -- What a patch of `p` leaves, in its result, in the map and in the jobs.
  pub record IsPatched (e : Edit V) (job_id : String) (now : ℕ) (p : Project V)
      (prev : HistoryEntry V) (m : Manager V) (r : Result (Project V) × Manager V) : Type 0 where
    pub project : Project V
    pub entry : HistoryEntry V
    pub returned : r.0 ≡ return project
    pub stored : get p.id r.1.records ≡ some project
    pub at : entry.seq ≡ patch_seq p prev m
    pub job : entry.job_id ≡ job_id
    pub overrides : entry.overrides ≡ merged e.overrides prev.overrides
    pub kind : entry.kind ≡ edit
    pub published :
        entry.published ≡ (is_overwritten (find_job prev.job_id m.store.jobs) && prev.published)
    pub pointer : project.current_seq ≡ patch_seq p prev m
    pub entries :
        (n : ℕ)
        → entry_at n project.history
          ≡ (if n == patch_seq p prev m then some entry else entry_at n p.history)
    pub jobs :
        r.1.store.jobs
        ≡ map (asked prev.job_id) m.store.jobs
          ++ new_row p (merged e.overrides prev.overrides) e.force job_id now ∷ []
    pub events :
        r.1.store.job_events
        ≡ m.store.job_events
          ++ record { job_id = job_id; seq = 0; event = plain_event job_queued now none } ∷ []

  map-asked :
      (id : String) (rows : List (JobRecord V))
      → update_job (λ r. is_live r.status) (λ r. record r { cancel_requested = true }) id rows
        ≡ map (asked id) rows
  unfolding update_job
  map-asked id [] = refl
  map-asked id (r ∷ rows) = ground (arith, map-asked id rows)

  pub merged_lem :
      (e : Edit V) (prev : HistoryEntry V)
      → patched_overrides e prev ≡ merged e.overrides prev.overrides
  unfolding patched_overrides
  merged_lem e prev = elim (Option-cases e.overrides) [
    | inl f ↦ ground (arith, f)
    | inr (patch, f) ↦ ground (arith, f)
  ]

  pub submitted-jobs :
      (e : Edit V) (job_id : String) (now : ℕ) (p : Project V) (prev : HistoryEntry V)
      (m : Manager V)
      → (submit_with_overrides p
          (patched_overrides e prev)
          e.force
          job_id
          now
          (cancel_job prev.job_id m)).store.jobs
        ≡ map (asked prev.job_id) m.store.jobs
          ++ new_row p (merged e.overrides prev.overrides) e.force job_id now ∷ []
  unfolding submit_with_overrides cancel
  submitted-jobs e job_id now p prev m =
      ground (arith, map-asked prev.job_id m.store.jobs, merged_lem e prev)

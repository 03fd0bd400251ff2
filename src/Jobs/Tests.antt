-- ===== src/Jobs/Tests.antt =====
-- Runs of the model of server/jobs.py on small tables, and its theorems at such tables.
use astrolab.Prelude.{ℕ, ◌≤◌, ◌≡◌, refl, false, Option, none, some, [], ◌∷◌, drop}
use astrolab.Models.{Template, Job, auto}
use astrolab.Jobs.Store.{
  Store, JobRecord, JobEvent, interrupted, JobStatus, plain_event, node_started, find_job, seqs_of,
}
use astrolab.Jobs.Manager.{submit, cancel, get_events}
use astrolab.Jobs.Worker.{claim_next_queued, emit_event, reclaim_stale}
use astrolab.Jobs.Steps.{Reach, here, next, submitted, claimed, emitted}
use astrolab.Jobs.Rows.{HasIds}
use astrolab.Jobs.Numbers.{IsNumbered, Reach-IsNumbered}
use astrolab.Jobs.Polling.{get_events-tail}
use astrolab.Jobs.Claims.{Claim, claim_next_queued-Claim}
use astrolab.Jobs.Cancels.{IsCancelled, cancel-IsCancelled}
use astrolab.Jobs.Lifecycle.{stage_at, stage_at-Reach, Reach-HasIds}
use astrolab.Jobs.Reclaim.{reclaimed_row, find_job-reclaim_stale}

abbrev template : Template ℕ
template = record {
  id = "mosaic";
  version = 1;
  description = "";
  profile = none;
  nodes = [];
  outputs = [];
}

abbrev job : Job ℕ
job = record {
  template_id = "mosaic";
  template_version = 1;
  profile_id = none;
  target_id = none;
  session_ids = [];
  calibration = record { mode = auto; master_ids = [] };
  param_overrides = [];
  inputs = [];
  preview_only = false;
}

abbrev empty : Store ℕ
empty = record { jobs = []; job_events = [] }

-- Two jobs are in the queue, the second of which was submitted first.
abbrev one_job : Store ℕ
one_job = submit template job false "a" 20 empty

abbrev two_jobs : Store ℕ
two_jobs = submit template job false "b" 10 one_job

abbrev claimed_store : Store ℕ
claimed_store = (claim_next_queued 77 30 two_jobs).0

abbrev note : JobEvent ℕ
note = plain_event node_started 31 none

abbrev noted : Store ℕ
noted = emit_event "b" note claimed_store

reached : Reach empty noted
unfolding submit find_job seqs_of
reached =
    next
      (next
        (next (next here (submitted template job false "a" 20 empty refl refl))
          (submitted template job false "b" 10 one_job refl refl))
        (claimed 77 30 two_jobs))
      (emitted "b" note claimed_store)

reached_two : Reach empty two_jobs
unfolding submit find_job seqs_of
reached_two =
    next (next here (submitted template job false "a" 20 empty refl refl))
      (submitted template job false "b" 10 one_job refl refl)

abbrev time_of : Option (JobRecord ℕ) → ℕ
time_of none = 0
time_of (some r) = r.submitted_at

claims_oldest : time_of (claim_next_queued 77 30 two_jobs).1 ≡ 10
unfolding claim_next_queued submit
claims_oldest = refl

noted_seqs : seqs_of "b" noted.job_events ≡ 0 ∷ 1 ∷ 2 ∷ []
unfolding emit_event claim_next_queued submit seqs_of
noted_seqs = refl

empty-IsNumbered : IsNumbered empty
unfolding seqs_of
empty-IsNumbered = record { counts = λ id. tt }

Reach-IsNumbered_example : IsNumbered noted
Reach-IsNumbered_example = Reach-IsNumbered reached empty-IsNumbered

get_events-tail_example : get_events "b" (some 0) noted ≡ drop 1 (get_events "b" none noted)
get_events-tail_example = get_events-tail "b" 0 reached empty-IsNumbered

two_jobs-HasIds : HasIds two_jobs.jobs
two_jobs-HasIds = Reach-HasIds reached_two tt

noted-HasIds : HasIds noted.jobs
noted-HasIds = Reach-HasIds reached tt

claim_next_queued-Claim_example : Claim 77 30 two_jobs (claim_next_queued 77 30 two_jobs)
claim_next_queued-Claim_example = claim_next_queued-Claim 77 30 two_jobs two_jobs-HasIds

cancel-IsCancelled_example : IsCancelled "b" noted (cancel "b" noted)
cancel-IsCancelled_example = cancel-IsCancelled "b" noted noted-HasIds

stage_at-Reach_example : stage_at "b" empty ≤ stage_at "b" noted
stage_at-Reach_example = stage_at-Reach "b" reached

find_job-reclaim_stale_example :
    find_job "b" (reclaim_stale (λ pid. false) 40 noted).0.jobs
    ≡ reclaimed_row (λ pid. false) 40 (find_job "b" noted.jobs)
find_job-reclaim_stale_example = find_job-reclaim_stale (λ pid. false) 40 "b" noted noted-HasIds

abbrev status_of : Option (JobRecord ℕ) → Option JobStatus
status_of none = none
status_of (some r) = some r.status

reclaims :
    status_of (find_job "b" (reclaim_stale (λ pid. false) 40 noted).0.jobs) ≡ some interrupted
unfolding reclaim_stale emit_event claim_next_queued submit find_job
reclaims = refl

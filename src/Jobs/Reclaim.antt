-- ===== src/Jobs/Reclaim.antt =====
-- `reclaim_stale` of server/jobs.py: which rows the loop over the running jobs interrupts.
use astrolab.Prelude.{
  ℕ, String, Bool, true, false, ◌≡◌, refl, Option, none, some, List, [], ◌∷◌, arith, str_eq, eq_iff,
  if◌then◌else◌, ◌&&◌, not, keep_if, Bool-cases, inl, inr, ◌∙◌, sym, ap, Option-cases,
}
use astrolab.Jobs.Store.{is_running, JobRecord, Store, find_job, persist_event}
use astrolab.Jobs.Worker.{is_healthy, interrupt, reclaim_row, reclaim_rows, reclaim_stale}
use astrolab.Jobs.Rows.{HasIds, updated, find_job-update_job}

module _ {V : Type 0} where
  -- The loop comes to a row with the id that `bad` holds of.
  abbrev hit : (JobRecord V → Bool) → String → List (JobRecord V) → Bool
  hit bad id [] = false
  hit bad id (r ∷ rows) = if str_eq r.id id && bad r then true else hit bad id rows

  hit-none :
      (bad : JobRecord V → Bool) (id : String) (rows : List (JobRecord V))
      → find_job id rows ≡ none
      → hit bad id (keep_if (λ r. is_running r.status) rows) ≡ false
  unfolding find_job
  hit-none bad id [] e = refl
  hit-none bad id (r ∷ rows) e = ground (arith, hit-none bad id rows)

  hit-find_job :
      (bad : JobRecord V → Bool) (id : String) (r : JobRecord V) (rows : List (JobRecord V))
      → HasIds rows
      → find_job id rows ≡ some r
      → hit bad id (keep_if (λ r. is_running r.status) rows) ≡ is_running r.status && bad r
  unfolding find_job
  hit-find_job bad id r [] h e = cc
  hit-find_job bad id r (f ∷ rows) h e =
      ground (arith, hit-find_job bad id r rows, hit-none bad id rows, eq_iff f.id id, h.0)

  reclaim_row-find_job :
      (now : ℕ) (i id : String) (db : Store V)
      → find_job id (reclaim_row now i db).jobs ≡ (
          if str_eq i id
          then updated (λ r. is_running r.status) (interrupt now) (find_job id db.jobs)
          else find_job id db.jobs)
  unfolding reclaim_row persist_event
  reclaim_row-find_job now i id db =
      find_job-update_job (λ r. is_running r.status) (interrupt now) i id db.jobs (λ r. refl)

  abbrev swept : (now : ℕ) → Bool → Option (JobRecord V) → Option (JobRecord V)
  swept now hits = updated (λ r. is_running r.status && hits) (interrupt now)

  swept-nothing : (now : ℕ) (o : Option (JobRecord V)) → swept now false o ≡ o
  swept-nothing now none = refl
  swept-nothing now (some r) = ground arith

  swept-twice :
      (now : ℕ) (a b : Bool) (o : Option (JobRecord V))
      → swept now b (if a then updated (λ r. is_running r.status) (interrupt now) o else o)
        ≡ swept now (if a && true then true else b) o
  swept-twice now true b none = refl
  swept-twice now true b (some r) = ground arith
  swept-twice now false b o = refl

  reclaim_rows-find_job :
      (exists : ℕ → Bool) (now : ℕ) (id : String) (rows : List (JobRecord V)) (db : Store V)
      → find_job id (reclaim_rows exists now rows db).0.jobs
        ≡ updated
            (λ r. is_running r.status && hit (λ q. not (is_healthy exists now q)) id rows)
            (interrupt now)
            (find_job id db.jobs)
  unfolding reclaim_rows
  reclaim_rows-find_job exists now id [] db = sym (swept-nothing now (find_job id db.jobs))
  reclaim_rows-find_job exists now id (r ∷ rows) db = elim (Bool-cases (is_healthy exists now r)) [
    | inl c ↦ rw c (ground (arith, reclaim_rows-find_job exists now id rows db))
    | inr c ↦ rw c (
        reclaim_rows-find_job exists now id rows (reclaim_row now r.id db)
        ∙ ap (swept now (hit (λ q. not (is_healthy exists now q)) id rows))
            (reclaim_row-find_job now r.id id db)
        ∙ swept-twice now (str_eq r.id id) (hit (λ q. not (is_healthy exists now q)) id rows)
            (find_job id db.jobs))
  ]

  -- What the row of a running job should become: interrupted, if its process is gone or its
  -- heartbeat is stale.
  abbrev pub reclaimed_row : (ℕ → Bool) → (now : ℕ) → Option (JobRecord V) → Option (JobRecord V)
  reclaimed_row exists now =
      updated (λ r. is_running r.status && not (is_healthy exists now r)) (interrupt now)

  -- Where the ids are distinct, a reclaim interrupts exactly the running jobs whose process is gone
  -- or whose heartbeat is stale, and leaves every other row as it is.
  pub find_job-reclaim_stale :
      (exists : ℕ → Bool) (now : ℕ) (id : String) (db : Store V)
      → HasIds db.jobs
      → find_job id (reclaim_stale exists now db).0.jobs
        ≡ reclaimed_row exists now (find_job id db.jobs)
  unfolding reclaim_stale
  find_job-reclaim_stale exists now id db h =
      reclaim_rows-find_job exists now id (keep_if (λ r. is_running r.status) db.jobs) db
      ∙ elim (Option-cases (find_job id db.jobs)) [
        | inl e ↦ rw e refl
        | inr (r, e) ↦
            ground (arith, e, hit-find_job (λ q. not (is_healthy exists now q)) id r db.jobs h e)
      ]

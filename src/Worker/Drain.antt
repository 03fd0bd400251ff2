-- ===== src/Worker/Drain.antt =====
-- What the loop of server/worker.py still does once it is told to stop.
use astrolab.Prelude.{String, Bool, true, false, ◌≡◌, refl, arith}
use astrolab.Jobs.Store.{Store}
use astrolab.Worker.{
  Loop, Phase, boot, idle, exited, taken, running, on_term, poll, usr1, term, booted, polled,
  forwarded, written, returned, Run, here, next,
}

abbrev pub is_taken : Phase → Bool
is_taken (taken id) = true
is_taken _ = false

-- At the head of the loop, in a run or after the loop.
abbrev is_quiet : Phase → Bool
is_quiet boot = false
is_quiet (taken id) = false
is_quiet _ = true

module _ {V : Type 0} where
  -- The tables as others last left them on the way, the job's own run and the monitor included, or as
  -- they were at its start.
  abbrev pub left_by_others : (start : Store V) → {l k : Loop V} → Run l k → Store V
  left_by_others start here = start
  left_by_others start (next run (written p s db after)) = after
  left_by_others start (next run (returned id s db after)) = after
  left_by_others start (next run (usr1 l)) = left_by_others start run
  left_by_others start (next run (term l)) = left_by_others start run
  left_by_others start (next run (booted exists now s db)) = left_by_others start run
  left_by_others start (next run (polled pid now s db)) = left_by_others start run
  left_by_others start (next run (forwarded id s db)) = left_by_others start run

  record IsDraining (store : Store V) (l : Loop V) : Type 0 where
    pub stopped : l.shutdown.stop ≡ true
    pub quiet : is_quiet l.phase ≡ true
    pub kept : l.store ≡ store

  Run-IsDraining :
      (start : Store V) {l k : Loop V} (run : Run l k)
      → IsDraining start l
      → IsDraining (left_by_others start run) k
  unfolding poll
  Run-IsDraining start here d = d
  Run-IsDraining start (next run (usr1 l)) d =
      let e = Run-IsDraining start run d in
      record { stopped = refl; quiet = e.quiet; kept = e.kept }
  Run-IsDraining start (next run (term l)) d =
      let e = Run-IsDraining start run d in
      record { stopped = refl; quiet = e.quiet; kept = e.kept }
  Run-IsDraining start (next run (booted exists now s db)) d =
      absurd (let e = Run-IsDraining start run d in ground (arith, e.quiet))
  Run-IsDraining start (next run (polled pid now s db)) d =
      let e = Run-IsDraining start run d in
      record {
        stopped = ground (arith, e.stopped);
        quiet = ground (arith, e.stopped);
        kept = ground (arith, e.stopped, e.kept);
      }
  Run-IsDraining start (next run (forwarded id s db)) d =
      absurd (let e = Run-IsDraining start run d in ground (arith, e.quiet))
  Run-IsDraining start (next run (written p s db after)) d =
      let e = Run-IsDraining start run d in
      record { stopped = e.stopped; quiet = e.quiet; kept = refl }
  Run-IsDraining start (next run (returned id s db after)) d =
      let e = Run-IsDraining start run d in
      record { stopped = e.stopped; quiet = refl; kept = refl }

  -- Once SIGTERM comes while a job runs, then in whatever comes after, the loop is never again at the
  -- place where it forwards the cancellation to a job, and it stays told to stop. The signal and the
  -- loop write nothing to the tables, so that neither asks for the cancellation of the running job:
  -- they are as they were before the signal, or as others last left them.
  pub is_taken-on_term :
      (id : String) (l k : Loop V)
      → l.phase ≡ running id
      → (run : Run (on_term l) k)
      → (is_taken k.phase ≡ false)
        × (k.shutdown.stop ≡ true)
        × (k.store ≡ left_by_others l.store run)
  is_taken-on_term id l k at run =
      let d =
        Run-IsDraining l.store run
          (record { stopped = refl; quiet = ground (arith, at); kept = refl }) in
      (not_taken k.phase d.quiet, d.stopped, d.kept)
    where
      not_taken : (p : Phase) → is_quiet p ≡ true → is_taken p ≡ false
      not_taken boot q = refl
      not_taken idle q = refl
      not_taken exited q = refl
      not_taken (taken id) q = absurd (ground (arith, q))
      not_taken (running id) q = refl

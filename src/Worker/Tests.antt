-- ===== src/Worker/Tests.antt =====
-- A run of the model of server/worker.py, and its theorem there.
use astrolab.Prelude.{ℕ, ◌≡◌, refl, true, false, []}
use astrolab.Jobs.Store.{Store}
use astrolab.Worker.{Loop, idle, exited, running, on_term, poll, Run, here, next, returned, polled}
use astrolab.Worker.Drain.{is_taken, left_by_others, is_taken-on_term}

abbrev empty : Store ℕ
empty = record { jobs = []; job_events = [] }

abbrev busy : Loop ℕ
busy = record {
  phase = running "a";
  shutdown = record { stop = false; cancel_current = false };
  store = empty;
}

abbrev told : Loop ℕ
told = record {
  phase = idle;
  shutdown = record { stop = true; cancel_current = true };
  store = empty;
}

-- The job runs to its end, and then the loop ends.
drained : Run (on_term busy) (poll 7 1 told)
drained = next (next here (returned "a" told.shutdown empty empty)) (polled 7 1 told.shutdown empty)

exits : poll 7 1 told ≡ record told { phase = exited }
unfolding poll
exits = refl

is_taken-on_term_example :
    (is_taken (poll 7 1 told).phase ≡ false)
    × ((poll 7 1 told).shutdown.stop ≡ true)
    × ((poll 7 1 told).store ≡ left_by_others empty drained)
is_taken-on_term_example = is_taken-on_term "a" busy (poll 7 1 told) refl drained

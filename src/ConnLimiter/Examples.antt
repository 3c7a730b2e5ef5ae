-- ===== src/ConnLimiter/Examples.antt =====
-- A burst of three goroutines on a limiter of two.
use knowoff.Prelude.{ℕ, ◌≤◌, ◌≡◌, List, [], ◌∷◌, arith, refl, modify}
use knowoff.ConnLimiter.{schedule_run, step, try_acquire, compare_and_swap, become}
use knowoff.ConnLimiter.Schedules.{connections, new_conn_limiter, schedule-connections}

-- All three load the counter before the first swaps, and two of them try again.
abbrev burst : List ℕ
burst = 0 ∷ 1 ∷ 2 ∷ 1 ∷ 0 ∷ 2 ∷ 0 ∷ 2 ∷ 0 ∷ 2 ∷ []

two_connected : connections (schedule_run (new_conn_limiter 2 3) burst).goroutines ≡ 2
unfolding schedule_run step try_acquire compare_and_swap become modify
two_connected = refl

schedule-connections_example :
    ((schedule_run (new_conn_limiter 2 3) burst).current
      ≡ connections (schedule_run (new_conn_limiter 2 3) burst).goroutines)
    × (connections (schedule_run (new_conn_limiter 2 3) burst).goroutines ≤ 2)
schedule-connections_example = schedule-connections 2 3 burst (omega arith)

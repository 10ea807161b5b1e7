-- ===== src/Worker/Examples.antt =====
-- A witness: a cycle that is stopped after its first heartbeat.
use daily_firehose.Common.{◌≡◌, refl, true, some, [], ◌∷◌, count, ◌==◌, ok}
use daily_firehose.Jobs.Row.{runs_as}
use daily_firehose.Jobs.Ownership.{new_run, acquire_job}
use daily_firehose.Worker.{Cycle, refresh_job, cycle_status, cycle}
use daily_firehose.Worker.Frees.{cycle-frees}

abbrev short_cycle : Cycle
short_cycle = record {
  started_at = 5000;
  beats_at = 5060 ∷ [];
  ended_at = 5070;
  others = λ t rows. new_run 9 t "deliver_saved" "d" "host:2" ∷ rows;
  stopped = λ n. n == 0;
  results = [];
  raised = true;
}

cycle-frees_example :
    let (status, after) =
      cycle short_cycle 300 2 "b" "host:2" (new_run 1 100 refresh_job "a" "host:1" ∷ []) in
    (status ≡ some (cycle_status short_cycle))
    × (count (runs_as refresh_job) after ≡ 0)
    × ((acquire_job 5071 300 [] 3 refresh_job "c" "host:3" after).0
        ≡ ok (new_run 3 5071 refresh_job "c" "host:3"))
unfolding new_run
cycle-frees_example =
    cycle-frees short_cycle 300 2 "b" "host:2" (new_run 1 100 refresh_job "a" "host:1" ∷ []) 5071 3
      "c" "host:3" (λ t rows. refl) refl

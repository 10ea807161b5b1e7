-- ===== src/Jobs/Examples.antt =====
-- Witnesses: a worker that died, its successor, and the page that reports them.
use daily_firehose.Common.{
  suc, min, ◌≡◌, refl, true, false, [], ◌∷◌, any, count, if◌then◌else◌, ◌⊎◌, ok, err,
}
use daily_firehose.Jobs.Row.{failed, JobRun, is_failed, runs_as}
use daily_firehose.Jobs.Ownership.{job_already_running, new_run, acquire_job, Counts, finish_job}
use daily_firehose.Jobs.Ownership.Exclusive.{is_held, acquire-grants}
use daily_firehose.Jobs.Health.{newer, consecutive_failures, Limits}
use daily_firehose.Jobs.Health.Streak.{finish-streak}

abbrev first_run : JobRun
unfolding new_run
first_run = new_run 1 100 "refresh_feeds" "a" "host:1"

abbrev second_run : JobRun
unfolding new_run
second_run = new_run 2 5000 "refresh_feeds" "b" "host:2"

abbrev nothing_done : Counts
nothing_done = record {
  checked = 0;
  attempted = 0;
  succeeded = 0;
  failed = 0;
  skipped = 0;
  superseded = 0;
}

abbrev page_limits : Limits
page_limits = record { heartbeat_age = 900; success_age = 7200 }

acquire-grants_example :
    let result = acquire_job 5000 300 [] 2 "refresh_feeds" "b" "host:2" (first_run ∷ []) in
    ((any (is_held 5000 300 "refresh_feeds") (first_run ∷ []) ≡ true)
      × (result ≡ (err job_already_running, first_run ∷ [])))
    ⊎ ((any (is_held 5000 300 "refresh_feeds") (first_run ∷ []) ≡ false)
        × (result.0 ≡ ok (new_run 2 5000 "refresh_feeds" "b" "host:2"))
        × (count (runs_as "refresh_feeds") result.1 ≡ 1))
acquire-grants_example = acquire-grants 5000 300 2 "refresh_feeds" "b" "host:2" (first_run ∷ [])

finish-streak_example :
    consecutive_failures "refresh_feeds"
      (finish_job 2 5100 failed nothing_done "unexpected_error" "No." (second_run ∷ first_run ∷ []))
    ≡ (if is_failed failed
        then min 50 (suc (consecutive_failures "refresh_feeds" (first_run ∷ [])))
        else 0)
unfolding newer first_run
finish-streak_example =
    finish-streak 5100 failed nothing_done "unexpected_error" "No." second_run (first_run ∷ []) refl
      (refl, tt) (refl, tt)

-- ===== src/Worker.antt =====
-- One cycle of the supervised worker: `Command._cycle` of
-- `feeds/management/commands/run_refresh_worker.py`. What the refresh yields before it ends or
-- raises is an input, as are the times at which the worker sends a heartbeat.
use daily_firehose.Common.{
  ℕ, String, Bool, true, false, Option, none, some, List, [], ◌∷◌, Result, ok, err,
}
use daily_firehose.Refresh.Outcome.{RefreshResult}
use daily_firehose.Refresh.Cycle.{CycleCounts, no_counts, count_cycle}
use daily_firehose.Jobs.Row.{Status, succeeded, failed, interrupted, JobRun}
use daily_firehose.Jobs.Ownership.{AcquireError, acquire_job, heartbeat, Counts, finish_job}
pub mod Frees
mod Examples

-- `REFRESH_JOB`
abbrev pub refresh_job : String
refresh_job = "refresh_feeds"

abbrev pub as_job_counts : CycleCounts → Counts
as_job_counts c = record {
  checked = c.checked;
  attempted = c.attempted;
  succeeded = c.succeeded;
  failed = c.failed;
  skipped = c.skipped;
  superseded = c.superseded;
}

-- how the run ends: stopped between two feeds, or by an exception, or after the last feed
abbrev pub end_status : Bool → Bool → Status
end_status true raised = interrupted
end_status false true = failed
end_status false false = succeeded

abbrev pub end_error : Status → String × String
end_error interrupted = ("stopped", "The worker was asked to stop.")
end_error failed = ("unexpected_error", "The refresh cycle raised an unexpected error.")
end_error _ = ("", "")

-- the heartbeats; `others t` is what other processes have committed to the table by the time `t`
unfoldable pub heartbeats : (ℕ → List JobRun → List JobRun) → ℕ → List ℕ → List JobRun → List JobRun
heartbeats others id [] rows = rows
heartbeats others id (t ∷ rest) rows = heartbeats others id rest (heartbeat id t (others t rows))

-- What one cycle is given: the clock at its start and end and at its heartbeats, what other
-- processes do to the table after its claim, the stop requests, and what the refresh yields.
pub record Cycle : Type 0 where
  pub started_at : ℕ
  pub beats_at : List ℕ
  pub ended_at : ℕ
  pub others : ℕ → List JobRun → List JobRun
  pub stopped : ℕ → Bool
  pub results : List RefreshResult
  pub raised : Bool

unfoldable pub cycle_status : Cycle → Status
cycle_status c = end_status (count_cycle c.stopped no_counts c.results).1 c.raised

unfoldable pub finish_cycle : Cycle → ℕ → List JobRun → List JobRun
finish_cycle c id rows =
    let (counts, was_stopped) = count_cycle c.stopped no_counts c.results in
    let (code, message) = end_error (cycle_status c) in
    finish_job id c.ended_at (cycle_status c) (as_job_counts counts) code message
      (c.others c.ended_at (heartbeats c.others id c.beats_at rows))

abbrev pub after_claim :
    Cycle → ℕ → Result AcquireError JobRun × List JobRun → Option Status × List JobRun
after_claim c id (err e, rows) = (none, rows)
after_claim c id (ok run, rows) = (some (cycle_status c), finish_cycle c id rows)

-- a cycle that finds the job running is skipped
unfoldable pub cycle : Cycle → ℕ → ℕ → String → String → List JobRun → Option Status × List JobRun
cycle c lease id correlation_id owner rows =
    after_claim c id (acquire_job c.started_at lease [] id refresh_job correlation_id owner rows)

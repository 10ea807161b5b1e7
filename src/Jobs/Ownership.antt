-- ===== src/Jobs/Ownership.antt =====
-- `acquire_job`, `heartbeat` and `finish_job` of `feeds/jobs.py`.
use daily_firehose.Common.{
  ℕ, ◌+◌, String, Bool, true, false, not, ◌&&◌, Option, none, some, List, [], ◌∷◌, ◌++◌, map, any,
  ltb, ◌==◌, if◌then◌else◌, Result, ok, err, ◌>>=◌,
}
use daily_firehose.Jobs.Row.{Status, running, interrupted, JobRun, is_running, runs_as}
pub mod Exclusive

pub data AcquireError : Type 0 where
  job_already_running : AcquireError

-- `run.heartbeat_at > now - lease`
abbrev pub is_live : ℕ → ℕ → JobRun → Bool
is_live now lease r = ltb now (r.heartbeat_at + lease)

unfoldable pub interrupt : ℕ → JobRun → JobRun
interrupt now r = record r {
  status = interrupted;
  finished_at = some now;
  error_code = "lease_expired";
  error_message = "The owning worker stopped sending heartbeats.";
}

-- the loop over the running rows of the name
unfoldable pub reclaim : ℕ → ℕ → String → List JobRun → Result AcquireError (List JobRun)
reclaim now lease name [] = ok []
reclaim now lease name (r ∷ rest) =
    let reclaimed = reclaim now lease name rest in
    if runs_as name r
    then if is_live now lease r
      then err job_already_running
      else (reclaimed >>= λ rows. ok (interrupt now r ∷ rows))
    else (reclaimed >>= λ rows. ok (r ∷ rows))

unfoldable pub new_run : ℕ → ℕ → String → String → String → JobRun
new_run id now name correlation_id owner = record {
  id = id;
  name = name;
  correlation_id = correlation_id;
  owner = owner;
  status = running;
  started_at = now;
  heartbeat_at = now;
  finished_at = none;
  checked = 0;
  attempted = 0;
  succeeded = 0;
  failed = 0;
  skipped = 0;
  superseded = 0;
  error_code = "";
  error_message = "";
}

-- the insert, which meets the unique constraint when a running row has the name
abbrev pub insert_run : JobRun → List JobRun → Result AcquireError (List JobRun)
insert_run run rows =
    if any (runs_as run.name) rows then err job_already_running else ok (run ∷ rows)

-- an exception rolls the transaction back
abbrev pub end_transaction :
    JobRun
    → List JobRun
    → Result AcquireError (List JobRun)
    → Result AcquireError JobRun × List JobRun
end_transaction run before (err e) = (err e, before)
end_transaction run before (ok after) = (ok run, after)

-- The transaction; a refused one leaves what other workers committed.
-- `meanwhile` holds the rows that they insert between the loop and this insert.
unfoldable pub acquire_job :
    ℕ
    → ℕ
    → List JobRun
    → ℕ
    → String
    → String
    → String
    → List JobRun
    → Result AcquireError JobRun × List JobRun
acquire_job now lease meanwhile id name correlation_id owner rows =
    let run = new_run id now name correlation_id owner in
    end_transaction run (meanwhile ++ rows)
      (reclaim now lease name rows >>= λ kept. insert_run run (meanwhile ++ kept))

-- the `update` of the row with the run's key, if it is still running
unfoldable pub beat : ℕ → ℕ → JobRun → JobRun
beat id now r = if (r.id == id) && is_running r.status then record r { heartbeat_at = now } else r

unfoldable pub heartbeat : ℕ → ℕ → List JobRun → List JobRun
heartbeat id now rows = map (beat id now) rows

pub record Counts : Type 0 where
  pub checked : ℕ
  pub attempted : ℕ
  pub succeeded : ℕ
  pub failed : ℕ
  pub skipped : ℕ
  pub superseded : ℕ

unfoldable pub finished : ℕ → Status → Counts → String → String → JobRun → JobRun
finished now status counts code message r = record r {
  status = status;
  finished_at = some now;
  heartbeat_at = now;
  checked = counts.checked;
  attempted = counts.attempted;
  succeeded = counts.succeeded;
  failed = counts.failed;
  skipped = counts.skipped;
  superseded = counts.superseded;
  error_code = code;
  error_message = message;
}

-- `run.save(update_fields=...)` at the row with the run's key, whatever its status
unfoldable pub finish_job : ℕ → ℕ → Status → Counts → String → String → List JobRun → List JobRun
finish_job id now status counts code message rows =
    map (λ r. if r.id == id then finished now status counts code message r else r) rows

-- ===== src/Jobs/Row.antt =====
-- A row of the job table: `JobRun` of `feeds/models.py`.
use daily_firehose.Common.{ℕ, String, Bool, true, false, Option, str_eq, ◌&&◌}

pub data Status : Type 0 where
  running succeeded failed interrupted : Status

pub record JobRun : Type 0 where
  pub id : ℕ
  pub name : String
  pub correlation_id : String
  pub owner : String
  pub status : Status
  pub started_at : ℕ
  pub heartbeat_at : ℕ
  pub finished_at : Option ℕ
  pub checked : ℕ
  pub attempted : ℕ
  pub succeeded : ℕ
  pub failed : ℕ
  pub skipped : ℕ
  pub superseded : ℕ
  pub error_code : String
  pub error_message : String

abbrev pub is_running : Status → Bool
is_running running = true
is_running _ = false

abbrev pub is_failed : Status → Bool
is_failed failed = true
is_failed _ = false

abbrev pub is_succeeded : Status → Bool
is_succeeded succeeded = true
is_succeeded _ = false

-- the rows that the partial unique constraint `unique_running_job_run` counts
abbrev pub runs_as : String → JobRun → Bool
runs_as name r = str_eq r.name name && is_running r.status

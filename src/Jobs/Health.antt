-- ===== src/Jobs/Health.antt =====
-- `_consecutive_failures` and `job_health` of `feeds/jobs.py`. Seconds are microseconds here; the
-- rounding of a reported age is a parameter, and the settings are arguments.
use daily_firehose.Common.{
  ℕ, zero, suc, ◌-◌, String, Bool, true, false, ◌&&◌, ◌||◌, not, Option, none, some, List, [], ◌∷◌,
  filter, take, map, ltb, ◌==◌, if◌then◌else◌, str_eq, sort_by,
}
use daily_firehose.Jobs.Row.{Status, failed, JobRun, is_running, is_failed, is_succeeded}
pub mod Streak

module _ {ℓ} {A : Type ℓ} where
  abbrev pub first_of : List A → Option A
  first_of [] = none
  first_of (x ∷ rest) = some x

-- `order_by("-started_at", "-id")`
unfoldable pub newer : JobRun → JobRun → Bool
newer a b = ltb b.started_at a.started_at || ((a.started_at == b.started_at) && ltb b.id a.id)

abbrev pub has_name : String → JobRun → Bool
has_name name r = str_eq r.name name

abbrev pub history : String → List JobRun → List JobRun
history name runs = sort_by newer (filter (has_name name) runs)

unfoldable pub leading_failures : List Status → ℕ
leading_failures [] = 0
leading_failures (status ∷ rest) =
    let more = leading_failures rest in if is_failed status then suc more else 0

-- the runs that ended, the newest fifty of them
unfoldable pub consecutive_failures : String → List JobRun → ℕ
consecutive_failures name runs = leading_failures (
    map (λ r. r.status)
      (take 50 (sort_by newer (filter (λ r. has_name name r && not (is_running r.status)) runs))))

-- `order_by("-finished_at")`; PostgreSQL puts NULL first
unfoldable pub finished_later : Option ℕ → Option ℕ → Bool
finished_later none t = true
finished_later (some s) none = false
finished_later (some s) (some t) = ltb t s

abbrev finish_of : Option JobRun → Option ℕ
finish_of none = none
finish_of (some r) = r.finished_at

unfoldable pub last_success : String → List JobRun → Option ℕ
last_success name runs = finish_of (
    first_of (
      sort_by (λ a b. finished_later a.finished_at b.finished_at)
        (filter (λ r. has_name name r && is_succeeded r.status) runs)))

pub record JobHealth : Type 0 where
  pub name : String
  pub status : Option Status
  pub correlation_id : String
  pub started_at : Option ℕ
  pub heartbeat_at : Option ℕ
  pub finished_at : Option ℕ
  pub last_success_at : Option ℕ
  pub consecutive_failures : ℕ
  pub heartbeat_age : Option ℕ
  pub success_age : Option ℕ
  pub stale : Bool

-- the answer for a job with no run; a `status` of none stands for "never_run"
abbrev never_run : String → JobHealth
never_run name = record {
  name = name;
  status = none;
  correlation_id = "";
  started_at = none;
  heartbeat_at = none;
  finished_at = none;
  last_success_at = none;
  consecutive_failures = 0;
  heartbeat_age = none;
  success_age = none;
  stale = true;
}

-- the time since then, and 0 for a time in the future
abbrev pub age_of : ℕ → Option ℕ → Option ℕ
age_of now none = none
age_of now (some t) = some (now - t)

abbrev pub exceeds : Option ℕ → ℕ → Bool
exceeds none limit = true
exceeds (some age) limit = ltb limit age

pub record Limits : Type 0 where
  pub heartbeat_age : ℕ
  pub success_age : ℕ

abbrev pub is_stale : Limits → ℕ → JobRun → Option ℕ → Bool
is_stale limits now latest success =
    if is_running latest.status
    then ltb limits.heartbeat_age (now - latest.heartbeat_at)
    else exceeds (age_of now success) limits.success_age

module _ (rounded : ℕ → ℕ) (limits : Limits) where
  abbrev rounded_age : Option ℕ → Option ℕ
  rounded_age none = none
  rounded_age (some age) = some (rounded age)

  abbrev pub health_of : ℕ → String → List JobRun → Option ℕ → Option JobRun → JobHealth
  health_of now name runs success none = never_run name
  health_of now name runs success (some latest) = record {
    name = name;
    status = some latest.status;
    correlation_id = latest.correlation_id;
    started_at = some latest.started_at;
    heartbeat_at = some latest.heartbeat_at;
    finished_at = latest.finished_at;
    last_success_at = success;
    consecutive_failures = consecutive_failures name runs;
    heartbeat_age = some (rounded (now - latest.heartbeat_at));
    success_age = rounded_age (age_of now success);
    stale = is_stale limits now latest success;
  }

  unfoldable pub job_health : ℕ → String → List JobRun → JobHealth
  job_health now name runs =
      health_of now name runs (last_success name runs) (first_of (history name runs))

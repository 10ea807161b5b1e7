-- ===== src/Refresh/Outcome.antt =====
-- `RefreshResult` of feeds/services.py: its fields, the checks of `__post_init__`, its status, and
-- `_superseded_result`. Counts and durations are natural numbers here, so the checks that they
-- are integers, finite and not negative always pass.
use daily_firehose.Common.{
  ℕ, String, Bool, true, false, not, ◌||◌, Option, none, some, is_some, is_none, truthy, ltb,
  if◌then◌else◌,
}
use daily_firehose.Refresh.Feed.{Feed}

pub record RefreshResult : Type 0 where
  pub feed : Feed
  pub created : ℕ
  pub updated : ℕ
  pub success : Bool
  pub skipped : Bool
  pub duration_seconds : ℕ
  pub error_code : String
  pub error_message : String
  pub next_retry_at : Option ℕ
  pub superseded : Bool

abbrev has_writes : RefreshResult → Bool
has_writes r = ltb 0 r.created || ltb 0 r.updated

abbrev lacks_metadata : RefreshResult → Bool
lacks_metadata r = not (truthy r.error_code) || not (truthy r.error_message)

-- The message of the `ValueError` that the constructor raises.
unfoldable pub post_init : RefreshResult → Option String
post_init r =
    if r.superseded
    then if r.success || r.skipped
      then some "a superseded refresh cannot succeed or be skipped"
      else if has_writes r
      then some "a superseded refresh cannot contain write counts"
      else if lacks_metadata r
      then some "a superseded refresh requires safe status metadata"
      else none
    else if r.success
    then if r.skipped
      then some "a successful refresh cannot be skipped"
      else if truthy r.error_code || truthy r.error_message || is_some r.next_retry_at
      then some "a successful refresh cannot contain failure metadata"
      else none
    else if has_writes r
    then some "a failed or skipped refresh cannot contain write counts"
    else if lacks_metadata r
    then some "a failed or skipped refresh requires safe error metadata"
    else if is_none r.next_retry_at
    then some "a failed or skipped refresh requires next_retry_at"
    else none

pub data Status : Type 0 where
  succeeded failed skipped superseded : Status

unfoldable pub status : RefreshResult → Status
status r =
    if r.superseded
    then Status.superseded
    else if r.skipped
    then Status.skipped
    else if r.success
    then Status.succeeded
    else Status.failed

-- the fields that `RefreshResult(feed=...)` leaves at their defaults
abbrev pub default_result : Feed → RefreshResult
default_result feed = record {
  feed = feed;
  created = 0;
  updated = 0;
  success = true;
  skipped = false;
  duration_seconds = 0;
  error_code = "";
  error_message = "";
  next_retry_at = none;
  superseded = false;
}

unfoldable pub superseded_result : Feed → ℕ → RefreshResult
superseded_result feed duration = record (default_result feed) {
  success = false;
  superseded = true;
  duration_seconds = duration;
  error_code = "superseded";
  error_message = "A newer refresh attempt owns the persisted feed status.";
  next_retry_at = feed.next_retry_at;
}

-- ===== src/Refresh/Fence.antt =====
-- The completion fence of feeds/services.py: `_retry_delay`, `_claim_refresh_attempt`,
-- `_record_refresh_failure` and `_refresh_failure`, and what a successful refresh writes.
pub mod Bounds
use daily_firehose.Common.{
  ℕ, ◌+◌, ◌-◌, ◌*◌, ◌^◌, min, max, String, Bool, true, false, Option, none, some, ◌==◌,
  if◌then◌else◌, truthy, or_else, minute,
}
use daily_firehose.Refresh.Feed.{Feed, FeedStore}

-- _REFRESH_BACKOFF_BASE, _REFRESH_BACKOFF_CAP
abbrev pub backoff_base : ℕ
backoff_base = 5 * minute

abbrev pub backoff_cap : ℕ
backoff_cap = 1440 * minute

-- subtraction stops at 0, as `max(consecutive_failures - 1, 0)` does
pub retry_delay : ℕ → ℕ
retry_delay failures = min (backoff_base * 2 ^ min (max (failures - 1) 0) 16) backoff_cap

-- `_claim_refresh_attempt`: the new row, and the generation that this attempt owns
unfoldable pub claim_refresh_attempt : ℕ → ℕ → Feed → Feed × ℕ
claim_refresh_attempt attempted_at now stored = (
  record stored {
    refresh_generation = stored.refresh_generation + 1;
    last_attempt_at = some attempted_at;
    updated_at = now;
  },
  stored.refresh_generation + 1,
)

-- the transaction of `_record_refresh_failure`: the new row, and whether the attempt owned it
unfoldable pub record_refresh_failure : ℕ → String → String → ℕ → ℕ → Feed → Feed × Bool
record_refresh_failure generation code message failed_at now stored =
    if stored.refresh_generation == generation
    then (
      record stored {
        consecutive_failures = stored.consecutive_failures + 1;
        last_error_code = code;
        last_error_message = message;
        next_retry_at = some (failed_at + retry_delay (stored.consecutive_failures + 1));
        updated_at = now;
      },
      true,
    )
    else (stored, false)

-- What the parsed document says of the feed itself; a missing key is `""`.
pub record FeedInfo : Type 0 where
  pub title : String
  pub link : String
  pub subtitle : String
  pub description : String

-- the assignments to `stored_feed` after the articles are written
unfoldable pub record_success : FeedInfo → ℕ → ℕ → Feed → Feed
record_success info succeeded_at now stored = record stored {
  title = or_else info.title (or_else stored.title stored.feed_url);
  site_url = or_else info.link stored.site_url;
  description = or_else info.subtitle (or_else info.description stored.description);
  last_fetched_at = some succeeded_at;
  last_error_code = "";
  last_error_message = "";
  consecutive_failures = 0;
  next_retry_at = none;
  updated_at = now;
}

-- The exceptions of a refresh.
pub data RefreshError : Type 0 where
  feed_fetch : String → String → RefreshError  -- the code and the message of a `FeedFetchError`
  unusable_feed validation integrity identity_conflict data_error other : RefreshError

-- `_refresh_failure`: code, message, whether it was unexpected
unfoldable pub refresh_failure : RefreshError → String × String × Bool
refresh_failure (feed_fetch code message) = (code, message, false)
refresh_failure unusable_feed = ("parse_error", "The feed document could not be parsed.", false)
refresh_failure validation = ("validation_error", "The feed contained invalid article data.", false)
refresh_failure integrity =
    ("integrity_error", "The feed conflicted with existing article data.", false)
refresh_failure identity_conflict =
    ("integrity_error", "The feed conflicted with existing article data.", false)
refresh_failure data_error =
    ("unexpected_error", "An unexpected feed refresh error occurred.", true)
refresh_failure other = ("unexpected_error", "An unexpected feed refresh error occurred.", true)

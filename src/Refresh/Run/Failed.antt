-- ===== src/Refresh/Run/Failed.antt =====
-- How an attempt of `refresh_feed` (feeds/services.py) that owns its feed ends in a failure.
use daily_firehose.Common.{ℕ, ◌≡◌, true, some, String, arith, truthy, ok}
use daily_firehose.Refresh.Feed.{Feed}
use daily_firehose.Refresh.Outcome.{post_init}
use daily_firehose.Refresh.Fence.{record_refresh_failure}
use daily_firehose.Refresh.Run.{checked, failed_result}

pub failed_accepted :
    (feed : Feed) (duration : ℕ) (code message : String) (t : ℕ)
    → truthy code ≡ true
    → truthy message ≡ true
    → feed.next_retry_at ≡ some t
    → checked (failed_result feed duration code message)
      ≡ ok (failed_result feed duration code message)
unfolding checked post_init
failed_accepted feed duration code message t c m h = ground arith

pub owning_failure :
    (generation : ℕ) (code message : String) (failed_at now : ℕ) (stored : Feed)
    → stored.refresh_generation ≡ generation
    → (record_refresh_failure generation code message failed_at now stored).1 ≡ true
unfolding record_refresh_failure
owning_failure generation code message failed_at now stored h = ground arith

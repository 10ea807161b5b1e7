-- ===== src/Refresh/Cycle/Skip.antt =====
-- A feed that is backing off is left alone.
use daily_firehose.Common.{ℕ, ◌<◌, ◌≡◌, refl, true, some, arith, truthy, ok}
use daily_firehose.Refresh.Feed.{Feed, FeedStore}
use daily_firehose.Refresh.Outcome.{post_init, Status, status}
use daily_firehose.Refresh.Run.{Env, checked}
use daily_firehose.Refresh.Cycle.{is_backing_off, skipped_result, refresh_or_skip}

backing_off :
    (now t : ℕ) (feed : Feed)
    → feed.next_retry_at ≡ some t
    → now < t
    → is_backing_off now feed ≡ true
unfolding is_backing_off
backing_off now t feed scheduled later = ground arith

skipped_accepted :
    (feed : Feed) (t : ℕ)
    → feed.next_retry_at ≡ some t
    → truthy feed.last_error_code ≡ true
    → truthy feed.last_error_message ≡ true
    → checked (skipped_result feed) ≡ ok (skipped_result feed)
unfolding checked post_init skipped_result
skipped_accepted feed t scheduled code message = ground arith

-- A feed whose retry lies in the future, and whose last failure was recorded with a code and a
-- message, is skipped: its rows are untouched, nothing is fetched and only the clock was read,
-- and the result repeats the recorded failure and the time of the retry.
backing_off-skipped :
    {W D : Type 0} (env : Env W D) (store : FeedStore) (w : W) (t : ℕ)
    → store.feed.next_retry_at ≡ some t
    → (env.now w).0 < t
    → truthy store.feed.last_error_code ≡ true
    → truthy store.feed.last_error_message ≡ true
    → (refresh_or_skip env store w ≡ ((ok (skipped_result store.feed), store), (env.now w).1))
      × (status (skipped_result store.feed) ≡ Status.skipped)
unfolding refresh_or_skip status skipped_result
backing_off-skipped env store w t scheduled later code message = (
  rw (backing_off (env.now w).0 t store.feed scheduled later)
      (rw (skipped_accepted store.feed t scheduled code message)),
  refl,
)

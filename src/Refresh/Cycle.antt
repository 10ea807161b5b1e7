-- ===== src/Refresh/Cycle.antt =====
-- `iter_refresh_active_feeds` of feeds/services.py, and the aggregates of feeds/commands.py and
-- of the worker's `_cycle` (feeds/management/commands/run_refresh_worker.py).
pub mod Counts
pub mod Skip
use daily_firehose.Common.{
  ℕ, zero, suc, ◌+◌, String, Bool, true, false, not, ◌&&◌, Option, none, some, List, [], ◌∷◌, ltb,
  filter, count, length, if◌then◌else◌, Result, ok, err, ◌>>=◌,
}
use daily_firehose.Refresh.Feed.{Feed, FeedStore}
use daily_firehose.Refresh.Outcome.{RefreshResult, default_result, Status, status}
use daily_firehose.Refresh.Run.{Env, Ended, checked, refresh_feed}

-- `feed.next_retry_at is not None and feed.next_retry_at > eligibility_time`
unfoldable pub is_backing_off : ℕ → Feed → Bool
is_backing_off now feed = elim feed.next_retry_at [ none ↦ false | some t ↦ ltb now t ]

unfoldable pub skipped_result : Feed → RefreshResult
skipped_result feed = record (default_result feed) {
  success = false;
  skipped = true;
  error_code = feed.last_error_code;
  error_message = feed.last_error_message;
  next_retry_at = feed.next_retry_at;
}

module _ {W D : Type 0} (env : Env W D) where
  -- the body of the loop
  unfoldable pub refresh_or_skip : FeedStore → W → Ended W
  refresh_or_skip store w =
      let (now, w1) = env.now w in
      let refreshed = refresh_feed env store w1 in
      if is_backing_off now store.feed
      then ((checked (skipped_result store.feed), store), w1)
      else refreshed

  -- The results so far and the stores; an exception ends the generator.
  unfoldable pub refresh_stores :
      List FeedStore → W → (Result String (List RefreshResult) × List FeedStore) × W
  refresh_stores [] w = ((ok [], []), w)
  refresh_stores (store ∷ rest) w =
      let ((result, store'), w1) = refresh_or_skip store w in
      let ((results, rest'), w2) = refresh_stores rest w1 in
      elim result [
        | ok r ↦ ((results >>= λ rs. ok (r ∷ rs), store' ∷ rest'), w2)
        | err message ↦ ((err message, store' ∷ rest), w1)
      ]

  -- `list(iter_refresh_active_feeds())`
  unfoldable pub refresh_active_feeds :
      List FeedStore → W → (Result String (List RefreshResult) × List FeedStore) × W
  refresh_active_feeds stores w = refresh_stores (filter (λ s. s.feed.is_active) stores) w

-- Tests on a result's status.
abbrev is_status : Status → Status → Bool
is_status Status.succeeded Status.succeeded = true
is_status Status.failed Status.failed = true
is_status Status.skipped Status.skipped = true
is_status Status.superseded Status.superseded = true
is_status _ _ = false

abbrev pub has_status : Status → RefreshResult → Bool
has_status s r = is_status s (status r)

-- `RefreshTally` with its properties as fields
pub record RefreshTally : Type 0 where
  pub checked : ℕ
  pub failures : List RefreshResult
  pub skipped : List RefreshResult
  pub superseded : List RefreshResult
  pub attempted : List RefreshResult
  pub succeeded : ℕ
  pub feeds_with_new_articles : ℕ
  pub created : ℕ
  pub updated : ℕ

abbrev sum_by : (RefreshResult → ℕ) → List RefreshResult → ℕ
sum_by f [] = 0
sum_by f (r ∷ rest) = f r + sum_by f rest

unfoldable pub refresh_tally : List RefreshResult → RefreshTally
refresh_tally results = record {
  checked = length results;
  failures = filter (has_status Status.failed) results;
  skipped = filter (has_status Status.skipped) results;
  superseded = filter (has_status Status.superseded) results;
  attempted = filter (λ r. not (has_status Status.skipped r)) results;
  succeeded = count (has_status Status.succeeded) results;
  feeds_with_new_articles = count (λ r. r.success && ltb 0 r.created) results;
  created = sum_by (λ r. r.created) results;
  updated = sum_by (λ r. r.updated) results;
}

-- The `counts` of a worker cycle.
pub record CycleCounts : Type 0 where
  pub checked : ℕ
  pub attempted : ℕ
  pub succeeded : ℕ
  pub failed : ℕ
  pub skipped : ℕ
  pub superseded : ℕ

abbrev pub no_counts : CycleCounts
no_counts = record {
  checked = 0;
  attempted = 0;
  succeeded = 0;
  failed = 0;
  skipped = 0;
  superseded = 0;
}

-- `counts[result.status] += 1` after `checked` and `attempted`
unfoldable pub count_status : Status → CycleCounts → CycleCounts
count_status Status.succeeded c = record c {
  checked = c.checked + 1;
  attempted = c.attempted + 1;
  succeeded = c.succeeded + 1;
}
count_status Status.failed c = record c {
  checked = c.checked + 1;
  attempted = c.attempted + 1;
  failed = c.failed + 1;
}
count_status Status.skipped c = record c { checked = c.checked + 1; skipped = c.skipped + 1 }
count_status Status.superseded c = record c {
  checked = c.checked + 1;
  attempted = c.attempted + 1;
  superseded = c.superseded + 1;
}

-- the loop of a cycle: `stopped n` is whether the stop was requested by the n-th result; the flag
-- answers whether the cycle was interrupted
unfoldable pub count_cycle : (ℕ → Bool) → CycleCounts → List RefreshResult → CycleCounts × Bool
count_cycle stopped c [] = (c, false)
count_cycle stopped c (r ∷ rest) =
    let counts = count_status (status r) c in
    let later = count_cycle stopped counts rest in
    if stopped counts.checked then (counts, true) else later

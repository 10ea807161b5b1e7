-- ===== src/Refresh/Run/Settled.antt =====
-- How an undisturbed refresh ends.
use mathlib.Core.Path.{subst}
use daily_firehose.Common.{
  ℕ, ◌+◌, ◌-◌, ◌≡◌, refl, ap, true, false, ◌||◌, any, Bool-cases, Option, none, some, String, List,
  arith, ==_iff, All, length, truthy, Result, ok, err, ◌>>=◌, >>=-eq-err, ◌⊎◌, inl, inr,
}
use daily_firehose.Refresh.Feed.{Feed, FeedStore}
use daily_firehose.Refresh.Outcome.{RefreshResult, post_init, Status, status, default_result}
use daily_firehose.Refresh.Fence.{
  RefreshError, unusable_feed, identity_conflict, data_error, claim_refresh_attempt,
  record_refresh_failure, record_success, refresh_failure, retry_delay,
}
use daily_firehose.Refresh.Plan.{ArticleWrite, plan_article_reconciliation}
use daily_firehose.Refresh.Plan.Conflict.{plan-err}
use daily_firehose.Refresh.Plan.Lookup.{UniqueRows}
use daily_firehose.Refresh.Plan.Sorted.{plan-Planned}
use daily_firehose.Refresh.Apply.{ArticleTable, is_too_long}
use daily_firehose.Refresh.Apply.Rows.{Below}
use daily_firehose.Refresh.Apply.Writes.{Placed, apply-Placed}
use daily_firehose.Refresh.Run.{
  Env, Ended, Parsed, info_of, usable, feed_too_long, checked, failed_result, end_in_failure,
  reconcile, end_transaction, commit, after_fetch, refresh_feed,
}
use daily_firehose.Refresh.Run.Failed.{failed_accepted, owning_failure}

-- A `FeedFetchError` carries a code and a message.
abbrev pub IsExplained : RefreshError → Type 0
IsExplained e = (truthy (refresh_failure e).0 ≡ true) × (truthy (refresh_failure e).1 ≡ true)

-- The failure left the articles alone, counted one more failure in a row, kept its code and its
-- message, and scheduled the retry.
pub record IsFailed (before after : FeedStore) (result : RefreshResult) : Type 0 where
  pub status : status result ≡ Status.failed
  pub articles : after.articles ≡ before.articles
  pub failures : after.feed.consecutive_failures ≡ before.feed.consecutive_failures + 1
  pub code : after.feed.last_error_code ≡ result.error_code
  pub message : after.feed.last_error_message ≡ result.error_message
  pub retry : after.feed.next_retry_at ≡ result.next_retry_at
  pub scheduled :
      (failed_at : ℕ) × (after.feed.next_retry_at
        ≡ some (failed_at + retry_delay (before.feed.consecutive_failures + 1)))
  pub generation : after.feed.refresh_generation ≡ before.feed.refresh_generation

-- The success cleared the failure state: the count, the code, the message and the retry.
pub record IsSucceeded (before after : FeedStore) (result : RefreshResult) : Type 0 where
  pub status : status result ≡ Status.succeeded
  pub failures : after.feed.consecutive_failures ≡ 0
  pub code : after.feed.last_error_code ≡ ""
  pub message : after.feed.last_error_message ≡ ""
  pub retry : after.feed.next_retry_at ≡ none
  pub generation : after.feed.refresh_generation ≡ before.feed.refresh_generation

-- What an attempt answers, and what it left: the ways in which it can end.
abbrev pub EndsWell : {W : Type 0} → FeedStore → Ended W → Type 0
EndsWell before ended =
    (result : RefreshResult) × (ended.0.0 ≡ ok result)
    × (IsFailed before ended.0.1 result ⊎ IsSucceeded before ended.0.1 result)

failed_row :
    (generation : ℕ) (code message : String) (failed_at now : ℕ) (stored : Feed)
    → stored.refresh_generation ≡ generation
    → let feed = (record_refresh_failure generation code message failed_at now stored).0 in
      (feed.next_retry_at ≡ some (failed_at + retry_delay (stored.consecutive_failures + 1)))
      × (feed.consecutive_failures ≡ stored.consecutive_failures + 1)
      × (feed.last_error_code ≡ code)
      × (feed.last_error_message ≡ message)
      × (feed.refresh_generation ≡ stored.refresh_generation)
unfolding record_refresh_failure
failed_row generation code message failed_at now stored h = ground arith

-- What a transaction that goes through wrote, for the writes of its plan.
pub record Reconciled (before after : FeedStore) (counts : ℕ × ℕ) (writes : List ArticleWrite)
    : Type 0 where
  pub placed : All (Placed after.articles) writes
  pub counted : counts.0 + counts.1 ≡ length writes
  pub failures : after.feed.consecutive_failures ≡ 0
  pub code : after.feed.last_error_code ≡ ""
  pub message : after.feed.last_error_message ≡ ""
  pub retry : after.feed.next_retry_at ≡ none
  pub generation : after.feed.refresh_generation ≡ before.feed.refresh_generation

-- The articles' table of a store.
abbrev pub table_of : FeedStore → ArticleTable
table_of store = record { rows = store.articles; next_id = store.next_id }

module _ {W D : Type 0} (env : Env W D) (parsed : Parsed) (store : FeedStore) (w : W) where
  abbrev pub plan_of : Result RefreshError (List ArticleWrite)
  plan_of = plan_article_reconciliation env.convert (env.readings w) store.articles parsed.entries

  -- the feed's row as a success leaves it
  abbrev pub succeeded_row : Feed
  succeeded_row =
      record_success (info_of parsed.info) (env.now w).0 (env.now (env.now w).1).0 store.feed

  -- Some text of the plan or of the feed's row is longer than its column, and the transaction raises.
  abbrev pub RaisesTooLong : Type 0
  RaisesTooLong =
      (writes : List ArticleWrite) × (plan_of ≡ ok writes)
      × ((any is_too_long writes || feed_too_long succeeded_row) ≡ true)
      × (reconcile env parsed store w ≡ err data_error)

  -- Every text fits, and the plan is written.
  abbrev pub WritesPlan : Type 0
  WritesPlan =
      (writes : List ArticleWrite) × (counts : ℕ × ℕ) × (after : FeedStore) × (plan_of ≡ ok writes)
      × ((any is_too_long writes || feed_too_long succeeded_row) ≡ false)
      × (reconcile env parsed store w ≡ ok (counts, after))
      × Reconciled store after counts writes

  applied_total :
      (writes : List ArticleWrite)
      → UniqueRows store.articles
      → Below (table_of store)
      → plan_of ≡ ok writes
      → RaisesTooLong ⊎ WritesPlan
  unfolding reconcile record_success
  applied_total writes unique below p =
      elim (apply-Placed store.feed.id (env.readings w) writes (table_of store)
        (plan-Planned env.convert (env.readings w) store.articles parsed.entries writes unique p)
        below) [
          | inl (long, raised) ↦ inl (writes, p, ground (arith, long), rw (p, raised) refl)
          | inr (short, (done, applied, placed, counted)) ↦
              elim (Bool-cases (feed_too_long succeeded_row)) [
                | inl long ↦ inl (writes, p, ground (arith, long), rw (p, applied, long) refl)
                | inr fits ↦ inr (
                  writes,
                  done.0,
                  record { feed = succeeded_row; articles = done.1.rows; next_id = done.1.next_id },
                  p,
                  ground (arith, short, fits),
                  rw (p, applied, fits) refl,
                  record {
                    placed = placed;
                    counted = counted;
                    failures = refl;
                    code = refl;
                    message = refl;
                    retry = refl;
                    generation = refl;
                  },
                )
              ]
        ]

  pub reconcile_total :
      UniqueRows store.articles
      → Below (table_of store)
      → (reconcile env parsed store w ≡ err identity_conflict) ⊎ (RaisesTooLong ⊎ WritesPlan)
  unfolding reconcile
  reconcile_total unique below = planned plan_of refl
    where
      planned :
          (m : Result RefreshError (List ArticleWrite))
          → plan_of ≡ m
          → (reconcile env parsed store w ≡ err identity_conflict) ⊎ (RaisesTooLong ⊎ WritesPlan)
      planned (err e) p = inl (
          rw p (
            ap Result.err
              (plan-err env.convert (env.readings w) store.articles parsed.entries e p)))
      planned (ok writes) p = inr (applied_total writes unique below p)

usable-err : (p : Option Parsed) (e : RefreshError) → usable p ≡ err e → unusable_feed ≡ e
unfolding usable
usable-err none e h = ground arith
usable-err (some p) e h = ground arith

unusable-IsExplained : IsExplained unusable_feed
unfolding refresh_failure
unusable-IsExplained = (refl, refl)

module _ {W D : Type 0} (env : Env W D) (quiet : (w : W) (s : FeedStore) → env.others w s ≡ s) where
  quiet_failure :
      (started generation : ℕ) (e : RefreshError) (store : FeedStore) (w : W)
      → store.feed.refresh_generation ≡ generation
      → IsExplained e
      → EndsWell store (end_in_failure env started generation e store w)
  unfolding end_in_failure status
  quiet_failure started generation e store w owns (code, message) =
      let (text, reason, unexpected) = refresh_failure e in
      let (failed_at, w1) = env.now w in
      let (now, w2) = env.now w1 in
      let (feed, owned) = record_refresh_failure generation text reason failed_at now store.feed in
      let (ended, w3) = env.monotonic w2 in
      let (retry, failures, kept, told, same) =
        failed_row generation text reason failed_at now store.feed owns in
      let result = failed_result feed (ended - started) text reason in
      rw
        (
          owning_failure generation text reason failed_at now store.feed owns,
          quiet w2 (record store { feed = feed }),
        )
        (
          result,
          failed_accepted feed (ended - started) text reason
              (failed_at + retry_delay (store.feed.consecutive_failures + 1)) code message retry,
          inl (record {
            status = refl;
            articles = refl;
            failures = failures;
            code = kept;
            message = told;
            retry = refl;
            scheduled = (failed_at, retry);
            generation = same;
          }),
        )

  quiet_transaction :
      (started generation : ℕ) (parsed : Parsed) (store : FeedStore) (w : W)
      → UniqueRows store.articles
      → Below (table_of store)
      → store.feed.refresh_generation ≡ generation
      → EndsWell store (commit env started generation parsed store w)
  unfolding commit end_transaction checked post_init status
  quiet_transaction started generation parsed store w unique below owns =
      rw ((==_iff _ _).1 owns) (elim (reconcile_total env parsed store w unique below) [
        | inl e ↦
            rw (e, quiet w store)
              (quiet_failure started generation identity_conflict store w owns
                (unfold refresh_failure in (refl, refl)))
        | inr (inl (writes, planned, long, e)) ↦
            rw (e, quiet w store)
              (quiet_failure started generation data_error store w owns
                (unfold refresh_failure in (refl, refl)))
        | inr (inr (writes, counts, after, planned, fits, done, written)) ↦ rw done (
          record (default_result after.feed) {
            created = counts.0;
            updated = counts.1;
            duration_seconds = (env.monotonic w).0 - started;
          },
          refl,
          inr (record {
            status = refl;
            failures = written.failures;
            code = written.code;
            message = written.message;
            retry = written.retry;
            generation = written.generation;
          }),
        )
      ])

  -- The rows after the claim: the generation is one higher, and the attempt is dated.
  abbrev pub after_claim : FeedStore → W → FeedStore
  after_claim store w =
      let (started, w1) = env.monotonic w in
      let (attempted_at, w2) = env.now w1 in
      let (now, w3) = env.now w2 in
      record store { feed = (claim_refresh_attempt attempted_at now store.feed).0 }

  pub quiet_refresh :
      ((url : String) (w : W) (e : RefreshError) → (env.fetch url w).0 ≡ err e → IsExplained e)
      → (store : FeedStore) (w : W) → UniqueRows store.articles
      → Below (table_of store)
      → EndsWell (after_claim store w) (refresh_feed env store w)
  unfolding refresh_feed
  quiet_refresh explained store w unique below =
      rw (quiet w3 read, quiet w4 read) (fetched (document >>= λ d. usable (env.parse d)) refl)
    where
      started : ℕ
      started = (env.monotonic w).0

      w3 : W
      w3 = (env.now (env.now (env.monotonic w).1).1).1

      read : FeedStore
      read = after_claim store w

      document : Result RefreshError D
      document = (env.fetch read.feed.feed_url w3).0

      w4 : W
      w4 = (env.fetch read.feed.feed_url w3).1

      generation : ℕ
      generation =
          (claim_refresh_attempt (env.now (env.monotonic w).1).0
            (env.now (env.now (env.monotonic w).1).1).0 store.feed).1

      owned : read.feed.refresh_generation ≡ generation
      owned = unfold claim_refresh_attempt in refl

      fetched :
          (m : Result RefreshError Parsed)
          → (document >>= λ d. usable (env.parse d)) ≡ m
          → EndsWell read (after_fetch env started generation read w4 m)
      fetched (ok parsed) e =
          quiet_transaction started generation parsed read w4
            (unfold claim_refresh_attempt in unique) (unfold claim_refresh_attempt in below) owned
      fetched (err x) e =
          quiet_failure started generation x read w4 owned
            (elim (>>=-eq-err document (λ d. usable (env.parse d)) e) [
              | inl p ↦ explained read.feed.feed_url w3 x p
              | inr (d, p, k) ↦
                  subst IsExplained (usable-err (env.parse d) x k) unusable-IsExplained
            ])

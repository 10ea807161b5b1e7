-- ===== src/Refresh/Run.antt =====
-- `refresh_feed` of feeds/services.py. Other processes may commit between its transactions:
-- `others` is what they did. Inside a transaction the feed's row lock keeps them out, and an
-- exception rolls it back. Logging is left out.
pub mod Failed
pub mod Settled
use daily_firehose.Common.{
  ℕ, ◌+◌, ◌-◌, String, Bool, true, false, not, ◌&&◌, Option, none, some, List, [], ◌∷◌, ◌==◌, ◌||◌,
  ltb, text_length, if◌then◌else◌, is_none, Result, ok, err, ◌>>=◌,
}
use daily_firehose.Refresh.Feed.{Feed, FeedStore}
use daily_firehose.Refresh.Outcome.{RefreshResult, post_init, default_result, superseded_result}
use daily_firehose.Refresh.Fence.{
  FeedInfo, RefreshError, unusable_feed, data_error, claim_refresh_attempt, record_refresh_failure,
  record_success, refresh_failure,
}
use daily_firehose.Refresh.Entry.{Entry, TimeValue}
use daily_firehose.Refresh.Plan.{plan_article_reconciliation}
use daily_firehose.Refresh.Apply.{ArticleTable, apply_article_reconciliation}

-- What `feedparser.parse` answers; `info` is `none` where the dictionary is empty.
pub record Parsed : Type 0 where
  pub bozo : Bool
  pub info : Option FeedInfo
  pub entries : List Entry

-- The environment over a world `W`, with documents of type `D`.
pub record Env (W D : Type 0) : Type 0 where
  pub now : W → ℕ × W  -- timezone.now()
  pub monotonic : W → ℕ × W  -- time.monotonic()
  pub readings : W → ℕ → ℕ  -- the clock at each entry of a transaction
  pub fetch : String → W → Result RefreshError D × W  -- fetch_feed_document
  pub parse : D → Option Parsed  -- feedparser.parse; `none` where it raises
  pub convert : TimeValue → Option ℕ
  pub others : W → FeedStore → FeedStore

abbrev is_empty {ℓ} : {A : Type ℓ} → List A → Bool
is_empty [] = true
is_empty (x ∷ xs) = false

-- the inner `try` and the test of `bozo`
unfoldable pub usable : Option Parsed → Result RefreshError Parsed
usable none = err unusable_feed
usable (some p) = if p.bozo && is_none p.info && is_empty p.entries then err unusable_feed else ok p

abbrev pub info_of : Option FeedInfo → FeedInfo
info_of none = record { title = ""; link = ""; subtitle = ""; description = "" }
info_of (some info) = info

-- a text of the feed's row is longer than its column, which the database refuses with a `DataError`
unfoldable pub feed_too_long : Feed → Bool
feed_too_long feed = ltb 255 (text_length feed.title) || ltb 200 (text_length feed.site_url)

-- the constructor's check
unfoldable pub checked : RefreshResult → Result String RefreshResult
checked r = elim (post_init r) [ none ↦ ok r | some message ↦ err message ]

-- The end of the attempt: what is answered, and the rows.
abbrev pub Ended : Type 0 → Type 0
Ended W = (Result String RefreshResult × FeedStore) × W

-- the result of a failed attempt, from the feed as it was read back
abbrev pub failed_result : Feed → ℕ → String → String → RefreshResult
failed_result feed duration code message = record (default_result feed) {
  success = false;
  duration_seconds = duration;
  error_code = code;
  error_message = message;
  next_retry_at = feed.next_retry_at;
}

module _ {W D : Type 0} (env : Env W D) where
  -- the `except` branch
  unfoldable pub end_in_failure : ℕ → ℕ → RefreshError → FeedStore → W → Ended W
  end_in_failure started generation e store w =
      let (code, message, unexpected) = refresh_failure e in
      let (failed_at, w1) = env.now w in
      let (now, w2) = env.now w1 in
      let (feed, owned) = record_refresh_failure generation code message failed_at now store.feed in
      let read = env.others w2 (record store { feed = feed }) in
      let (ended, w3) = env.monotonic w2 in
      let result =
        if owned
        then failed_result read.feed (ended - started) code message
        else superseded_result read.feed (ended - started) in
      ((checked result, read), w3)

  -- the writes of the transaction, where the attempt still owns the feed
  unfoldable pub reconcile : Parsed → FeedStore → W → Result RefreshError ((ℕ × ℕ) × FeedStore)
  reconcile parsed store w =
      let (succeeded_at, w1) = env.now w in
      let (now, w2) = env.now w1 in
      plan_article_reconciliation env.convert (env.readings w) store.articles parsed.entries
      >>= λ writes.
          apply_article_reconciliation store.feed.id (env.readings w) writes
            (record { rows = store.articles; next_id = store.next_id })
          >>= λ done.
              let feed = record_success (info_of parsed.info) succeeded_at now store.feed in
              if feed_too_long feed
              then err data_error
              else ok
                  (done.0, record { feed = feed; articles = done.1.rows; next_id = done.1.next_id })

  -- after the transaction: the exception, or the result
  unfoldable pub end_transaction :
      ℕ → ℕ → FeedStore → W → Result RefreshError ((ℕ × ℕ) × FeedStore) → Ended W
  end_transaction started generation store w (err e) =
      end_in_failure started generation e (env.others w store) w
  end_transaction started generation store w (ok ((created, updated), written)) =
      let (ended, w1) = env.monotonic w in
      (
        (
          checked (record (default_result written.feed) {
            created = created;
            updated = updated;
            duration_seconds = ended - started;
          }),
          written,
        ),
        w1,
      )

  -- the transaction, under the row lock
  unfoldable pub commit : ℕ → ℕ → Parsed → FeedStore → W → Ended W
  commit started generation parsed store w =
      let (ended, w1) = env.monotonic w in
      let written = end_transaction started generation store w (reconcile parsed store w) in
      if store.feed.refresh_generation == generation
      then written
      else ((checked (superseded_result store.feed (ended - started)), store), w1)

  abbrev after_fetch : ℕ → ℕ → FeedStore → W → Result RefreshError Parsed → Ended W
  after_fetch started generation store w (err e) = end_in_failure started generation e store w
  after_fetch started generation store w (ok parsed) = commit started generation parsed store w

  unfoldable pub refresh_feed : FeedStore → W → Ended W
  refresh_feed store w =
      let (started, w1) = env.monotonic w in
      let (attempted_at, w2) = env.now w1 in
      let (now, w3) = env.now w2 in
      let (claimed, generation) = claim_refresh_attempt attempted_at now store.feed in
      let read = env.others w3 (record store { feed = claimed }) in
      let (document, w4) = env.fetch read.feed.feed_url w3 in
      after_fetch started generation (env.others w4 read) w4
        (document >>= λ d. usable (env.parse d))

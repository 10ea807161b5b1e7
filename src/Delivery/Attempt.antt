-- ===== src/Delivery/Attempt.antt =====
-- `attempt_linkding_delivery` and `_project_delivery` of feeds/services.py. The article is passed
-- in, which the source also allows: by default it is the saved row's own.
pub mod Constraints
pub mod Progress
use daily_firehose.Common.{
  ℕ, ◌+◌, String, Bool, true, false, ◌&&◌, Option, none, some, List, map, ltb, ◌==◌, if◌then◌else◌,
  Result, ok, err, prefix,
}
use daily_firehose.Delivery.Row.{
  State, Article, SavedArticle, LinkdingDelivery, Store, queued, succeeded, transient_failed,
  permanent_failed,
}
use daily_firehose.Delivery.Backoff.{delivery_retry_delay}
use daily_firehose.Delivery.Json.{Fields, get, text_or_empty}
use daily_firehose.Delivery.Remote.{Exc, Env}
use daily_firehose.Delivery.Exchange.{classify_linkding_error, deliver_bookmark}

-- `settings.LINKDING_MAX_DELIVERY_ATTEMPTS` with the base URL and the token
pub record Settings : Type 0 where
  pub base_url : String
  pub token : String
  pub max_attempts : ℕ

abbrev pub is_succeeded : State → Bool
is_succeeded succeeded = true
is_succeeded queued = false
is_succeeded transient_failed = false
is_succeeded permanent_failed = false

-- `delivery.attempts += 1; delivery.last_attempt_at = now`
unfoldable pub begin_attempt : ℕ → LinkdingDelivery → LinkdingDelivery
begin_attempt now d = record d { attempts = d.attempts + 1; last_attempt_at = some now }

-- the `except` branch
unfoldable pub record_failure : ℕ → ℕ → Exc → LinkdingDelivery → LinkdingDelivery
record_failure max_attempts now e d =
    let (class, retryable) = classify_linkding_error e in
    let failed = record d {
      error_class = some class;
      error_message = e.message;
      delivered_at = none;
    } in
    if retryable && ltb d.attempts max_attempts
    then record failed {
      state = transient_failed;
      next_attempt_at = some (now + delivery_retry_delay d.attempts);
    }
    else record failed { state = permanent_failed; next_attempt_at = none }

-- the `else` branch; `bookmark_id` is the text of the bookmark's id, cut to the column
unfoldable pub record_success : ℕ → String → LinkdingDelivery → LinkdingDelivery
record_success now bookmark_id d = record d {
  state = succeeded;
  delivered_at = some now;
  next_attempt_at = none;
  bookmark_id = prefix 64 bookmark_id;
  error_class = none;
  error_message = "";
}

-- `delivery.save(update_fields=[...])`: the listed columns of the row with that key
unfoldable pub save_row : LinkdingDelivery → LinkdingDelivery → LinkdingDelivery
save_row d row =
    if row.id == d.id
    then record row {
      state = d.state;
      attempts = d.attempts;
      last_attempt_at = d.last_attempt_at;
      next_attempt_at = d.next_attempt_at;
      delivered_at = d.delivered_at;
      bookmark_id = d.bookmark_id;
      error_class = d.error_class;
      error_message = d.error_message;
      updated_at = d.updated_at;
    }
    else row

-- the `update` of `_project_delivery`
unfoldable pub project_row : ℕ → LinkdingDelivery → SavedArticle → SavedArticle
project_row now d saved =
    if saved.id == d.saved_article
    then record saved {
      linkding_saved = is_succeeded d.state;
      linkding_error = d.error_message;
      updated_at = now;
    }
    else saved

module _ {W : Type 0} (env : Env W) (settings : Settings) where
  -- the outcome of the `try` statement, on the delivery object
  unfoldable pub record_outcome : ℕ → Result Exc Fields → LinkdingDelivery → LinkdingDelivery
  record_outcome now (err e) d = record_failure settings.max_attempts now e d
  record_outcome now (ok bookmark) d =
      record_success now (text_or_empty env.repr (get "id" bookmark)) d

  -- `save` reads the clock for `updated_at`, and the projection reads it again
  unfoldable pub persist : LinkdingDelivery → Store → W → (LinkdingDelivery × Store) × W
  persist d store w =
      let (saved_at, w1) = env.now w in
      let (projected_at, w2) = env.now w1 in
      let d' = record d { updated_at = saved_at } in
      (
        (
          d',
          record store {
            deliveries = map (save_row d') store.deliveries;
            saved_articles = map (project_row projected_at d') store.saved_articles;
          },
        ),
        w2,
      )

  unfoldable pub attempt_linkding_delivery :
      Article → LinkdingDelivery → Store → W → (LinkdingDelivery × Store) × W
  unfolding begin_attempt record_outcome record_failure record_success persist
  attempt_linkding_delivery article d store w =
      let (now, w1) = env.now w in
      let begun = begin_attempt now d in
      let (outcome, w2) = deliver_bookmark env settings.base_url settings.token article begun w1 in
      persist (record_outcome now outcome begun) store w2

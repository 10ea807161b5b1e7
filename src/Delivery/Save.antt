-- ===== src/Delivery/Save.antt =====
-- `save_article` of feeds/services.py: the policy, the local row and the owed delivery in one
-- transaction, then one attempt.
pub mod Rows
use daily_firehose.Common.{
  ℕ, ◌+◌, String, Bool, true, false, ◌&&◌, ◌||◌, Option, none, some, List, [], ◌∷◌, ◌==◌, any,
  if◌then◌else◌, Result, ok, err,
}
use daily_firehose.Delivery.Row.{Article, SavedArticle, LinkdingDelivery, Store, queued}
use daily_firehose.Delivery.Remote.{Env}
use daily_firehose.Delivery.Attempt.{Settings, is_succeeded, attempt_linkding_delivery}

pub data SaveError : Type 0 where
  save_not_allowed : SaveError

-- `_enforce_article_save_policy`: `NewsletterIssue.objects.filter(article_id=...).exists()`
unfoldable pub is_newsletter : Store → Article → Bool
is_newsletter store article = any (λ id. id == article.id) store.newsletters

-- the row that the lookup of `update_or_create` finds
abbrev pub is_save_of : ℕ → Article → SavedArticle → Bool
is_save_of user article s = s.user == user && s.article == article.id

-- `update_or_create` on a list of rows: the first that fits is replaced, or a new one is added
unfoldable pub update_or_create {ℓ} : {A : Type ℓ} → (A → Bool) → (A → A) → A → List A → List A × A
update_or_create fits update created [] = (created ∷ [], created)
update_or_create fits update created (row ∷ rows) =
    let (rows', found) = update_or_create fits update created rows in
    if fits row then (update row ∷ rows, update row) else (row ∷ rows', found)

-- `defaults` of the saved row, written over a row that is there
unfoldable pub update_saved : ℕ → Article → SavedArticle → SavedArticle
update_saved now article s = record s {
  url = article.url;
  title = article.title;
  feed = some article.feed;
  category = article.category;
  updated_at = now;
}

unfoldable pub create_saved : ℕ → ℕ → ℕ → Article → SavedArticle
create_saved id now user article = record {
  id = id;
  user = user;
  article = article.id;
  url = article.url;
  title = article.title;
  feed = some article.feed;
  category = article.category;
  linkding_saved = false;
  linkding_error = "";
  saved_at = now;
  updated_at = now;
}

-- `defaults` of the delivery row; `next` is the `timezone.now()` among them
unfoldable pub requeue : ℕ → ℕ → Article → LinkdingDelivery → LinkdingDelivery
requeue next now article d = record d {
  url = article.url;
  state = queued;
  attempts = 0;
  next_attempt_at = some next;
  last_attempt_at = none;
  delivered_at = none;
  bookmark_id = "";
  error_class = none;
  error_message = "";
  updated_at = now;
}

unfoldable pub create_delivery : ℕ → ℕ → ℕ → ℕ → Article → LinkdingDelivery
create_delivery id saved_article next now article = record {
  id = id;
  saved_article = saved_article;
  url = article.url;
  state = queued;
  attempts = 0;
  last_attempt_at = none;
  next_attempt_at = some next;
  delivered_at = none;
  bookmark_id = "";
  error_class = none;
  error_message = "";
  created_at = now;
  updated_at = now;
}

-- The transaction. `now`, `next` and `later` are its three readings of the clock, in order.
-- Keys grow from one counter for both tables, which keeps them distinct as each table's does.
unfoldable pub record_intent :
    ℕ → ℕ → ℕ → ℕ → Article → Store → (SavedArticle × LinkdingDelivery) × Store
unfolding update_or_create update_saved create_saved requeue create_delivery
record_intent now next later user article store =
    let (saved_rows, saved) =
      update_or_create (is_save_of user article) (update_saved now article)
        (create_saved store.next_id now user article) store.saved_articles in
    let (delivery_rows, delivery) =
      update_or_create (λ d. d.saved_article == saved.id) (requeue next later article)
        (create_delivery (store.next_id + 1) saved.id next later article) store.deliveries in
    (
      (saved, delivery),
      record store {
        saved_articles = saved_rows;
        deliveries = delivery_rows;
        next_id = store.next_id + 2;
      },
    )

-- `delivery.saved_article = saved` lets `_project_delivery` set these two fields of the row that is
-- answered; its `updated_at` changes in the table only.
unfoldable pub projected : LinkdingDelivery → SavedArticle → SavedArticle
projected d saved = record saved {
  linkding_saved = is_succeeded d.state;
  linkding_error = d.error_message;
}

module _ {W : Type 0} (env : Env W) (settings : Settings) where
  unfoldable pub save_article :
      ℕ → Article → Store → W → (Result SaveError (SavedArticle × LinkdingDelivery) × Store) × W
  unfolding is_newsletter record_intent projected
  save_article user article store w =
      let (now, w1) = env.now w in
      let (next, w2) = env.now w1 in
      let (later, w3) = env.now w2 in
      let ((saved, delivery), store') = record_intent now next later user article store in
      let ((delivery', store''), w4) =
        attempt_linkding_delivery env settings article delivery store' w3 in
      if is_newsletter store article
      then ((err save_not_allowed, store), w)
      else ((ok (projected delivery' saved, delivery'), store''), w4)

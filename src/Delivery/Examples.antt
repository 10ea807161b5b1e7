-- ===== src/Delivery/Examples.antt =====
-- The delivery code on a small store, and the theorems at it: a Linkding that always acknowledges,
-- and one that is down.
use daily_firehose.Common.{
  ℕ, ◌+◌, ◌≤◌, ◌≡◌, refl, true, false, none, some, [], ◌∷◌, arith, ok, err, Result, str_eq,
  if◌then◌else◌, All,
}
use daily_firehose.Delivery.Row.{
  Article, SavedArticle, LinkdingDelivery, Store, queued, permanent_failed, transient_failed,
  is_retryable,
}
use daily_firehose.Delivery.Json.{Json, Fields, field, no_fields, object, text, integer}
use daily_firehose.Delivery.Remote.{Env, Exc, Response}
use daily_firehose.Delivery.Exchange.{
  save_to_linkding, deliver_bookmark, same_bookmark_url, classify_linkding_error,
}
use daily_firehose.Delivery.Attempt.{Settings, is_succeeded, attempt_linkding_delivery}
use daily_firehose.Delivery.Attempt.Constraints.{Accepted, Mirrors, attempt-Accepted}
use daily_firehose.Delivery.Attempt.Progress.{retry_until_settled, retries_settle}
use daily_firehose.Delivery.Drain.{claim_delivery, deliver_pending_saved_articles}
use daily_firehose.Delivery.Drain.Claim.{claim-claim}
use daily_firehose.Delivery.Drain.Tally.{drain-Accepted}
use daily_firehose.Delivery.Save.{save_article, is_newsletter, is_save_of}
use daily_firehose.Delivery.Save.Rows.{IsUnique, saves_of, deliveries_of, save_article-rows}

abbrev story : Article
story = record {
  id = 7;
  feed = 1;
  category = none;
  url = "https://example.com/a";
  title = "A story";
  summary = "Comments";
}

abbrev bookmark : Fields
bookmark = field "url" (text "https://example.com/a") (field "id" (integer false 12) no_fields)

abbrev answer : Json → Response
answer body = record { status_code = 200; raise_for_status = none; json = ok body }

abbrev timed_out : Exc
timed_out = record {
  is_not_configured = false;
  is_url_mismatch = false;
  is_timeout = true;
  is_connection_error = false;
  is_http_error = false;
  is_value_error = false;
  is_request_exception = true;
  status = none;
  message = "timed out";
}

abbrev bad_url : Exc
bad_url = record timed_out {
  is_timeout = false;
  is_value_error = true;
  is_request_exception = false;
  message = "Invalid IPv6 URL";
}

-- The world is the clock, which each reading and each request moves on.
abbrev world : Result Exc Response → Result Exc Response → Env ℕ
world posted found = record {
  now = λ w. (w, w + 1);
  post = λ endpoint token bookmark w. (posted, w + 10);
  fetch = λ endpoint token url w. (found, w + 10);
  urlsplit = λ url.
      if str_eq url "http://["
      then err bad_url
      else ok (record {
        scheme = "https";
        netloc = "example.com";
        path = url;
        query = "";
        fragment = "";
      });
  urlunsplit = λ parts. parts.path;
  strip = λ s. s;
  lower = λ s. s;
  text_parts = λ s. s ∷ [];
  repr = λ j. "12";
  quote = λ s. s;
}

abbrev answering : Env ℕ
answering =
    world (ok (answer (object bookmark)))
      (ok (answer (object (field "bookmark" (object bookmark) no_fields))))

abbrev down : Env ℕ
down = world (err timed_out) (err timed_out)

abbrev settings : Settings
settings = record { base_url = "https://links.example/"; token = "secret"; max_attempts = 3 }

abbrev owed : LinkdingDelivery
owed = record {
  id = 3;
  saved_article = 2;
  url = "https://example.com/a";
  state = queued;
  attempts = 0;
  last_attempt_at = none;
  next_attempt_at = some 100;
  delivered_at = none;
  bookmark_id = "";
  error_class = none;
  error_message = "";
  created_at = 100;
  updated_at = 100;
}

abbrev saved_row : SavedArticle
saved_row = record {
  id = 2;
  user = 1;
  article = 7;
  url = "https://example.com/a";
  title = "A story";
  feed = some 1;
  category = none;
  linkding_saved = false;
  linkding_error = "";
  saved_at = 100;
  updated_at = 100;
}

abbrev shelf : Store
shelf = record {
  articles = story ∷ [];
  newsletters = 9 ∷ [];
  saved_articles = saved_row ∷ [];
  deliveries = owed ∷ [];
  next_id = 4;
}

abbrev undisturbed : ℕ → Store → Store
undisturbed w store = store

-- A delivery against a Linkding that is down backs off five minutes, then fails for good.
first_failure :
    (attempt_linkding_delivery down settings story owed shelf 200).0.0.state ≡ transient_failed
unfolding attempt_linkding_delivery deliver_bookmark save_to_linkding classify_linkding_error
first_failure = refl

delivered :
    (deliver_pending_saved_articles answering settings undisturbed none shelf 200).0.0.succeeded ≡ 1
unfolding deliver_pending_saved_articles attempt_linkding_delivery deliver_bookmark save_to_linkding
    same_bookmark_url
delivered = refl

claim-claim_example :
    claim_delivery owed 300 (claim_delivery owed 200 shelf).1
    ≡ (false, (claim_delivery owed 200 shelf).1)
claim-claim_example = claim-claim owed 100 200 300 shelf refl (omega arith)

-- a delivery that is owed, and one that has failed for good
abbrev two_deliveries : Store
two_deliveries = record shelf {
  deliveries = owed ∷ record owed { id = 5; state = permanent_failed; next_attempt_at = none } ∷ [];
}

drain-Accepted_example :
    All Accepted
      (deliver_pending_saved_articles down settings undisturbed none shelf 200).0.1.deliveries
drain-Accepted_example =
    drain-Accepted down settings undisturbed (λ w store h. h) none shelf 200 (refl, tt)

shelf-IsUnique : IsUnique 1 story shelf
shelf-IsUnique = record { one_save = omega arith; one_delivery = λ saved. ground arith }

save_article-rows_example :
    let ((result, store'), w') = save_article down settings 1 story shelf 200 in
    (saves_of 1 story store' ≡ 1)
    × ((saved : SavedArticle) × (delivery : LinkdingDelivery) × (result ≡ ok (saved, delivery))
        × (is_save_of 1 story saved ≡ true)
        × (deliveries_of saved.id store' ≡ 1)
        × (delivery.saved_article ≡ saved.id)
        × (delivery.attempts ≡ 1)
        × (saved.linkding_saved ≡ is_succeeded delivery.state)
        × (saved.linkding_error ≡ delivery.error_message))
save_article-rows_example =
    save_article-rows down settings 1 story shelf 200 shelf-IsUnique (unfold is_newsletter in refl)

abbrev issue : Article
issue = record story { id = 9 }

attempt-Accepted_example :
    Accepted (attempt_linkding_delivery down settings story owed shelf 200).0.0
    × All Accepted (attempt_linkding_delivery down settings story owed shelf 200).0.1.deliveries
    × All
        (Mirrors (attempt_linkding_delivery down settings story owed shelf 200).0.0)
        (attempt_linkding_delivery down settings story owed shelf 200).0.1.saved_articles
attempt-Accepted_example = attempt-Accepted down settings story owed shelf 200 (refl, tt)

retries_settle_example :
    (is_retryable (retry_until_settled down settings 3 story owed shelf 200).0.0.state ≡ false)
    × ((retry_until_settled down settings 3 story owed shelf 200).0.0.attempts ≤ 3)
retries_settle_example =
    retries_settle down settings 3 story owed shelf 200 (omega arith) (omega arith)

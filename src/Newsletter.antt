-- ===== src/Newsletter.antt =====
-- The rows of `import_postmark_newsletter` (`feeds/services.py`): `NewsletterIssue` of `feeds/models.py`
-- and the feed that holds the newsletters. The two timestamps of an issue's row are left out.
use daily_firehose.Common.{
  ℕ, suc, ◌+◌, String, Bool, true, false, ◌&&◌, ◌||◌, Option, none, some, List, [], ◌∷◌, ◌++◌, any,
  ltb, ◌==◌, str_eq, truthy, prefix, rstrip, text_length, ◌+++◌, if◌then◌else◌, Result, ok, err,
  ◌>>=◌,
}
use daily_firehose.Delivery.Json.{
  Json, null, boolean, integer, float, text, array, object, Items, no_items, item, Fields, get,
  is_truthy, as_dict, to_text, text_or_empty,
}
use daily_firehose.Refresh.Feed.{Feed, Article}
use daily_firehose.Opml.Import.{FeedTable, find_feed}
pub mod Examples
pub mod Message
pub mod Receive
pub mod Replay

pub record NewsletterIssue : Type 0 where
  pub article : ℕ
  pub public_id : String
  pub message_id : String
  pub from_email : String
  pub from_name : String
  pub to_email : String
  pub subject : String
  pub html_body : String
  pub text_body : String
  pub sanitized_html : String
  pub received_at : ℕ

-- The rows; `next_id` is the key of the next article.
pub record NewsletterStore : Type 0 where
  pub feeds : FeedTable
  pub articles : List Article
  pub issues : List NewsletterIssue
  pub next_id : ℕ

pub record NewsletterImportResult : Type 0 where
  pub issue : NewsletterIssue
  pub created : Bool

-- The two `ValueError`s, and the `IntegrityError` that is raised again.
pub data NewsletterError : Type 0 where
  missing_message_id long_message_id integrity_error : NewsletterError

-- The libraries, over a world `W`. `convert` is the parsing of a date, none where it raises;
-- `archive_path` is the route of an issue without its leading slash; `repr` is Python's text of a
-- value that is none.
pub record Env (W : Type 0) : Type 0 where
  pub now : W → ℕ × W
  pub uuid4 : W → String × W
  pub convert : Json → Option ℕ
  pub repr : Json → String
  pub archive_path : String → String
  pub join_url : String → String → String
  pub sanitize : String → String
  pub others : W → NewsletterStore → NewsletterStore

-- `a or b`
abbrev pub either : Json → Json → Json
either a b = if is_truthy a then a else b

unfoldable pub find_issue : String → List NewsletterIssue → Option NewsletterIssue
find_issue message_id [] = none
find_issue message_id (i ∷ rest) =
    if str_eq i.message_id message_id then some i else find_issue message_id rest

-- another article of the feed has the guid or the URL
abbrev pub article_clashes : ℕ → String → String → Article → Bool
article_clashes feed guid url a = (a.feed == feed) && (str_eq a.guid guid || str_eq a.url url)

abbrev pub issue_clashes : String → String → NewsletterIssue → Bool
issue_clashes message_id public_id i =
    str_eq i.message_id message_id || str_eq i.public_id public_id

-- the row of the feed that holds the newsletters
abbrev pub new_newsletter_feed : ℕ → ℕ → Feed
new_newsletter_feed id now = record {
  id = id;
  title = "Email Newsletters";
  feed_url = "https://daily-firehose.local/feeds/email-newsletters";
  site_url = "";
  description = "Email newsletters received through Postmark inbound email.";
  category = none;
  is_active = false;
  last_fetched_at = none;
  last_attempt_at = none;
  last_error_code = "";
  last_error_message = "";
  consecutive_failures = 0;
  next_retry_at = none;
  refresh_generation = 0;
  created_at = now;
  updated_at = now;
}

abbrev pub got_or_created : ℕ → FeedTable → Option Feed → Feed × FeedTable
got_or_created now table (some f) = (f, table)
got_or_created now table none =
    let f = new_newsletter_feed table.next_id now in
    (f, record { feeds = f ∷ table.feeds; next_id = table.next_id + 1 })

unfoldable pub newsletter_feed : ℕ → FeedTable → Feed × FeedTable
newsletter_feed now table =
    got_or_created now table
      (find_feed "https://daily-firehose.local/feeds/email-newsletters" table.feeds)

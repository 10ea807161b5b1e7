-- ===== src/Newsletter/Examples.antt =====
-- A witness: a message that arrives twice.
use daily_firehose.Common.{
  ℕ, ◌+◌, ◌≡◌, refl, true, false, some, [], ◌∷◌, ok, ◌+++◌, prefix, rstrip, text_length,
}
use daily_firehose.Delivery.Json.{text, Fields, no_fields, field}
use daily_firehose.Newsletter.{
  NewsletterIssue, NewsletterStore, Env, find_issue, newsletter_feed, new_newsletter_feed,
}
use daily_firehose.Newsletter.Message.{
  message_id_of, newsletter_archive_url, bounded, postmark_address, postmark_name,
}
use daily_firehose.Newsletter.Receive.{
  import_postmark_newsletter, receive, write_rows, create_article, create_issue,
}
use daily_firehose.Newsletter.Replay.{import_postmark_newsletter-again}
use daily_firehose.Opml.Import.{find_feed}

-- the world is the clock
abbrev env : Env ℕ
env = record {
  now = λ w. (w, w + 1);
  uuid4 = λ w. ("7f", w + 1);
  convert = λ date. some 40;
  repr = λ value. "";
  archive_path = λ id. "newsletters/" +++ id;
  join_url = λ base path. base +++ path;
  sanitize = λ html. html;
  others = λ w s. s;
}

abbrev payload : Fields
payload = field "MessageID" (text "m-1") (
    field "Subject" (text "Weekly")
      (field "From" (text "editor@example.org") (field "TextBody" (text "Hello") no_fields)))

abbrev store : NewsletterStore
store = record {
  feeds = record { feeds = []; next_id = 3 };
  articles = [];
  issues = [];
  next_id = 9;
}

abbrev issue : NewsletterIssue
issue = record {
  article = 9;
  public_id = "7f";
  message_id = "m-1";
  from_email = "editor@example.org";
  from_name = "";
  to_email = "";
  subject = "Weekly";
  html_body = "";
  text_body = "Hello";
  sanitized_html = "";
  received_at = 40;
}

abbrev after : NewsletterStore
after = record {
  feeds = record { feeds = new_newsletter_feed 3 100 ∷ []; next_id = 4 };
  articles =
      record {
        id = 9;
        feed = 3;
        title = "Weekly";
        url = "https://firehose.example/newsletters/7f";
        guid = "m-1";
        author = "editor@example.org";
        summary = "Hello";
        published_at = 40;
        fetched_at = 102;
        updated_at = 102;
      }
      ∷ [];
  issues = issue ∷ [];
  next_id = 10;
}

imported :
    import_postmark_newsletter env payload "https://firehose.example/" store 100
    ≡ ((ok (record { issue = issue; created = true }), after), 103)
unfolding import_postmark_newsletter find_issue message_id_of receive write_rows create_article
    create_issue newsletter_feed newsletter_archive_url bounded postmark_address postmark_name
    find_feed prefix rstrip text_length
imported = refl

import_postmark_newsletter-again_example :
    import_postmark_newsletter env payload "https://firehose.example/" after 103
    ≡ ((ok (record { issue = issue; created = false }), after), 103)
import_postmark_newsletter-again_example =
    import_postmark_newsletter-again env payload payload "https://firehose.example/" store after 100
      103 (record { issue = issue; created = true }) imported refl

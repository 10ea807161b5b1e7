-- ===== src/Newsletter/Receive.antt =====
-- `import_postmark_newsletter` of `feeds/services.py`. Other processes may commit before the
-- transaction and after one that failed: `others` is what they did. The clock is read also where the
-- date of the message makes it unnecessary.
use daily_firehose.Common.{
  ℕ, ◌+◌, String, true, false, Option, none, some, [], ◌∷◌, ◌++◌, any, ltb, truthy, prefix,
  text_length, if◌then◌else◌, Result, ok, err, ◌>>=◌,
}
use daily_firehose.Delivery.Json.{text, Fields, get, text_or_empty}
use daily_firehose.Refresh.Feed.{Feed, Article}
use daily_firehose.Newsletter.{
  NewsletterIssue, NewsletterStore, NewsletterImportResult, NewsletterError, missing_message_id,
  long_message_id, integrity_error, Env, either, find_issue, article_clashes, issue_clashes,
  newsletter_feed,
}
use daily_firehose.Newsletter.Message.{
  newsletter_archive_url, bounded, postmark_address, postmark_name, message_id_of, received_at,
  sanitized, body_text,
}

module _ {W : Type 0} (env : Env W) where
  -- `Article.objects.create`
  unfoldable pub create_article :
      ℕ
      → Feed
      → Fields
      → String
      → String
      → String
      → ℕ
      → NewsletterStore
      → Result NewsletterError (Article × NewsletterStore)
  create_article now feed payload message_id url summary published_at store =
      let article : Article = record {
        id = store.next_id;
        feed = feed.id;
        title = bounded env (either (get "Subject" payload) (text "Untitled newsletter")) 500;
        url = url;
        guid = message_id;
        author = prefix 255 (postmark_address env payload "From");
        summary = summary;
        published_at = published_at;
        fetched_at = now;
        updated_at = now;
      } in
      if any (article_clashes feed.id message_id url) store.articles
      then err integrity_error
      else ok (
        article,
        record store { articles = store.articles ++ article ∷ []; next_id = store.next_id + 1 },
      )

  abbrev pub new_issue : Fields → String → String → ℕ → Article → NewsletterIssue
  new_issue payload message_id public_id received article =
      let html = text_or_empty env.repr (get "HtmlBody" payload) in
      record {
        article = article.id;
        public_id = public_id;
        message_id = message_id;
        from_email = prefix 254 (postmark_address env payload "From");
        from_name = prefix 255 (postmark_name env payload "From");
        to_email = prefix 254 (postmark_address env payload "To");
        subject = article.title;
        html_body = html;
        text_body = text_or_empty env.repr (get "TextBody" payload);
        sanitized_html = sanitized env html;
        received_at = received;
      }

  -- `NewsletterIssue.objects.create`
  unfoldable pub create_issue :
      Fields
      → String
      → String
      → ℕ
      → Article
      → NewsletterStore
      → Result NewsletterError (NewsletterIssue × NewsletterStore)
  create_issue payload message_id public_id received article store =
      let issue = new_issue payload message_id public_id received article in
      if any (issue_clashes message_id public_id) store.issues
      then err integrity_error
      else ok (issue, record store { issues = store.issues ++ issue ∷ [] })

  -- the two writes of the transaction
  unfoldable pub write_rows :
      ℕ
      → ℕ
      → String
      → Feed
      → Fields
      → String
      → String
      → NewsletterStore
      → Result NewsletterError (NewsletterIssue × NewsletterStore)
  write_rows stamp received public_id feed payload message_id base_url store =
      create_article stamp feed payload message_id (newsletter_archive_url env base_url public_id)
        (body_text env payload) received store
      >>= λ made. create_issue payload message_id public_id received made.0 made.1

  -- the transaction
  unfoldable pub receive :
      Fields
      → String
      → String
      → NewsletterStore
      → W
      → Result NewsletterError (NewsletterIssue × NewsletterStore) × W
  receive payload message_id base_url store w =
      let (now, w1) = env.now w in
      let received = received_at env now (env.convert (get "Date" payload)) in
      let (public_id, w2) = env.uuid4 w1 in
      let (feed, feeds) = newsletter_feed now store.feeds in
      let (stamp, w3) = env.now w2 in
      (
        write_rows stamp received public_id feed payload message_id base_url
            (record store { feeds = feeds }),
        w3,
      )

  abbrev pub Imported : Type 0
  Imported = (Result NewsletterError NewsletterImportResult × NewsletterStore) × W

  -- after an `IntegrityError`: the concurrent winner, or the error again
  abbrev pub answer_winner : NewsletterStore → W → Option NewsletterIssue → Imported
  answer_winner store w none = ((err integrity_error, store), w)
  answer_winner store w (some winner) =
      ((ok (record { issue = winner; created = false }), store), w)

  abbrev pub end_transaction :
      String
      → NewsletterStore
      → Result NewsletterError (NewsletterIssue × NewsletterStore) × W
      → Imported
  end_transaction message_id store (ok (issue, written), w) =
      ((ok (record { issue = issue; created = true }), written), w)
  end_transaction message_id store (err e, w) =
      let read = env.others w store in answer_winner read w (find_issue message_id read.issues)

  abbrev pub import_new :
      Fields → String → String → NewsletterStore → W → Option NewsletterIssue → Imported
  import_new payload message_id base_url store w (some existing) =
      ((ok (record { issue = existing; created = false }), store), w)
  import_new payload message_id base_url store w none =
      let begun = env.others w store in
      end_transaction message_id begun (receive payload message_id base_url begun w)

  unfoldable pub import_postmark_newsletter : Fields → String → NewsletterStore → W → Imported
  import_postmark_newsletter payload base_url store w =
      let message_id = message_id_of env payload in
      let found = find_issue message_id store.issues in
      if truthy message_id
      then if ltb 1000 (text_length message_id)
        then ((err long_message_id, store), w)
        else import_new payload message_id base_url store w found
      else ((err missing_message_id, store), w)

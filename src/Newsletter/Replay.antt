-- ===== src/Newsletter/Replay.antt =====
-- A message that `import_postmark_newsletter` (`feeds/services.py`) is given again.
use mathlib.Core.Path.{subst}
use daily_firehose.Common.{
  ℕ, ◌≡◌, refl, ◌∙◌, String, true, false, Option, none, some, List, [], ◌∷◌, ◌++◌, any, ltb, str_eq,
  eq_iff, truthy, text_length, if_true, if_false, if_then, if_else, Bool-cases, inl, inr, arith,
  Result, ok, err, >>=-eq-ok,
}
use daily_firehose.Delivery.Json.{Fields}
use daily_firehose.Refresh.Feed.{Feed, Article}
use daily_firehose.Newsletter.{
  NewsletterIssue, NewsletterStore, NewsletterImportResult, NewsletterError, Env, find_issue,
  issue_clashes,
}
use daily_firehose.Newsletter.Message.{message_id_of, newsletter_archive_url, body_text}
use daily_firehose.Newsletter.Receive.{
  create_article, create_issue, new_issue, write_rows, receive, Imported, answer_winner,
  end_transaction, import_new, import_postmark_newsletter,
}

find_issue-snoc :
    (message_id : String) (issues : List NewsletterIssue) (i : NewsletterIssue)
    → find_issue message_id issues ≡ none
    → i.message_id ≡ message_id
    → find_issue message_id (issues ++ i ∷ []) ≡ some i
unfolding find_issue
find_issue-snoc message_id [] i h same = if_then _ ((eq_iff i.message_id message_id).1 same)
find_issue-snoc message_id (x ∷ rest) i h same =
    elim (Bool-cases (str_eq x.message_id message_id)) [
      | inl q ↦ let e = if_true _ q h in cc
      | inr q ↦ rw q (find_issue-snoc message_id rest i (if_false _ q h) same)
    ]

no_clash-absent :
    (message_id public_id : String) (issues : List NewsletterIssue)
    → any (issue_clashes message_id public_id) issues ≡ false
    → find_issue message_id issues ≡ none
unfolding find_issue
no_clash-absent message_id public_id [] h = refl
no_clash-absent message_id public_id (x ∷ rest) h =
    let apart : str_eq x.message_id message_id ≡ false = ground (arith, h) in
    rw apart (no_clash-absent message_id public_id rest (ground (arith, h)))

module _ {W : Type 0} (env : Env W) where
  -- An issue that is created is the one of its message.
  create_issue-found :
      (payload : Fields) (message_id public_id : String) (received : ℕ) (article : Article)
      (store after : NewsletterStore) (issue : NewsletterIssue)
      → create_issue env payload message_id public_id received article store ≡ ok (issue, after)
      → find_issue message_id after.issues ≡ some issue
  unfolding create_issue
  create_issue-found payload message_id public_id received article store after issue h =
      elim (Bool-cases (any (issue_clashes message_id public_id) store.issues)) [
        | inl q ↦ let e = if_true _ q h in cc
        | inr q ↦
            let new = new_issue env payload message_id public_id received article in
            let made : NewsletterIssue × NewsletterStore =
              (new, record store { issues = store.issues ++ new ∷ [] }) in
            let asked : NewsletterIssue × NewsletterStore = (issue, after) in
            let e = if_false _ q h in
            let same : made ≡ asked = cc in
            subst (λ r. find_issue message_id r.1.issues ≡ some r.0) same
              (find_issue-snoc message_id store.issues new
                (no_clash-absent message_id public_id store.issues q) refl)
      ]

  -- What an import answers is the issue of the message, in the rows after it.
  abbrev Answers : String → Imported env → Type 0
  Answers message_id ((err e, store), w) = Unit
  Answers message_id ((ok result, store), w) =
      find_issue message_id store.issues ≡ some result.issue

  write_rows-found :
      (stamp received : ℕ) (public_id : String) (feed : Feed) (payload : Fields)
      (message_id base_url : String) (store after : NewsletterStore) (issue : NewsletterIssue)
      → write_rows env stamp received public_id feed payload message_id base_url store
        ≡ ok (issue, after)
      → find_issue message_id after.issues ≡ some issue
  unfolding write_rows
  write_rows-found stamp received public_id feed payload message_id base_url store after issue h =
      let first =
        create_article env stamp feed payload message_id
          (newsletter_archive_url env base_url public_id) (body_text env payload) received store in
      let second = λ (made : Article × NewsletterStore).
        create_issue env payload message_id public_id received made.0 made.1 in
      let (made, p, q) = >>=-eq-ok first second h in
      create_issue-found payload message_id public_id received made.0 made.1 after issue q

  receive-found :
      (payload : Fields) (message_id base_url : String) (store after : NewsletterStore) (w : W)
      (issue : NewsletterIssue)
      → (receive env payload message_id base_url store w).0 ≡ ok (issue, after)
      → find_issue message_id after.issues ≡ some issue
  unfolding receive
  receive-found payload message_id base_url store after w issue h =
      write_rows-found _ _ _ _ payload message_id base_url _ after issue h

  end_transaction-Answers :
      (message_id : String) (store : NewsletterStore)
      (r : Result NewsletterError (NewsletterIssue × NewsletterStore) × W)
      → ((issue : NewsletterIssue) (written : NewsletterStore)
          → r.0 ≡ ok (issue, written)
          → find_issue message_id written.issues ≡ some issue)
      → Answers message_id (end_transaction env message_id store r)
  end_transaction-Answers message_id store (ok (issue, written), w) h = h issue written refl
  end_transaction-Answers message_id store (err e, w) h =
      let read = env.others w store in winner (find_issue message_id read.issues) refl
    where
      winner :
          (o : Option NewsletterIssue)
          → find_issue message_id (env.others w store).issues ≡ o
          → Answers message_id (answer_winner env (env.others w store) w o)
      winner none q = tt
      winner (some i) q = q

  import_new-Answers :
      (payload : Fields) (message_id base_url : String) (store : NewsletterStore) (w : W)
      (o : Option NewsletterIssue)
      → find_issue message_id store.issues ≡ o
      → Answers message_id (import_new env payload message_id base_url store w o)
  import_new-Answers payload message_id base_url store w (some i) q = q
  import_new-Answers payload message_id base_url store w none q =
      let begun = env.others w store in
      end_transaction-Answers message_id begun (receive env payload message_id base_url begun w)
        (λ issue written h. receive-found payload message_id base_url begun written w issue h)

  -- the identity of the message passes the checks
  abbrev IsIdentity : String → Type 0
  IsIdentity message_id = (truthy message_id ≡ true) × (ltb 1000 (text_length message_id) ≡ false)

  imported :
      (payload : Fields) (base_url : String) (store after : NewsletterStore) (w v : W)
      (result : NewsletterImportResult)
      → import_postmark_newsletter env payload base_url store w ≡ ((ok result, after), v)
      → IsIdentity (message_id_of env payload)
        × (find_issue (message_id_of env payload) after.issues ≡ some result.issue)
  unfolding import_postmark_newsletter
  imported payload base_url store after w v result h =
      let message_id = message_id_of env payload in
      elim (Bool-cases (truthy message_id)) [
        | inr q ↦ let e = if_false _ q h in cc
        | inl q ↦ elim (Bool-cases (ltb 1000 (text_length message_id))) [
          | inl k ↦ let e = if_true _ k (if_true _ q h) in cc
          | inr k ↦ (
            (q, k),
            subst (Answers message_id) (if_false _ k (if_true _ q h)) (
                import_new-Answers payload message_id base_url store w
                  (find_issue message_id store.issues) refl),
          )
        ]
      ]

  -- A message that was imported, whether by this call, by an earlier one or by a concurrent one, is
  -- not imported again: the next call with its identity answers the same issue, says that it did not
  -- create it, and changes no row.
  pub import_postmark_newsletter-again :
      (payload later : Fields) (base_url : String) (store after : NewsletterStore) (w v : W)
      (result : NewsletterImportResult)
      → import_postmark_newsletter env payload base_url store w ≡ ((ok result, after), v)
      → message_id_of env later ≡ message_id_of env payload
      → import_postmark_newsletter env later base_url after v
        ≡ ((ok (record { issue = result.issue; created = false }), after), v)
  unfolding import_postmark_newsletter
  import_postmark_newsletter-again payload later base_url store after w v result h same =
      let ((given, short), found) = imported payload base_url store after w v result h in
      rw (same, found) (if_then _ given ∙ if_else _ short)

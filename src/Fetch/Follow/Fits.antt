-- ===== src/Fetch/Follow/Fits.antt =====
-- What a fetch (`feeds/feed_fetch.py`) answers, errors included.
use daily_firehose.Common.{
  ℕ, zero, suc, ◌+◌, ◌≤◌, ◌<◌, ◌≡◌, refl, String, Option, none, some, length, leb, ltb, truthy,
  Bool-cases, inl, inr, Result, ok, err, ◌&&◌,
}
use daily_firehose.Fetch.Wire.{
  FetchError, Response, Sent, timed_out, ssl_error, request_error, answered, Net, Env, Call,
  continue, call_lib, ◌>>=◌,
}
use daily_firehose.Fetch.Wire.Laws.{Fails, RaisesUnicode, IsExplained, >>=-Fails}
use daily_firehose.Fetch.Target.{check_deadline, prepare_request, validate_target}
use daily_firehose.Fetch.Target.Explained.{
  check_deadline-Fails, prepare_request-Fails, validate_target-Fails,
}
use daily_firehose.Fetch.Body.{read_bounded, or_empty}
use daily_firehose.Fetch.Body.Bounded.{read_bounded-length, read_bounded-Fails}
use daily_firehose.Fetch.Follow.{
  FeedFetchPolicy, Limits, validate_policy, is_valid, limits_of, number_of, FeedFetchPolicy,
  FetchedFeedDocument, is_redirect, received, send, joined, redirected, redirect_target, document,
  accept, redirected, respond, check_target, round, follow, started_at, fetch_feed_document,
}

-- A `FeedFetchError` carries a code and a message; a document is not empty, and within a number of bytes.
abbrev pub Fits : {W : Type 0} → Env W → ℕ → Result FetchError FetchedFeedDocument → Type 0
Fits env max_bytes (err e) = IsExplained (RaisesUnicode env) e
Fits env max_bytes (ok doc) = (0 < length doc.content) × (length doc.content ≤ max_bytes)

module _ {W : Type 0} (env : Env W) where
  received-Fails : (sent : Sent) → Fails (RaisesUnicode env) (received env sent)
  received-Fails timed_out = (refl, refl)
  received-Fails ssl_error = (refl, refl)
  received-Fails request_error = (refl, refl)
  received-Fails (answered r) = tt

  joined-Fails : (o : Option String) → Fails (RaisesUnicode env) (joined env o)
  joined-Fails none = (refl, refl)
  joined-Fails (some url) = prepare_request-Fails env "invalid_redirect" url refl

  check_target-Fails :
      (deadline : ℕ) (url : String) (s : Net W)
      → Fails (RaisesUnicode env) (check_target env deadline url s).0
  check_target-Fails deadline url s =
      let last = λ (u : Unit {0}). check_deadline env deadline in
      let checks = λ (u : Unit {0}). validate_target env url >>= last in
      >>=-Fails env (check_deadline env deadline) checks (check_deadline-Fails env deadline)
        (λ u.
          >>=-Fails env (validate_target env url) last (validate_target-Fails env url)
            (λ u. check_deadline-Fails env deadline))
        s

  continue-Fits :
      {A : Type 0} (n : ℕ) (f : A → Call W FetchedFeedDocument) (r : Result FetchError A × Net W)
      → Fails (RaisesUnicode env) r.0
      → ((a : A) (s : Net W) → r ≡ (ok a, s) → Fits env n (f a s).0)
      → Fits env n (continue f r).0
  continue-Fits n f (err e, s) h k = h
  continue-Fits n f (ok a, s) h k = k a s refl

  module _ (limits : Limits) (deadline : ℕ) where
    abbrev NextFits : Option (String → Call W FetchedFeedDocument) → Type 0
    NextFits none = Unit
    NextFits (some next) = (url : String) (s : Net W) → Fits env limits.max_bytes (next url s).0

    accept-Fits :
        (url : String) (r : Response) (s : Net W)
        → Fits env limits.max_bytes (accept env limits deadline url r s).0
    unfolding accept document
    accept-Fits url r s = elim (Bool-cases (leb 200 r.status_code && ltb r.status_code 300)) [
      | inl q ↦ rw q (
          continue-Fits limits.max_bytes _ (read_bounded env limits.max_bytes deadline r s)
            (read_bounded-Fails env limits.max_bytes deadline r s)
            (λ content t e. read_bounded-length env limits.max_bytes deadline r s t e))
      | inr q ↦ rw q (refl, refl)
    ]

    redirect_target-Fails :
        (url : String) (r : Response) → Fails (RaisesUnicode env) (redirect_target env url r)
    unfolding redirect_target
    redirect_target-Fails url r = elim (Bool-cases (truthy (or_empty (r.header "Location")))) [
      | inl q ↦ rw q (joined-Fails (env.join_url url (or_empty (r.header "Location"))))
      | inr q ↦ rw q (refl, refl)
    ]

    redirected-Fits :
        (next : Option (String → Call W FetchedFeedDocument))
        → NextFits next
        → (url : String) (r : Response) (s : Net W)
        → Fits env limits.max_bytes (redirected env next url r s).0
    redirected-Fits none h url r s = (refl, refl)
    redirected-Fits (some next) h url r s =
        continue-Fits limits.max_bytes next (redirect_target env url r, s)
          (redirect_target-Fails url r) (λ u t e. h u t)

    respond-Fits :
        (next : Option (String → Call W FetchedFeedDocument))
        → NextFits next
        → (url : String) (r : Response) (s : Net W)
        → Fits env limits.max_bytes (respond env limits deadline next url r s).0
    respond-Fits next h url r s = elim (Bool-cases (is_redirect r.status_code)) [
      | inl q ↦ rw q (redirected-Fits next h url r s)
      | inr q ↦ rw q (accept-Fits url r s)
    ]

    round-Fits :
        (next : Option (String → Call W FetchedFeedDocument))
        → NextFits next
        → (url : String) (s : Net W)
        → Fits env limits.max_bytes (round env limits deadline next url s).0
    unfolding round send
    round-Fits next h url s =
        continue-Fits limits.max_bytes _ (check_target env deadline url s)
          (check_target-Fails deadline url s)
          (λ u t e.
            continue-Fits limits.max_bytes (respond env limits deadline next url) (send env url t)
              (received-Fails (env.send url t.world).0) (λ r t' e'. respond-Fits next h url r t'))

    pub follow-Fits :
        (left : ℕ) (url : String) (s : Net W)
        → Fits env limits.max_bytes (follow env limits deadline left url s).0
    unfolding follow
    follow-Fits zero url s = round-Fits none tt url s
    follow-Fits (suc left) url s =
        round-Fits (some (follow env limits deadline left)) (follow-Fits left) url s

  started_at-Fits :
      (limits : Limits) (url : String) (started : ℕ) (s : Net W)
      → Fits env limits.max_bytes (started_at env limits url started s).0
  unfolding started_at
  started_at-Fits limits url started s =
      continue-Fits limits.max_bytes
        (follow env limits (started + limits.total_timeout) limits.max_redirects)
        (prepare_request env "invalid_url" url, s)
        (prepare_request-Fails env "invalid_url" url refl)
        (λ prepared t e.
          follow-Fits limits (started + limits.total_timeout) limits.max_redirects prepared t)

  pub fetch_feed_document-Fits :
      (policy : FeedFetchPolicy) (url : String) (s : Net W)
      → Fits env (number_of policy.max_bytes) (fetch_feed_document env policy url s).0
  unfolding fetch_feed_document validate_policy
  fetch_feed_document-Fits policy url s = elim (Bool-cases (is_valid policy)) [
    | inl q ↦ rw q (
        continue-Fits (number_of policy.max_bytes) (started_at env (limits_of policy) url)
          (call_lib env.monotonic s) tt
          (λ started t e. started_at-Fits (limits_of policy) url started t))
    | inr q ↦ rw q (refl, refl)
  ]

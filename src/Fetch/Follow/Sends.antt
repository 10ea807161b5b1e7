-- ===== src/Fetch/Follow/Sends.antt =====
-- Where a fetch (`feeds/feed_fetch.py`) sends requests, and how many.
use daily_firehose.Common.{
  ℕ, zero, suc, ◌+◌, ◌≤◌, ◌≡◌, refl, sym, ap, ◌∙◌, String, Option, none, some, ◌∷◌, length, leb,
  ltb, All, Bool-cases, inl, inr, arith, Result, ok, err, ◌&&◌,
}
use mathlib.Core.Path.{subst}
use daily_firehose.Fetch.Wire.{FetchError, Response, Net, Env, Call, continue, call_lib, ◌>>=◌}
use daily_firehose.Fetch.Wire.Laws.{>>=-sent, >>=-eq-ok}
use daily_firehose.Fetch.Target.{check_deadline, prepare_request, validate_target}
use daily_firehose.Fetch.Target.Allowed.{
  IsAllowed, validate_target-IsAllowed, check_deadline-sent, validate_target-sent,
}
use daily_firehose.Fetch.Body.{read_bounded}
use daily_firehose.Fetch.Body.Bounded.{read_bounded-sent}
use daily_firehose.Fetch.Follow.{
  FeedFetchPolicy, Limits, validate_policy, is_valid, limits_of, number_of, FeedFetchPolicy,
  FetchedFeedDocument, is_redirect, received, send, redirected, redirect_target, accept, redirected,
  respond, check_target, round, follow, started_at, fetch_feed_document, begun,
}

module _ {W : Type 0} (env : Env W) where
  -- From `s` to `t` at most `n` requests were sent, each to an allowed target.
  abbrev pub Sends : ℕ → Net W → Net W → Type 0
  Sends n s t =
      (All (IsAllowed env) s.sent → All (IsAllowed env) t.sent)
      × (length t.sent ≤ length s.sent + n)

  pub Sends-quiet : (n : ℕ) (s t : Net W) → t.sent ≡ s.sent → Sends n s t
  Sends-quiet n s t e =
      (λ h. subst (λ l. All (IsAllowed env) l) (sym e) h, omega (arith, ap length e))

  Sends-one : (url : String) (s t : Net W) → IsAllowed env url → t.sent ≡ url ∷ s.sent → Sends 1 s t
  Sends-one url s t allowed e =
      (λ h. subst (λ l. All (IsAllowed env) l) (sym e) (allowed, h), omega (arith, ap length e))

  pub Sends-trans : (m n : ℕ) (s t u : Net W) → Sends m s t → Sends n t u → Sends (m + n) s u
  Sends-trans m n s t u (p, a) (q, b) = (λ h. q (p h), omega arith)

  check_target-sent :
      (deadline : ℕ) (url : String) (s : Net W) → (check_target env deadline url s).1.sent ≡ s.sent
  check_target-sent deadline url s =
      let last = λ (u : Unit {0}). check_deadline env deadline in
      let checks = λ (u : Unit {0}). validate_target env url >>= last in
      >>=-sent (check_deadline env deadline) checks (check_deadline-sent env deadline)
        (λ u.
          >>=-sent (validate_target env url) last (validate_target-sent env url)
            (λ u. check_deadline-sent env deadline))
        s

  check_target-IsAllowed :
      (deadline : ℕ) (url : String) (s t : Net W)
      → check_target env deadline url s ≡ (ok tt, t)
      → IsAllowed env url
  check_target-IsAllowed deadline url s t h =
      let last = λ (u : Unit {0}). check_deadline env deadline in
      let checks = λ (u : Unit {0}). validate_target env url >>= last in
      let (u1, s1, q1, k1) = >>=-eq-ok (check_deadline env deadline) checks s h in
      let (u2, s2, q2, k2) = >>=-eq-ok (validate_target env url) last s1 k1 in
      validate_target-IsAllowed env url s1 s2 q2

  module _ (limits : Limits) (deadline : ℕ) where
    accept-sent :
        (url : String) (r : Response) (s : Net W)
        → (accept env limits deadline url r s).1.sent ≡ s.sent
    unfolding accept
    accept-sent url r s = elim (Bool-cases (leb 200 r.status_code && ltb r.status_code 300)) [
      | inl q ↦ rw q (
          >>=-sent (read_bounded env limits.max_bytes deadline r) _
            (read_bounded-sent env limits.max_bytes deadline r) (λ a t. refl) s)
      | inr q ↦ rw q refl
    ]

    -- the next round, where there is one, sends at most `n` requests
    abbrev NextSends : ℕ → Option (String → Call W FetchedFeedDocument) → Type 0
    NextSends n none = Unit
    NextSends n (some next) = (url : String) (s : Net W) → Sends n s (next url s).1

    followed-Sends :
        (n : ℕ) (next : String → Call W FetchedFeedDocument)
        → ((url : String) (s : Net W) → Sends n s (next url s).1)
        → (target : Result FetchError String) (s : Net W) → Sends n s (continue next (target, s)).1
    followed-Sends n next h (err e) s = Sends-quiet n s s refl
    followed-Sends n next h (ok url) s = h url s

    redirected-Sends :
        (n : ℕ) (next : Option (String → Call W FetchedFeedDocument))
        → NextSends n next
        → (url : String) (r : Response) (s : Net W) → Sends n s (redirected env next url r s).1
    redirected-Sends n none h url r s = Sends-quiet n s s refl
    redirected-Sends n (some next) h url r s = followed-Sends n next h (redirect_target env url r) s

    respond-Sends :
        (n : ℕ) (next : Option (String → Call W FetchedFeedDocument))
        → NextSends n next
        → (url : String) (r : Response) (s : Net W)
        → Sends n s (respond env limits deadline next url r s).1
    respond-Sends n next h url r s = elim (Bool-cases (is_redirect r.status_code)) [
      | inl q ↦ rw q (redirected-Sends n next h url r s)
      | inr q ↦ rw q (Sends-quiet n s (accept env limits deadline url r s).1 (accept-sent url r s))
    ]

    sent_to-Sends :
        (n : ℕ) (next : Option (String → Call W FetchedFeedDocument))
        → NextSends n next
        → (url : String) → IsAllowed env url
        → (r : Result FetchError Response) (s t : Net W) → t.sent ≡ url ∷ s.sent
        → Sends (1 + n) s (continue (respond env limits deadline next url) (r, t)).1
    sent_to-Sends n next h url allowed (err e) s t q =
        let (safe, few) = Sends-one url s t allowed q in (safe, omega arith)
    sent_to-Sends n next h url allowed (ok r) s t q =
        Sends-trans 1 n s t (respond env limits deadline next url r t).1
          (Sends-one url s t allowed q) (respond-Sends n next h url r t)

    checked-Sends :
        (n : ℕ) (next : Option (String → Call W FetchedFeedDocument))
        → NextSends n next
        → (url : String) (s : Net W) (r : Result FetchError (Unit {0}) × Net W)
        → check_target env deadline url s ≡ r
        → Sends
            (1 + n)
            s
            (continue (λ u. send env url >>= respond env limits deadline next url) r).1
    unfolding send
    checked-Sends n next h url s (err e, t) q =
        Sends-quiet (1 + n) s t (ap (λ x. x.1.sent) (sym q) ∙ check_target-sent deadline url s)
    checked-Sends n next h url s (ok tt, t) q =
        let kept = ap (λ x. x.1.sent) (sym q) ∙ check_target-sent deadline url s in
        let allowed = check_target-IsAllowed deadline url s t q in
        let (sent, w) = env.send url t.world in
        let after : Net W = record { world = w; sent = url ∷ t.sent } in
        sent_to-Sends n next h url allowed (received env sent) s after (ap (λ l. url ∷ l) kept)

    round-Sends :
        (n : ℕ) (next : Option (String → Call W FetchedFeedDocument))
        → NextSends n next
        → (url : String) (s : Net W) → Sends (1 + n) s (round env limits deadline next url s).1
    unfolding round
    round-Sends n next h url s = checked-Sends n next h url s (check_target env deadline url s) refl

    pub follow-Sends :
        (left : ℕ) (url : String) (s : Net W)
        → Sends (1 + left) s (follow env limits deadline left url s).1
    unfolding follow
    follow-Sends zero url s = round-Sends 0 none tt url s
    follow-Sends (suc left) url s =
        let (safe, few) =
          round-Sends (1 + left) (some (follow env limits deadline left)) (follow-Sends left) url
            s in
        (safe, omega arith)

  continued-Sends :
      {A : Type 0} (n : ℕ) (f : A → Call W FetchedFeedDocument)
      → ((a : A) (s : Net W) → Sends n s (f a s).1)
      → (s : Net W) (r : Result FetchError A × Net W) → r.1.sent ≡ s.sent
      → Sends n s (continue f r).1
  continued-Sends n f k s (err e, t) q = Sends-quiet n s t q
  continued-Sends n f k s (ok a, t) q =
      let (safe, few) = Sends-trans 0 n s t (f a t).1 (Sends-quiet 0 s t q) (k a t) in
      (safe, omega arith)

  prepared-Sends :
      (limits : Limits) (url : String) (started : ℕ) (s : Net W)
      → Sends (1 + limits.max_redirects) s (started_at env limits url started s).1
  unfolding started_at
  prepared-Sends limits url started s =
      continued-Sends (1 + limits.max_redirects) _
        (follow-Sends limits (started + limits.total_timeout) limits.max_redirects) s
        (prepare_request env "invalid_url" url, s) refl

  pub fetch_feed_document-Sends :
      (policy : FeedFetchPolicy) (url : String) (s : Net W)
      → Sends (1 + number_of policy.max_redirects) s (fetch_feed_document env policy url s).1
  unfolding fetch_feed_document validate_policy
  fetch_feed_document-Sends policy url s = elim (Bool-cases (is_valid policy)) [
    | inl q ↦ rw q (
        continued-Sends (1 + number_of policy.max_redirects) (started_at env (limits_of policy) url)
          (prepared-Sends (limits_of policy) url) s (call_lib env.monotonic s) refl)
    | inr q ↦ rw q (Sends-quiet (1 + number_of policy.max_redirects) s s refl)
  ]

  -- Whatever the servers and the resolver answer, every request of a fetch, those after a redirect
  -- included, goes to a URL without credentials, on port 80 or 443, whose host had resolved to public
  -- addresses only; and the requests are at most one more than the policy's redirects.
  pub fetch_feed_document-IsAllowed :
      (policy : FeedFetchPolicy) (url : String) (w : W)
      → let after = (fetch_feed_document env policy url (begun w)).1 in
        All (IsAllowed env) after.sent × (length after.sent ≤ 1 + number_of policy.max_redirects)
  fetch_feed_document-IsAllowed policy url w =
      let (safe, few) = fetch_feed_document-Sends policy url (begun w) in (safe tt, omega arith)

-- ===== src/Fetch/Discovery/Requests.antt =====
-- How many requests a discovery (`feeds/services.py`) sends, and where.
use daily_firehose.Common.{
  ℕ, zero, suc, ◌+◌, ◌*◌, ◌≤◌, ◌≡◌, refl, String, false, Option, none, some, List, [], ◌∷◌, any,
  length, leb, str_eq, All, Bool-cases, inl, inr, arith, Result, ok, err,
}
use daily_firehose.Fetch.Wire.{
  FetchError, feed_fetch_error, unicode_error, Net, Env, Call, continue,
}
use daily_firehose.Fetch.Target.{lift}
use daily_firehose.Fetch.Target.Allowed.{IsAllowed}
use daily_firehose.Fetch.Follow.{
  FeedFetchPolicy, FetchedFeedDocument, number_of, begun, fetch_feed_document,
}
use daily_firehose.Fetch.Follow.Sends.{Sends, Sends-quiet, Sends-trans, fetch_feed_document-Sends}
use daily_firehose.Fetch.Discovery.{
  Metadata, Finder, is_of_page, attempted_first, required, feed_metadata, validate_feed_metadata,
  or_next, try_candidates, found_or_search, after_first, discover_feed_metadata,
}

-- `k` times `n`
abbrev repeated : ℕ → ℕ → ℕ
repeated zero n = 0
repeated (suc k) n = n + repeated k n

module _ {W : Type 0} (env : Env W) (policy : FeedFetchPolicy) (finder : Finder) where
  abbrev one : ℕ
  one = 1 + number_of policy.max_redirects

  Sends-more : (m n : ℕ) (s t : Net W) → m ≤ n → Sends env m s t → Sends env n s t
  Sends-more m n s t h (safe, few) = (safe, omega (arith, h, few))

  validated-Sends :
      (s : Net W) (r : Result FetchError FetchedFeedDocument × Net W)
      → Sends env one s r.1
      → Sends env one s
          (continue
            (λ d. lift env (required env policy finder (feed_metadata env policy finder d)))
            r).1
  validated-Sends s (err e, t) h = h
  validated-Sends s (ok d, t) h = h

  validate_feed_metadata-Sends :
      (url : String) (s : Net W)
      → Sends env one s (validate_feed_metadata env policy finder url s).1
  unfolding validate_feed_metadata
  validate_feed_metadata-Sends url s =
      validated-Sends s (fetch_feed_document env policy url s)
        (fetch_feed_document-Sends env policy url s)

  or_next-Sends :
      (n : ℕ) (next : Call W Metadata)
      → ((t : Net W) → Sends env n t (next t).1)
      → (s : Net W) (r : Result FetchError Metadata × Net W) → Sends env one s r.1
      → Sends env (one + n) s (or_next env policy finder next r).1
  or_next-Sends n next h s (ok m, t) k = Sends-more one (one + n) s t (omega arith) k
  or_next-Sends n next h s (err (feed_fetch_error code message), t) k =
      Sends-trans env one n s t (next t).1 k (h t)
  or_next-Sends n next h s (err unicode_error, t) k = Sends-more one (one + n) s t (omega arith) k

  -- An attempt takes one of the `k` that are left.
  tried-Sends :
      (k : ℕ) (c : String) (attempted : List String) (s : Net W) (next : Call W Metadata)
      → leb 16 (length attempted) ≡ false
      → 16 ≤ length attempted + k
      → ((left : ℕ)
          → 16 ≤ length (c ∷ attempted) + left
          → (t : Net W) → Sends env (repeated left one) t (next t).1)
      → Sends env
          (repeated k one)
          s
          (or_next env policy finder next (validate_feed_metadata env policy finder c s)).1
  tried-Sends zero c attempted s next few h go = ground (arith, few, h)
  tried-Sends (suc left) c attempted s next few h go =
      or_next-Sends (repeated left one) next (go left (omega (arith, h))) s
        (validate_feed_metadata env policy finder c s) (validate_feed_metadata-Sends c s)

  try_candidates-Sends :
      (candidates attempted : List String) (k : ℕ)
      → 16 ≤ length attempted + k
      → (s : Net W)
      → Sends env (repeated k one) s (try_candidates env policy finder candidates attempted s).1
  unfolding try_candidates
  try_candidates-Sends [] attempted k h s = Sends-quiet env (repeated k one) s s refl
  try_candidates-Sends (c ∷ rest) attempted k h s = elim (Bool-cases (leb 16 (length attempted))) [
    | inl q ↦ rw q (Sends-quiet env (repeated k one) s s refl)
    | inr q ↦ rw q (elim (Bool-cases (any (str_eq c) attempted)) [
      | inl p ↦ rw p (try_candidates-Sends rest attempted k h s)
      | inr p ↦ rw p (
          tried-Sends k c attempted s (try_candidates env policy finder rest (c ∷ attempted)) q h
            (λ left more t. try_candidates-Sends rest (c ∷ attempted) left more t))
    ])
  ]

  some_attempted : (url final_url : String) → 1 ≤ length (attempted_first url final_url)
  some_attempted url final_url = elim (Bool-cases (str_eq url final_url)) [
    | inl q ↦ rw q (omega arith)
    | inr q ↦ rw q (omega arith)
  ]

  searched-Sends :
      (candidates : List String) (url final_url : String) (t : Net W)
      → Sends env
          (repeated 15 one)
          t
          (try_candidates env policy finder candidates (attempted_first url final_url) t).1
  searched-Sends candidates url final_url t =
      try_candidates-Sends candidates (attempted_first url final_url) 15
        (omega (arith, some_attempted url final_url)) t

  found_or_search-Sends :
      (url : String) (d : FetchedFeedDocument) (o : Option Metadata) (t : Net W)
      → Sends env (repeated 15 one) t (found_or_search env policy finder url d o t).1
  found_or_search-Sends url d (some m) t = Sends-quiet env (repeated 15 one) t t refl
  found_or_search-Sends url d none t = searched-Sends _ url d.final_url t

  after_first-Sends :
      (url : String) (s : Net W) (r : Result FetchError FetchedFeedDocument × Net W)
      → Sends env one s r.1
      → Sends env (repeated 16 one) s (after_first env policy finder url r).1
  after_first-Sends url s (ok d, t) h =
      Sends-trans env one (repeated 15 one) s t
        (found_or_search env policy finder url d (feed_metadata env policy finder d) t).1 h
        (found_or_search-Sends url d (feed_metadata env policy finder d) t)
  after_first-Sends url s (err e, t) h = elim (Bool-cases (is_of_page e)) [
    | inl q ↦ rw q (
        Sends-trans env one (repeated 15 one) s t
          (try_candidates env policy finder (finder.common_urls url) (attempted_first url "") t).1 h
          (searched-Sends (finder.common_urls url) url "" t))
    | inr q ↦ rw q (Sends-more one (repeated 16 one) s t (omega arith) h)
  ]

  -- A discovery sends at most 16 times the requests of one fetch, however many links the page has:
  -- one more than the policy's redirects for each of the 16 URLs that it may fetch. Each request goes
  -- to an allowed target.
  pub discover_feed_metadata-IsAllowed :
      (url : String) (w : W)
      → let after = (discover_feed_metadata env policy finder url (begun w)).1 in
        All (IsAllowed env) after.sent
        × (length after.sent ≤ 16 * (1 + number_of policy.max_redirects))
  unfolding discover_feed_metadata
  discover_feed_metadata-IsAllowed url w =
      let (safe, few) =
        after_first-Sends url (begun w) (fetch_feed_document env policy url (begun w))
          (fetch_feed_document-Sends env policy url (begun w)) in
      (safe tt, omega (arith, few))

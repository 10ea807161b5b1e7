-- ===== src/Fetch/Refreshed.antt =====
-- `refresh_feed` of `feeds/services.py` with the fetch of `feeds/feed_fetch.py`.
use daily_firehose.Common.{◌≡◌, refl, ℕ, true, truthy, String, Result, ok, err}
use mathlib.Core.Path.{subst}
use daily_firehose.Fetch.Wire.{FetchError, feed_fetch_error, unicode_error, Env as NetEnv}
use daily_firehose.Fetch.Follow.{
  FeedFetchPolicy, number_of, begun, FetchedFeedDocument, fetch_feed_document,
}
use daily_firehose.Fetch.Follow.Fits.{Fits, fetch_feed_document-Fits}
use daily_firehose.Refresh.Feed.{FeedStore}
use daily_firehose.Refresh.Fence.{RefreshError, feed_fetch, other, refresh_failure}
use daily_firehose.Refresh.Apply.Rows.{Below}
use daily_firehose.Refresh.Plan.Lookup.{UniqueRows}
use daily_firehose.Refresh.Run.{Env, refresh_feed}
use daily_firehose.Refresh.Run.Settled.{quiet_refresh, EndsWell, after_claim, table_of}

-- `_refresh_failure` sees the error of a fetch, and any other exception as unexpected
abbrev pub seen : Result FetchError FetchedFeedDocument → Result RefreshError FetchedFeedDocument
seen (err (feed_fetch_error code message)) = err (feed_fetch code message)
seen (err unicode_error) = err other
seen (ok document) = ok document

abbrev pub fetch_for :
    {W : Type 0}
    → NetEnv W
    → FeedFetchPolicy
    → String
    → W
    → Result RefreshError FetchedFeedDocument × W
fetch_for net policy url w =
    let (fetched, s) = fetch_feed_document net policy url (begun w) in (seen fetched, s.world)

seen-eq-err :
    {W : Type 0} (net : NetEnv W) (r : Result FetchError FetchedFeedDocument) (n : ℕ)
    → Fits net n r
    → (e : RefreshError) → seen r ≡ err e
    → (truthy (refresh_failure e).0 ≡ true) × (truthy (refresh_failure e).1 ≡ true)
unfolding refresh_failure
seen-eq-err net (err unicode_error) n h e q =
    let same : other ≡ e = cc in
    subst (λ y. (truthy (refresh_failure y).0 ≡ true) × (truthy (refresh_failure y).1 ≡ true)) same
      (refl, refl)
seen-eq-err net (err (feed_fetch_error code message)) n h e q =
    let same : feed_fetch code message ≡ e = cc in
    subst (λ y. (truthy (refresh_failure y).0 ≡ true) × (truthy (refresh_failure y).1 ≡ true)) same
      h
seen-eq-err net (ok document) n h e q = cc

-- With the fetch of `feed_fetch`, whatever the network and the policy, an attempt that nothing
-- disturbs answers a result, and never raises: a failure that leaves the articles alone and schedules
-- a retry, or a success that clears the failure state. An exception that the fetch lets pass is such
-- a failure too.
pub fetching_refresh :
    {W : Type 0} (net : NetEnv W) (policy : FeedFetchPolicy) (env : Env W FetchedFeedDocument)
    (quiet : (w : W) (s : FeedStore) → env.others w s ≡ s) (store : FeedStore) (w : W)
    → UniqueRows store.articles
    → Below (table_of store)
    → EndsWell
        (after_claim (record env { fetch = fetch_for net policy }) quiet store w)
        (refresh_feed (record env { fetch = fetch_for net policy }) store w)
fetching_refresh net policy env quiet store w unique below =
    quiet_refresh (record env { fetch = fetch_for net policy }) quiet
      (λ url w e h.
        seen-eq-err net (fetch_feed_document net policy url (begun w)).0
          (number_of policy.max_bytes) (fetch_feed_document-Fits net policy url (begun w)) e h)
      store w unique below

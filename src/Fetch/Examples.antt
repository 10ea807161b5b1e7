-- ===== src/Fetch/Examples.antt =====
-- Witnesses: a feed that redirects once, to a document of two bytes.
use daily_firehose.Common.{
  ℕ, ◌*◌, ◌+◌, ◌≤◌, ◌≡◌, refl, String, true, false, Option, none, some, err, [], ◌∷◌, length, All,
  arith, str_eq, if◌then◌else◌,
}
use daily_firehose.Fetch.Wire.{Sent, found_addresses, answered, chunk, Env}
use daily_firehose.Fetch.Target.{check_addresses, check_deadline, validate_target, prepare_request}
use daily_firehose.Fetch.Body.{
  read_bounded, read_chunks, check_length, content_length, validate_content_encoding, encodings,
}
use daily_firehose.Fetch.Target.Allowed.{IsAllowed}
use daily_firehose.Fetch.Follow.{
  FeedFetchPolicy, FetchedFeedDocument, positive, whole, begun, fetch_feed_document, started_at,
  validate_policy, follow, round, send, redirect_target, accept, document,
}
use daily_firehose.Fetch.Follow.Sends.{fetch_feed_document-IsAllowed}
use daily_firehose.Fetch.Follow.Fits.{Fits}
use daily_firehose.Fetch.Discovery.{Finder, discover_feed_metadata}
use daily_firehose.Fetch.Discovery.Requests.{discover_feed_metadata-IsAllowed}
use daily_firehose.Fetch.Refreshed.{fetch_for, fetching_refresh}
use daily_firehose.Refresh.Feed.{Feed, FeedStore}
use daily_firehose.Refresh.Fence.{unusable_feed}
use daily_firehose.Refresh.Entry.{Entry}
use daily_firehose.Refresh.Run.{Env as RunEnv, refresh_feed}
use daily_firehose.Refresh.Run.Settled.{EndsWell, after_claim}

abbrev moved : String → Option String
moved name = if str_eq name "Location" then some "/feed" else none

abbrev plain : String → Option String
plain name = none

abbrev reply : String → Sent
reply url =
    if str_eq url "http://example.org"
    then answered (record { status_code = 301; header = moved; stream = [] })
    else answered (record { status_code = 200; header = plain; stream = chunk (60 ∷ 63 ∷ []) ∷ [] })

-- the world is the clock
abbrev net : Env ℕ
net = record {
  monotonic = λ w. (w, w + 1);
  prepare = λ url. some (some url);
  split_url = λ url. some (record {
    scheme = "http";
    netloc = "example.org";
    hostname = some "example.org";
    username = none;
    password = none;
    port = none;
  });
  addresses = λ host port w. (found_addresses ("93.184.216.34" ∷ []), w);
  address = λ a. some (record { is_global = true; is_multicast = false; is_site_local = false });
  send = λ url w. (reply url, w + 1);
  join_url = λ base url. some "http://example.org/feed";
  content_length = λ text. none;
  split_comma = λ text. text ∷ [];
  strip = λ text. text;
  lower = λ text. text;
}

abbrev policy : FeedFetchPolicy
policy = record {
  connect_timeout = positive 5;
  read_timeout = positive 10;
  total_timeout = positive 30;
  max_bytes = whole 100;
  max_redirects = whole 3;
}

fetch_feed_document-IsAllowed_example :
    let after = (fetch_feed_document net policy "http://example.org" (begun 7)).1 in
    All (IsAllowed net) after.sent × (length after.sent ≤ 1 + 3)
fetch_feed_document-IsAllowed_example =
    fetch_feed_document-IsAllowed net policy "http://example.org" 7

-- the redirect is followed
requests :
    (fetch_feed_document net policy "http://example.org" (begun 7)).1.sent
    ≡ "http://example.org/feed" ∷ "http://example.org" ∷ []
unfolding fetch_feed_document started_at validate_policy prepare_request follow round send
    redirect_target accept document read_bounded read_chunks check_length content_length
    validate_content_encoding encodings validate_target check_addresses check_deadline
requests = refl

abbrev planet : Feed
planet = record {
  id = 1;
  title = "Planet";
  feed_url = "http://example.org";
  site_url = "";
  description = "";
  category = none;
  is_active = true;
  last_fetched_at = none;
  last_attempt_at = none;
  last_error_code = "";
  last_error_message = "";
  consecutive_failures = 0;
  next_retry_at = none;
  refresh_generation = 0;
  created_at = 0;
  updated_at = 0;
}

abbrev entry : Entry
entry = record {
  id = "launch";
  link = "http://example.org/launch";
  links = [];
  title = "A launch";
  author = "";
  summary = "";
  published_parsed = none;
  updated_parsed = none;
  published = none;
  updated = none;
}

abbrev reader : RunEnv ℕ FetchedFeedDocument
reader = record {
  now = λ w. (w, w + 1);
  monotonic = λ w. (w, w + 1);
  readings = λ w i. w;
  fetch = λ url w. (err unusable_feed, w);
  parse = λ d. some (record { bozo = false; info = none; entries = entry ∷ [] });
  convert = λ v. none;
  others = λ w s. s;
}

abbrev store : FeedStore
store = record { feed = planet; articles = []; next_id = 1 }

abbrev whole_run : RunEnv ℕ FetchedFeedDocument
whole_run = record reader { fetch = fetch_for net policy }

fetching_refresh_example :
    EndsWell (after_claim whole_run (λ w s. refl) store 7) (refresh_feed whole_run store 7)
fetching_refresh_example = fetching_refresh net policy reader (λ w s. refl) store 7 tt (omega arith)

abbrev finder : Finder
finder = record {
  parse = λ document. none;
  split_site = λ url. none;
  html_links = λ document. "http://example.org/feed" ∷ "http://example.org/rss" ∷ [];
  common_urls = λ url. "http://example.org/atom.xml" ∷ [];
}

discover_feed_metadata-IsAllowed_example :
    let after = (discover_feed_metadata net policy finder "http://example.org" (begun 7)).1 in
    All (IsAllowed net) after.sent × (length after.sent ≤ 16 * (1 + 3))
discover_feed_metadata-IsAllowed_example =
    discover_feed_metadata-IsAllowed net policy finder "http://example.org" 7

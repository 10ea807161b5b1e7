-- ===== src/Fetch/Follow.antt =====
-- `fetch_feed_document` of `feeds/feed_fetch.py`, its policy and its loop of redirects.
use daily_firehose.Common.{
  ℕ, zero, suc, ◌+◌, String, Bool, true, false, not, ◌&&◌, ◌||◌, Option, none, some, List, [], ◌∷◌,
  map, ltb, leb, ◌==◌, truthy, if◌then◌else◌, Result, ok, err,
}
use daily_firehose.Fetch.Wire.{
  FetchError, error_of, Response, Sent, timed_out, ssl_error, request_error, answered, Net, Env,
  Call, raise, answer, call_lib, ◌>>=◌, ◌>>◌,
}
use daily_firehose.Fetch.Target.{check_deadline, prepare_request, validate_target, lift}
use daily_firehose.Fetch.Body.{or_empty, read_bounded}
pub mod Fits
pub mod Sends

-- A number of the settings: a positive finite one, in microseconds, or anything else.
pub data Seconds : Type 0 where
  positive : ℕ → Seconds
  unusable : Seconds

-- An integer of the settings: a natural number, or anything else.
pub data Whole : Type 0 where
  whole : ℕ → Whole
  not_whole : Whole

pub record FeedFetchPolicy : Type 0 where
  pub connect_timeout : Seconds
  pub read_timeout : Seconds
  pub total_timeout : Seconds
  pub max_bytes : Whole
  pub max_redirects : Whole

-- The policy's numbers, when they are valid.
pub record Limits : Type 0 where
  pub total_timeout : ℕ
  pub max_bytes : ℕ
  pub max_redirects : ℕ

abbrev pub invalid_policy : FetchError
invalid_policy = error_of "invalid_policy" "Feed fetch policy is invalid."

abbrev pub is_positive : Seconds → Bool
is_positive (positive t) = true
is_positive unusable = false

abbrev pub time_of : Seconds → ℕ
time_of (positive t) = t
time_of unusable = 0

abbrev pub number_of : Whole → ℕ
number_of (whole n) = n
number_of not_whole = 0

abbrev pub is_whole : Whole → Bool
is_whole (whole n) = true
is_whole not_whole = false

abbrev pub is_valid : FeedFetchPolicy → Bool
is_valid p =
    is_positive p.connect_timeout
    && is_positive p.read_timeout
    && is_positive p.total_timeout
    && ltb 0 (number_of p.max_bytes)
    && is_whole p.max_redirects

abbrev pub limits_of : FeedFetchPolicy → Limits
limits_of p = record {
  total_timeout = time_of p.total_timeout;
  max_bytes = number_of p.max_bytes;
  max_redirects = number_of p.max_redirects;
}

unfoldable pub validate_policy : FeedFetchPolicy → Result FetchError Limits
validate_policy p = if is_valid p then ok (limits_of p) else err invalid_policy

pub record FetchedFeedDocument : Type 0 where
  pub content : List ℕ
  pub final_url : String
  pub response_headers : List (String × String)

-- `__post_init__`: header names in lower case
abbrev pub normalized : (String → String) → List (String × String) → List (String × String)
normalized lower headers = map (λ h. (lower h.0, h.1)) headers

abbrev pub content_type_header : Option String → List (String × String)
content_type_header none = []
content_type_header (some value) = if truthy value then ("content-type", value) ∷ [] else []

-- a fetch starts with no request sent
abbrev pub begun : {W : Type 0} → W → Net W
begun w = record { world = w; sent = [] }

-- `_REDIRECT_STATUSES`
abbrev pub is_redirect : ℕ → Bool
is_redirect code = (code == 301) || (code == 302) || (code == 303) || (code == 307) || (code == 308)

module _ {W : Type 0} (env : Env W) where
  abbrev pub received : Sent → Result FetchError Response
  received timed_out = err (error_of "timeout" "Feed request timed out.")
  received ssl_error = err (error_of "tls_failure" "Feed TLS connection failed.")
  received request_error = err (error_of "network_failure" "Feed could not be downloaded.")
  received (answered r) = ok r

  -- the URL joins those that requests were sent to
  unfoldable pub send : String → Call W Response
  send url s =
      let (sent, w) = env.send url s.world in
      (received sent, record { world = w; sent = url ∷ s.sent })

  abbrev pub joined : Option String → Result FetchError String
  joined none = err (error_of "invalid_redirect" "Feed redirect destination is invalid.")
  joined (some url) = prepare_request env "invalid_redirect" url

  unfoldable pub redirect_target : String → Response → Result FetchError String
  redirect_target url r =
      if truthy (or_empty (r.header "Location"))
      then joined (env.join_url url (or_empty (r.header "Location")))
      else err (error_of "invalid_redirect" "Feed redirect had no destination.")

  unfoldable pub document : String → Response → List ℕ → FetchedFeedDocument
  document url r content = record {
    content = content;
    final_url = url;
    response_headers =
        normalized env.lower
          (("content-location", url) ∷ content_type_header (r.header "Content-Type"));
  }

  unfoldable pub accept : Limits → ℕ → String → Response → Call W FetchedFeedDocument
  accept limits deadline url r =
      if leb 200 r.status_code && ltb r.status_code 300
      then (read_bounded env limits.max_bytes deadline r >>= λ content.
          answer (document url r content))
      else raise "http_failure" "Feed server returned an unsuccessful response."

  -- what happens to a redirect: the next round, or none where no redirect is left
  abbrev pub redirected :
      Option (String → Call W FetchedFeedDocument) → String → Response → Call W FetchedFeedDocument
  redirected none url r = raise "redirect_limit" "Feed redirected too many times."
  redirected (some next) url r = lift env (redirect_target url r) >>= next

  abbrev pub respond :
      Limits
      → ℕ
      → Option (String → Call W FetchedFeedDocument)
      → String
      → Response
      → Call W FetchedFeedDocument
  respond limits deadline next url r =
      if is_redirect r.status_code then redirected next url r else accept limits deadline url r

  abbrev pub check_target : ℕ → String → Call W (Unit {0})
  check_target deadline url = check_deadline env deadline >>= λ _.
      validate_target env url >>= λ _. check_deadline env deadline

  -- one round of the loop
  unfoldable pub round :
      Limits
      → ℕ
      → Option (String → Call W FetchedFeedDocument)
      → String
      → Call W FetchedFeedDocument
  round limits deadline next url =
      check_target deadline url >>= λ _. send url >>= respond limits deadline next url

  -- the loop, by the redirects that are left: `max_redirects` less those followed
  unfoldable pub follow : Limits → ℕ → ℕ → String → Call W FetchedFeedDocument
  follow limits deadline zero = round limits deadline none
  follow limits deadline (suc left) = round limits deadline (some (follow limits deadline left))

  -- what follows the reading of the clock
  unfoldable pub started_at : Limits → String → ℕ → Call W FetchedFeedDocument
  started_at limits url started = lift env (prepare_request env "invalid_url" url) >>= λ prepared.
      follow limits (started + limits.total_timeout) limits.max_redirects prepared

  unfoldable pub fetch_feed_document : FeedFetchPolicy → String → Call W FetchedFeedDocument
  fetch_feed_document policy url = lift env (validate_policy policy) >>= λ limits.
      call_lib env.monotonic >>= started_at limits url

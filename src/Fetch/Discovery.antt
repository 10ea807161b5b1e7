-- ===== src/Fetch/Discovery.antt =====
-- `discover_feed_metadata` of `feeds/services.py`, with `validate_feed_metadata` and `_feed_metadata`.
-- The links of a page and the common places of a feed are lists that are given.
use daily_firehose.Common.{
  ℕ, String, Bool, true, false, not, ◌&&◌, ◌||◌, Option, none, some, List, [], ◌∷◌, ◌++◌, any,
  length, ltb, leb, is_none, str_eq, truthy, or_else, prefix, text_length, if◌then◌else◌, Result,
  ok, err,
}
use daily_firehose.Fetch.Wire.{
  FetchError, feed_fetch_error, unicode_error, error_of, UrlParts, Net, Env, Call, raise, answer,
  continue, ◌>>=◌,
}
use daily_firehose.Fetch.Target.{is_http, lift}
use daily_firehose.Fetch.Follow.{FeedFetchPolicy, FetchedFeedDocument, fetch_feed_document}
pub mod Requests

-- What `feedparser.parse` answers of a feed document; the texts are `str` of the values, `""` for a
-- missing one.
pub record ParsedFeed : Type 0 where
  pub version : String
  pub has_info : Bool
  pub has_entries : Bool
  pub link : String
  pub title : String
  pub subtitle : String
  pub description : String

pub record Metadata : Type 0 where
  pub feed_url : String
  pub title : String
  pub site_url : String
  pub description : String

-- `parse` answers none where `feedparser.parse` raises, and `split_site` where `urlsplit` does; the
-- port is not read. `html_links` are the feed links of a page, and
-- `common_urls` the places where a feed commonly is.
pub record Finder : Type 0 where
  pub parse : FetchedFeedDocument → Option ParsedFeed
  pub split_site : String → Option UrlParts
  pub html_links : FetchedFeedDocument → List String
  pub common_urls : String → List String

abbrev pub invalid_feed : String → FetchError
invalid_feed message = error_of "invalid_feed" message

abbrev pub none_found : FetchError
none_found =
    invalid_feed "No valid RSS or Atom feed was found at this URL or its common feed locations."

-- the failures of a page that may have a feed beside it
abbrev pub is_of_page : FetchError → Bool
is_of_page (feed_fetch_error code message) =
    str_eq code "http_failure" || str_eq code "invalid_content"
is_of_page unicode_error = false

-- the set of the URLs that need no further attempt
abbrev pub attempted_first : String → String → List String
attempted_first url final_url = if str_eq url final_url then url ∷ [] else url ∷ final_url ∷ []

module _ {W : Type 0} (env : Env W) (policy : FeedFetchPolicy) (finder : Finder) where
  abbrev pub is_site : UrlParts → Bool
  is_site p = is_http env p && truthy p.netloc && is_none p.username && is_none p.password

  abbrev pub site_or_empty : String → Option UrlParts → String
  site_or_empty url none = ""
  site_or_empty url (some p) = if is_site p && not (ltb 200 (text_length url)) then url else ""

  abbrev pub metadata_of : FetchedFeedDocument → Option ParsedFeed → Option Metadata
  metadata_of document none = none
  metadata_of document (some p) =
      if truthy p.version && (p.has_info || p.has_entries)
      then some (record {
        feed_url = document.final_url;
        title = prefix 255 (or_else p.title document.final_url);
        site_url = site_or_empty p.link (finder.split_site p.link);
        description = or_else p.subtitle p.description;
      })
      else none

  unfoldable pub feed_metadata : FetchedFeedDocument → Option Metadata
  feed_metadata document = metadata_of document (finder.parse document)

  -- the check of the URL's length
  abbrev pub storable : Metadata → Result FetchError Metadata
  storable m =
      if ltb 200 (text_length m.feed_url)
      then err (invalid_feed "The discovered feed URL is too long to save.")
      else ok m

  abbrev pub required : Option Metadata → Result FetchError Metadata
  required none = err (invalid_feed "The URL did not return a valid RSS or Atom feed.")
  required (some m) = storable m

  unfoldable pub validate_feed_metadata : String → Call W Metadata
  validate_feed_metadata url = fetch_feed_document env policy url >>= λ document.
      lift env (required (feed_metadata document))

  -- `except FeedFetchError: continue`
  abbrev pub or_next :
      Call W Metadata → Result FetchError Metadata × Net W → Result FetchError Metadata × Net W
  or_next next (ok m, s) = (ok m, s)
  or_next next (err (feed_fetch_error code message), s) = next s
  or_next next (err unicode_error, s) = (err unicode_error, s)

  -- the loop over the candidates, and the error after it
  unfoldable pub try_candidates : List String → List String → Call W Metadata
  try_candidates [] attempted = lift env (err none_found)
  try_candidates (candidate ∷ rest) attempted =
      let skip = try_candidates rest attempted in
      let after = try_candidates rest (candidate ∷ attempted) in
      if leb 16 (length attempted)
      then lift env (err none_found)
      else if any (str_eq candidate) attempted
      then skip
      else (λ s. or_next after (validate_feed_metadata candidate s))

  abbrev pub found_or_search : String → FetchedFeedDocument → Option Metadata → Call W Metadata
  found_or_search url document (some m) = lift env (storable m)
  found_or_search url document none =
      try_candidates
        (finder.html_links document
          ++ finder.common_urls document.final_url
          ++ finder.common_urls url)
        (attempted_first url document.final_url)

  abbrev pub after_first :
      String → Result FetchError FetchedFeedDocument × Net W → Result FetchError Metadata × Net W
  after_first url (ok document, s) = found_or_search url document (feed_metadata document) s
  after_first url (err e, s) =
      if is_of_page e
      then try_candidates (finder.common_urls url) (attempted_first url "") s
      else (err e, s)

  unfoldable pub discover_feed_metadata : String → Call W Metadata
  discover_feed_metadata url s = after_first url (fetch_feed_document env policy url s)

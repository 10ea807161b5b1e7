-- ===== src/Delivery/Remote.antt =====
-- What the delivery code of feeds/services.py asks of the code around it: exceptions, responses,
-- the bookmark that is posted. The HTTP client, URL splitting, HTML parsing and the clock are
-- the environment `Env`, over a world `W` that each call may change.
use daily_firehose.Common.{
  ℕ, String, Bool, true, false, Option, none, some, List, if◌then◌else◌, str_eq, truthy, Result,
  err, ◌+++◌, join_words, filter, map,
}
use daily_firehose.Delivery.Row.{Article}
use daily_firehose.Delivery.Json.{Json}

-- An exception by what `isinstance` answers of it, with the status of its response, and `str`.
pub record Exc : Type 0 where
  pub is_not_configured : Bool
  pub is_url_mismatch : Bool
  pub is_timeout : Bool
  pub is_connection_error : Bool
  pub is_http_error : Bool
  pub is_value_error : Bool
  pub is_request_exception : Bool
  pub status : Option ℕ
  pub message : String

abbrev plain_exc : String → Exc
plain_exc message = record {
  is_not_configured = false;
  is_url_mismatch = false;
  is_timeout = false;
  is_connection_error = false;
  is_http_error = false;
  is_value_error = false;
  is_request_exception = false;
  status = none;
  message = message;
}

-- `class LinkdingNotConfigured(ValueError)`
abbrev pub linkding_not_configured : Exc
linkding_not_configured = record (plain_exc "LINKDING_TOKEN is not configured") {
  is_not_configured = true;
  is_value_error = true;
}

-- `class LinkdingBookmarkUrlMismatch(ValueError)`; `repr` is Python's quoting of a text
abbrev pub linkding_url_mismatch : (String → String) → String → String → Exc
linkding_url_mismatch repr expected received =
    record (plain_exc (
      "Linkding returned a different bookmark URL: expected "
      +++ repr expected
      +++ ", received "
      +++ repr received)) { is_url_mismatch = true; is_value_error = true }

-- The `AttributeError` of `.get` on a value that is no dictionary.
abbrev pub attribute_error : Exc
attribute_error = plain_exc "object has no attribute 'get'"

pub record SplitResult : Type 0 where
  pub scheme : String
  pub netloc : String
  pub path : String
  pub query : String
  pub fragment : String

pub record Bookmark : Type 0 where
  pub url : String
  pub title : String
  pub description : String
  pub tag_names : List String

-- What `requests` answers: the status, what `raise_for_status()` raises, what `json()` does.
pub record Response : Type 0 where
  pub status_code : ℕ
  pub raise_for_status : Option Exc
  pub json : Result Exc Json

pub record Env (W : Type 0) : Type 0 where
  pub now : W → ℕ × W  -- timezone.now()
  pub post : String → String → Bookmark → W → Result Exc Response × W  -- endpoint, token, json
  pub fetch : String → String → String → W → Result Exc Response × W  -- endpoint, token, url
  pub urlsplit : String → Result Exc SplitResult
  pub urlunsplit : SplitResult → String
  pub strip : String → String
  pub lower : String → String
  pub text_parts : String → List String  -- what `HTMLParser` hands to `handle_data`
  pub repr : Json → String
  pub quote : String → String  -- repr of a text

-- `raise_for_status()` before the body is read
abbrev pub checked_json : Response → Result Exc Json
checked_json r = elim r.raise_for_status [ some e ↦ err e | none ↦ r.json ]

module _ {W : Type 0} (env : Env W) where
  -- `_TextExtractor.text`
  extracted_text : String → String
  extracted_text summary =
      join_words (map env.strip (filter (λ p. truthy (env.strip p)) (env.text_parts summary)))

  unfoldable pub linkding_description : Article → String
  unfolding extracted_text
  linkding_description article =
      let description = extracted_text article.summary in
      if str_eq (env.lower description) "comments" then "" else description

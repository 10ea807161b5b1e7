-- ===== src/Delivery/Exchange.antt =====
-- The exchange with Linkding (feeds/services.py): `canonical_bookmark_url`, `save_to_linkding`,
-- `find_linkding_bookmark`, `_classify_linkding_error` and `_deliver_bookmark`.
use daily_firehose.Common.{
  ℕ, String, Bool, true, false, ◌&&◌, ◌||◌, Option, none, some, [], ◌∷◌, ltb, leb, ◌==◌,
  if◌then◌else◌, str_eq, truthy, or_else, Result, ok, err, ◌>>=◌, ◌+++◌, rstrip,
}
use daily_firehose.Delivery.Row.{
  ErrorClass, Article, LinkdingDelivery, not_configured, timeout, connection, rate_limited,
  server_error, auth, client_error, invalid_response, url_mismatch, unexpected,
}
use daily_firehose.Delivery.Json.{Json, Fields, null, get, as_dict, text_or_empty}
use daily_firehose.Delivery.Remote.{
  Exc, Response, Env, linkding_not_configured, linkding_url_mismatch, attribute_error, checked_json,
  linkding_description,
}

-- `isinstance` tests in the source's order; a status outside the three groups is a client error
http_class : Option ℕ → ErrorClass × Bool
http_class none = (client_error, false)
http_class (some status) =
    if status == 429
    then (rate_limited, true)
    else if status == 401 || status == 403
    then (auth, true)
    else if leb 500 status && ltb status 600
    then (server_error, true)
    else (client_error, false)

unfoldable pub classify_linkding_error : Exc → ErrorClass × Bool
unfolding http_class
classify_linkding_error e =
    if e.is_not_configured
    then (not_configured, true)
    else if e.is_url_mismatch
    then (url_mismatch, false)
    else if e.is_timeout
    then (timeout, true)
    else if e.is_connection_error
    then (connection, true)
    else if e.is_http_error
    then http_class e.status
    else if e.is_value_error
    then (invalid_response, true)
    else if e.is_request_exception
    then (connection, true)
    else (unexpected, true)

module _ {W : Type 0} (env : Env W) where
  unfoldable pub canonical_bookmark_url : String → Result Exc String
  canonical_bookmark_url url = env.urlsplit (env.strip url) >>= λ parts. ok (
      env.urlunsplit (record {
        scheme = env.lower parts.scheme;
        netloc = env.lower parts.netloc;
        path = or_else parts.path "/";
        query = parts.query;
        fragment = "";
      }))

  -- `canonical_bookmark_url(a) == canonical_bookmark_url(b)`
  unfoldable pub same_bookmark_url : String → String → Result Exc Bool
  unfolding canonical_bookmark_url
  same_bookmark_url a b =
      canonical_bookmark_url a >>= λ x. canonical_bookmark_url b >>= λ y. ok (str_eq x y)

  -- from `response.raise_for_status()` to the end of `save_to_linkding`
  abbrev accept_bookmark : Article → Response → Result Exc Fields
  accept_bookmark article response = checked_json response >>= λ body. elim (as_dict body) [
    | none ↦ err attribute_error
    | some bookmark ↦
        let returned = text_or_empty env.repr (get "url" bookmark) in
        same_bookmark_url returned article.url >>= λ same.
        if same then ok bookmark else err (linkding_url_mismatch env.quote article.url returned)
  ]

  unfoldable pub save_to_linkding : String → String → Article → W → Result Exc Fields × W
  save_to_linkding base_url token article w =
      if truthy token
      then (let (answer, w') =
            env.post (rstrip 47 base_url +++ "/api/bookmarks/") token
              (record {
                url = article.url;
                title = article.title;
                description = linkding_description env article;
                tag_names = "toread" ∷ [];
              })
              w in
          (answer >>= accept_bookmark article, w'))
      else (err linkding_not_configured, w)

  -- the `except` clause of the lookup swallows transport errors and unreadable bodies
  abbrev swallowed : Exc → Result Exc Json
  swallowed e = if e.is_request_exception || e.is_value_error then ok null else err e

  -- the `try` block: no payload is `null`, which is no dictionary either
  abbrev check_payload : Result Exc Response → Result Exc Json
  check_payload (err e) = swallowed e
  check_payload (ok response) =
      if leb 400 response.status_code
      then ok null
      else elim response.json [ ok body ↦ ok body | err e ↦ swallowed e ]

  abbrev matching_bookmark : String → Json → Result Exc (Option Fields)
  matching_bookmark url payload = elim (as_dict payload) [
    | none ↦ ok none
    | some payload ↦ elim (as_dict (get "bookmark" payload)) [
      | none ↦ ok none
      | some bookmark ↦
          same_bookmark_url (text_or_empty env.repr (get "url" bookmark)) url >>= λ same.
          ok (if same then some bookmark else none)
    ]
  ]

  unfoldable pub find_linkding_bookmark :
      String → String → String → W → Result Exc (Option Fields) × W
  find_linkding_bookmark base_url token url w =
      if truthy token
      then (let (answer, w') =
            env.fetch (rstrip 47 base_url +++ "/api/bookmarks/check/") token url w in
          (check_payload answer >>= matching_bookmark url, w'))
      else (ok none, w)

  -- what `_deliver_bookmark` does with the answer of the lookup
  abbrev adopt_or_create :
      String → String → Article → Result Exc (Option Fields) × W → Result Exc Fields × W
  adopt_or_create base_url token article (err e, w) = (err e, w)
  adopt_or_create base_url token article (ok (some bookmark), w) = (ok bookmark, w)
  adopt_or_create base_url token article (ok none, w) = save_to_linkding base_url token article w

  unfoldable pub deliver_bookmark :
      String → String → Article → LinkdingDelivery → W → Result Exc Fields × W
  deliver_bookmark base_url token article delivery w =
      if ltb 1 delivery.attempts
      then adopt_or_create base_url token article
          (find_linkding_bookmark base_url token delivery.url w)
      else save_to_linkding base_url token article w

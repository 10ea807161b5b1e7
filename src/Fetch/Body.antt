-- ===== src/Fetch/Body.antt =====
-- `_content_length`, `_validate_content_encoding`, `_classify_stream_error` and `_read_bounded` of
-- `feeds/feed_fetch.py`.
use daily_firehose.Common.{
  ℕ, ◌+◌, String, Bool, true, false, not, Option, none, some, List, [], ◌∷◌, ◌++◌, map, filter, any,
  length, ltb, str_eq, truthy, if◌then◌else◌, Result, ok, err,
}
use daily_firehose.Fetch.Wire.{
  FetchError, error_of, StreamEvent, chunk, broken, Response, Net, Env, Call, raise, answer, ◌>>=◌,
  ◌>>◌,
}
use daily_firehose.Fetch.Target.{check_deadline, lift}
pub mod Bounded

abbrev pub or_empty : Option String → String
or_empty none = ""
or_empty (some value) = value

abbrev pub classify_stream_error : Bool → Bool → FetchError
classify_stream_error true timeout = error_of "tls_failure" "Feed TLS connection failed."
classify_stream_error false true = error_of "timeout" "Feed request timed out."
classify_stream_error false false = error_of "network_failure" "Feed could not be downloaded."

abbrev pub is_over : ℕ → Option ℕ → Bool
is_over max_bytes none = false
is_over max_bytes (some length) = ltb max_bytes length

abbrev pub parsed_length : (String → Option ℕ) → Option String → Option ℕ
parsed_length int none = none
parsed_length int (some value) = int value

abbrev pub too_large : FetchError
too_large = error_of "response_too_large" "Feed response is too large."

module _ {W : Type 0} (env : Env W) where
  unfoldable pub encodings : Response → List String
  encodings r =
      map (λ e. env.lower (env.strip e))
        (filter truthy (env.split_comma (or_empty (r.header "Content-Encoding"))))

  unfoldable pub validate_content_encoding : Response → Result FetchError (Unit {0})
  validate_content_encoding r =
      if any (λ e. not (str_eq e "identity")) (encodings r)
      then err
          (error_of "unsupported_encoding" "Feed response used an unsupported content encoding.")
      else ok tt

  unfoldable pub content_length : Response → Option ℕ
  content_length r = parsed_length env.content_length (r.header "Content-Length")

  unfoldable pub check_length : ℕ → Response → Result FetchError (Unit {0})
  check_length max_bytes r = if is_over max_bytes (content_length r) then err too_large else ok tt

  -- The loop over the chunks; the bytes that it has joined are the bytes received. An empty chunk
  -- adds none, and the bytes received are within the limit already, so that it is skipped.
  unfoldable pub read_chunks : ℕ → ℕ → List StreamEvent → List ℕ → Call W (List ℕ)
  read_chunks max_bytes deadline [] received s = (ok received, s)
  read_chunks max_bytes deadline (broken tls timeout ∷ rest) received s =
      (err (classify_stream_error tls timeout), s)
  read_chunks max_bytes deadline (chunk bytes ∷ rest) received s =
      (check_deadline env deadline >>= λ _.
      if ltb max_bytes (length (received ++ bytes))
      then lift env (err too_large)
      else read_chunks max_bytes deadline rest (received ++ bytes))
        s

  abbrev pub nonempty : List ℕ → Result FetchError (List ℕ)
  nonempty [] = err (error_of "invalid_content" "Feed response was empty.")
  nonempty (b ∷ rest) = ok (b ∷ rest)

  unfoldable pub read_bounded : ℕ → ℕ → Response → Call W (List ℕ)
  read_bounded max_bytes deadline r = lift env (validate_content_encoding r) >>= λ _.
      lift env (check_length max_bytes r) >>= λ _. check_deadline env deadline >>= λ _.
      read_chunks max_bytes deadline r.stream [] >>= λ content. lift env (nonempty content)

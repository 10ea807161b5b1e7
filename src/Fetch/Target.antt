-- ===== src/Fetch/Target.antt =====
-- `_check_deadline`, `_prepare_request` and `_validate_target` of `feeds/feed_fetch.py`.
use daily_firehose.Common.{
  ℕ, String, Bool, true, false, not, ◌&&◌, ◌||◌, Option, none, some, List, [], ◌∷◌, is_none,
  is_some, leb, ◌==◌, str_eq, truthy, if◌then◌else◌, Result, ok, err,
}
use daily_firehose.Fetch.Wire.{
  FetchError, unicode_error, error_of, Lookup, found_addresses, os_error, not_encodable, UrlParts,
  Address, Net, Env, Call, raise, answer, call_lib, ◌>>=◌, ◌>>◌,
}
pub mod Allowed
pub mod Explained

module _ {W : Type 0} (env : Env W) where
  unfoldable pub check_deadline : ℕ → Call W (Unit {0})
  check_deadline deadline = call_lib env.monotonic >>= λ now.
      if leb deadline now
      then raise "timeout" "Feed request exceeded its total time limit."
      else answer tt

  abbrev pub invalid_request : String → String
  invalid_request code =
      if str_eq code "invalid_redirect"
      then "Feed redirect destination is invalid."
      else "Feed URL is invalid."

  abbrev pub prepared_url : String → Option (Option String) → Result FetchError String
  prepared_url code none = err (error_of code (invalid_request code))
  prepared_url code (some none) = err (error_of code "Feed URL is invalid.")
  prepared_url code (some (some url)) = ok url

  unfoldable pub prepare_request : String → String → Result FetchError String
  prepare_request code url = prepared_url code (env.prepare url)

  abbrev pub is_http : UrlParts → Bool
  is_http p = str_eq p.scheme "http" || str_eq p.scheme "https"

  -- the tests on the parts of a URL
  abbrev pub is_plain_http : UrlParts → Bool
  is_plain_http p =
      is_http p && truthy p.netloc && is_some p.hostname && is_none p.username && is_none p.password

  abbrev pub effective_port : UrlParts → Option ℕ → ℕ
  effective_port p (some port) = port
  effective_port p none = if str_eq p.scheme "https" then 443 else 80

  -- `_ALLOWED_PORTS`
  abbrev pub is_allowed_port : ℕ → Bool
  is_allowed_port port = (port == 80) || (port == 443)

  abbrev pub is_public : Address → Bool
  is_public a = a.is_global && not a.is_multicast && not a.is_site_local

  abbrev pub check_address :
      Option Address → Result FetchError (Unit {0}) → Result FetchError (Unit {0})
  check_address none others = err (error_of "dns_failure" "Feed host returned an invalid address.")
  check_address (some ip) others =
      if is_public ip
      then others
      else err (error_of "blocked_target" "Feed URL resolves to a blocked network address.")

  -- the loop over the addresses
  unfoldable pub check_addresses : List String → Result FetchError (Unit {0})
  check_addresses [] = ok tt
  check_addresses (a ∷ rest) = check_address (env.address a) (check_addresses rest)

  -- the `except OSError`, which lets a `UnicodeError` pass, and the test on the answer
  abbrev pub resolved : Lookup → Result FetchError (List String)
  resolved os_error = err (error_of "dns_failure" "Feed host could not be resolved.")
  resolved not_encodable = err unicode_error
  resolved (found_addresses []) = err (error_of "dns_failure" "Feed host could not be resolved.")
  resolved (found_addresses (a ∷ rest)) = ok (a ∷ rest)

  abbrev pub lift : {A : Type 0} → Result FetchError A → Call W A
  lift r s = (r, s)

  abbrev pub resolve : String → ℕ → Call W (Unit {0})
  resolve host port = call_lib (env.addresses host port) >>= λ found.
      lift (resolved found) >>= λ addresses. lift (check_addresses addresses)

  abbrev pub check_port : UrlParts → Option String → Call W (Unit {0})
  check_port p none =
      raise "invalid_url" "Feed URL must be an absolute HTTP(S) URL without credentials."
  check_port p (some host) =
      let port = effective_port p p.port in
      if is_allowed_port port
      then resolve host port
      else raise "blocked_port" "Feed URL must use destination port 80 or 443."

  abbrev pub check_parts : Option UrlParts → Call W (Unit {0})
  check_parts none = raise "invalid_url" "Feed URL is invalid."
  check_parts (some p) =
      if is_plain_http p
      then check_port p p.hostname
      else raise "invalid_url" "Feed URL must be an absolute HTTP(S) URL without credentials."

  unfoldable pub validate_target : String → Call W (Unit {0})
  validate_target url = check_parts (env.split_url url)

-- ===== src/Fetch/Wire.antt =====
-- What `feeds/feed_fetch.py` sends and receives, and the libraries that it calls: `requests`, the
-- resolver, `urlsplit` and `ipaddress`.
use daily_firehose.Common.{ℕ, String, Bool, Option, List, Result, ok, err}
pub mod Laws

-- What a fetch raises: a `FeedFetchError`, with its code and message, or the `UnicodeError` of a
-- host's name that cannot be encoded, which no `except` of the fetch catches.
pub data FetchError : Type 0 where
  feed_fetch_error : String → String → FetchError
  unicode_error : FetchError

abbrev pub error_of : String → String → FetchError
error_of code message = feed_fetch_error code message

-- What `getaddrinfo` does: it answers addresses, or raises an `OSError`, or a `UnicodeError` where a
-- label of the name is empty or too long.
pub data Lookup : Type 0 where
  found_addresses : List String → Lookup
  os_error not_encodable : Lookup

-- What `urlsplit` and its attributes answer.
pub record UrlParts : Type 0 where
  pub scheme : String
  pub netloc : String
  pub hostname : Option String
  pub username : Option String
  pub password : Option String
  pub port : Option ℕ

-- `ipaddress.ip_address`; `is_site_local` is false where an address has no such attribute
pub record Address : Type 0 where
  pub is_global : Bool
  pub is_multicast : Bool
  pub is_site_local : Bool

-- What `iter_content` yields: a chunk of bytes, or the exception that ends it, by the tests of
-- `_classify_stream_error` on it and on what is nested in it.
pub data StreamEvent : Type 0 where
  chunk : List ℕ → StreamEvent
  broken : Bool → Bool → StreamEvent

pub record Response : Type 0 where
  pub status_code : ℕ
  pub header : String → Option String
  pub stream : List StreamEvent

-- `session.send`
pub data Sent : Type 0 where
  timed_out ssl_error request_error : Sent
  answered : Response → Sent

-- The network as one fetch sees it: a world, and the URLs that requests were sent to, the last one
-- first.
pub record Net (W : Type 0) : Type 0 where
  pub world : W
  pub sent : List String

-- The libraries. `prepare` answers none where `Request(...).prepare()` raises; `split_url` where
-- `urlsplit` or the port raises a `ValueError`; `addresses` is `getaddrinfo`; `address` and `content_length` where `ip_address` and `int` raise a `ValueError`. A negative
-- length reads as 0, which is below every limit as well.
pub record Env (W : Type 0) : Type 0 where
  pub monotonic : W → ℕ × W
  pub prepare : String → Option (Option String)
  pub split_url : String → Option UrlParts
  pub addresses : String → ℕ → W → Lookup × W
  pub address : String → Option Address
  pub send : String → W → Sent × W
  pub join_url : String → String → Option String
  pub content_length : String → Option ℕ
  pub split_comma : String → List String
  pub strip : String → String
  pub lower : String → String

-- A call on the network that may raise.
abbrev pub Call : Type 0 → Type 0 → Type 0
Call W A = Net W → Result FetchError A × Net W

abbrev pub raise : {W A : Type 0} → String → String → Call W A
raise code message s = (err (error_of code message), s)

abbrev pub answer : {W A : Type 0} → A → Call W A
answer a s = (ok a, s)

abbrev pub continue :
    {W A B : Type 0} → (A → Call W B) → Result FetchError A × Net W → Result FetchError B × Net W
continue next (err e, s) = (err e, s)
continue next (ok a, s) = next a s

infixl 5 ◌>>=◌ ◌>>◌
abbrev pub ◌>>=◌ : {W A B : Type 0} → Call W A → (A → Call W B) → Call W B
◌>>=◌ call next s = continue next (call s)

abbrev pub ◌>>◌ : {W B : Type 0} → Call W (Unit {0}) → Call W B → Call W B
call >> next = call >>= λ _. next

-- a call that raises nothing
abbrev pub call_lib : {W A : Type 0} → (W → A × W) → Call W A
call_lib f s = let (a, w) = f s.world in (ok a, record s { world = w })

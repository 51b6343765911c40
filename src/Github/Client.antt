-- ===== src/Github/Client.antt =====
-- crates/rationale-github/src/client.rs: the read-only client. The server is a function of the
-- requests sent before and of the request: it may answer in any way. URLs are a type with the
-- functions of the library `url`, and the decoders of JSON are parameters as well.
pub mod Fetch
pub mod Scope
pub mod Steps
pub mod Within
pub mod Panics
mod Tests
use rationale.Prelude.{
  ℕ, zero, suc, ◌+◌, ◌-◌, ◌*◌, ◌^◌, Bool, true, false, not, ◌&&◌, ◌||◌, ◌==◌, Option, none, some,
  List, [], ◌∷◌, ◌++◌, keep, any, min, length, ltb, leb, if◌then◌else◌,
}
use rationale.Prelude.Int.{ℤ, pos}
use rationale.Order.{list_ord, nat_ord}
use rationale.Result.{Result, ok, err, ok_or, fail_if, ◌>>=◌, ◌>>◌}
use rationale.Map.{Map, insert}
use rationale.Text.{Text, codes, text_eq, is_empty, ends_with, strip_prefix, strip_suffix, trim}
use rationale.Text.Split.{split}
use rationale.Text.Decimal.{parse_unsigned, print}
use rationale.Github.{
  GithubError, client_configuration, transport, http_status, resource_limit, invalid_response,
  invalid_pagination, invalid_cursor, RateLimit, GithubCursor, GithubSyncOutcome, updated,
  not_modified, merge_rate_limit, or_else,
}
use rationale.Github.Remote.{GithubRepository, slug}
use rationale.Github.Normalize.{ApiItem, ApiCommit, u64_limit, build_evidence}
use rationale.Engine.Evidence.{Library}

abbrev pub max_response_bytes : ℕ
max_response_bytes = 8 * 1024 * 1024

abbrev pub max_pages : ℕ
max_pages = 100

abbrev pub max_records : ℕ
max_records = 10000

abbrev pub max_requests : ℕ
max_requests = 1000

abbrev pub Bytes : Type 0
Bytes = List ℕ

pub record TransportError : Type 0 where
  pub is_timeout : Bool
  pub is_connect : Bool
  pub is_body : Bool

-- Behind the chunks the body ends, or an error comes.
pub record Response : Type 0 where
  pub status : ℕ
  -- The value under a name, when it is there and is visible ASCII.
  pub header : Text → Option Text
  pub chunks : List Bytes
  pub body_error : Option TransportError

pub record Request (Url : Type 0) : Type 0 where
  pub url : Url
  pub if_none_match : Option Text

-- `url::Url` and the decoders of `serde_json`.
pub record Web : Type 1 where
  pub Url : Type 0
  pub parse_url : Text → Option Url
  pub join : Url → Text → Option Url
  pub scheme : Url → Text
  pub host_str : Url → Option Text
  pub port_or_known_default : Url → Option ℕ
  pub username : Url → Text
  pub password : Url → Option Text
  pub query : Url → Option Text
  pub fragment : Url → Option Text
  pub url_path : Url → Text
  -- `set_path`
  pub with_path : Text → Url → Url
  -- `HeaderValue::from_str` accepts, and `ClientBuilder::build` succeeds.
  pub is_header_value : Text → Bool
  pub builds : Bool
  pub decode_items : Bytes → Option (List ApiItem)
  pub decode_commits : Bytes → Option (List ApiCommit)
  pub decode_cursor : Text → Option GithubCursor

-- What goes wrong: an error that is returned, or a panic of `unreachable!`.
pub data Failure : Type 0 where
  failed : GithubError → Failure
  panicked : Failure

pub data Page (T : Type 0) : Type 0 where
  -- items, next, etag, rate_limit
  fresh : List T → Option Text → Option Text → RateLimit → Page T
  unchanged : RateLimit → Page T

pub data Collection (T : Type 0) : Type 0 where
  -- items, etag, rate_limit
  collected : List T → Option Text → RateLimit → Collection T
  same : RateLimit → Collection T

-- A variable of the environment that is set and not blank.
abbrev pub not_blank : Option Text → Option Text
not_blank none = none
not_blank (some value) = if is_empty (trim value) then none else some value

-- The token of `from_environment`: of `GH_TOKEN`, then of `GITHUB_TOKEN`.
unfoldable pub environment_token : Option Text → Option Text → Option Text
unfolding trim
environment_token gh_token github_token = or_else (not_blank gh_token) (not_blank github_token)

abbrev pub is_set : {A : Type 0} → Option A → Bool
is_set none = false
is_set (some a) = true

-- The token's header is refused.
abbrev pub bad_token : Web → Option Text → Bool
bad_token web none = false
bad_token web (some token) = not (web.is_header_value (codes "Bearer " ++ trim token))

unfoldable pub bad_base : (web : Web) → web.Url → Bool
bad_base web url =
    not (text_eq (web.scheme url) (codes "http") || text_eq (web.scheme url) (codes "https"))
    || (not (is_set (web.host_str url))
        || (not (is_empty (web.username url))
            || (is_set (web.password url)
                || (is_set (web.query url) || is_set (web.fragment url)))))

abbrev pub slashed : (web : Web) → web.Url → web.Url
slashed web url =
    if ends_with (codes "/") (web.url_path url)
    then url
    else web.with_path (web.url_path url ++ codes "/") url

-- `with_api_base`: the base that the client keeps.
unfoldable pub with_api_base : (web : Web) → Text → Option Text → Result web.Url GithubError
unfolding bad_base ends_with trim
with_api_base web api_base token = do
  fail_if (bad_token web token) client_configuration
  url ← ok_or (web.parse_url api_base) client_configuration
  fail_if (bad_base web url) client_configuration
  fail_if (not web.builds) client_configuration
  ok (slashed web url)

unfoldable pub transport_category : TransportError → Text
transport_category e =
    if e.is_timeout
    then codes "timeout"
    else if e.is_connect
    then codes "connection"
    else if e.is_body
    then codes "body"
    else codes "transport"

unfoldable pub numeric_header : Response → Text → Option ℕ
unfolding parse_unsigned
numeric_header response name = elim (response.header name) [
  | none ↦ none
  | some value ↦ parse_unsigned u64_limit value
]

-- `i64::try_from(value).ok()`
abbrev pub to_i64 : Option ℕ → Option ℤ
to_i64 none = none
to_i64 (some value) = if ltb value (2 ^ 63) then some (pos value) else none

unfoldable pub response_rate_limit : Response → RateLimit
unfolding numeric_header
response_rate_limit response = record {
  limit = numeric_header response (codes "x-ratelimit-limit");
  remaining = numeric_header response (codes "x-ratelimit-remaining");
  reset_at = to_i64 (numeric_header response (codes "x-ratelimit-reset"));
}

-- `url.strip_prefix('<')?.strip_suffix('>')`
abbrev pub within_brackets : Text → Option Text
within_brackets url = elim (strip_prefix (codes "<") url) [
  | none ↦ none
  | some rest ↦ strip_suffix (codes ">") rest
]

-- One part of a link header.
unfoldable pub link_part : List Text → Option Text
unfolding trim strip_prefix strip_suffix
link_part [] = none
link_part (url ∷ pieces) =
    if any (λ piece. text_eq (trim piece) (codes "rel=\"next\"")) pieces
    then within_brackets (trim url)
    else none

unfoldable pub first_next : List Text → Option Text
unfolding link_part split
first_next [] = none
first_next (part ∷ parts) = elim (link_part (split (λ c. c == b';') part)) [
  | none ↦ first_next parts
  | some url ↦ some url
]

unfoldable pub next_link : Text → Option Text
unfolding first_next split
next_link value = first_next (split (λ c. c == b',') value)

-- The loop over the chunks.
unfoldable pub collect_body :
    Text → Option TransportError → Bytes → List Bytes → Result Bytes GithubError
unfolding transport_category
collect_body endpoint body_error body [] = elim body_error [
  | none ↦ ok body
  | some e ↦ err (transport endpoint (transport_category e))
]
collect_body endpoint body_error body (chunk ∷ chunks) =
    let rest = collect_body endpoint body_error (body ++ chunk) chunks in
    if ltb max_response_bytes (min (length body + length chunk) (2 ^ 64 - 1))
    then err (resource_limit (codes "response byte") max_response_bytes)
    else rest

unfoldable pub bounded_body : Response → Text → Result Bytes GithubError
unfolding collect_body
bounded_body response endpoint = collect_body endpoint response.body_error [] response.chunks

abbrev pub next_of : Option Text → Option Text
next_of none = none
next_of (some link) = next_link link

-- `page`, behind the response.
unfoldable pub read_page :
    {T : Type 0} → (Bytes → Option (List T)) → Text → Response → Result (Page T) GithubError
unfolding response_rate_limit bounded_body next_link
read_page decode endpoint response =
    if response.status == 304
    then ok (unchanged (response_rate_limit response))
    else if not (leb 200 response.status && ltb response.status 300)
    then err (http_status endpoint response.status)
    else (do
      body ← bounded_body response endpoint
      items ← ok_or (decode body) (invalid_response endpoint)
      ok (
          fresh items (next_of (response.header (codes "link"))) (response.header (codes "etag"))
            (response_rate_limit response)))

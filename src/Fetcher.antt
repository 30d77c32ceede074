-- ===== src/Fetcher.antt =====
-- SafeHttpFetcher of backend/src/newsintel/adapters/http/safe_fetcher.py: a GET that follows redirects
-- itself, so that each target is validated before it is requested. urlsplit, urljoin, name resolution
-- and the HTTP client are parameters; what they return may differ from round to round. The requests
-- that are sent are a list next to the result.
pub mod Safety
pub mod Results
use newzyfy.Prelude.{
  ℕ, zero, suc, ◌+◌, String, Bool, true, false, ◌&&◌, Option, none, some, List, [], ◌∷◌, ◌++◌,
  length, ltb, str_eq, ◌||◌, if◌then◌else◌,
}
use newzyfy.Time.{Instant}
use newzyfy.Text.{is_empty, concat}
use newzyfy.Articles.Types.{Error, other, FetchResult}
use newzyfy.Articles.World.{Result, returned, raised}

pub record FetchRequest : Type 0 where
  pub url : String
  pub etag : Option String
  pub last_modified : Option String

pub record SplitResult : Type 0 where
  pub scheme : String
  pub hostname : Option String

-- A response of the HTTP client: the body comes in chunks, after which the stream may break.
pub record Response : Type 0 where
  pub status_code : ℕ
  pub is_redirect : Bool
  pub header : String → Option String
  pub chunks : List (List ℕ)
  pub broken : Option Error
  pub url : String

pub record Sent : Type 0 where
  pub url : String
  pub headers : List (String × String)

-- What the fetcher calls: the number is that of the round. An address is its text.
pub record Network : Type 0 where
  pub urlsplit : String → Result SplitResult
  pub urljoin : String → String → String
  pub getaddrinfo : ℕ → String → Result (List String)
  pub is_global : String → Bool
  pub respond : ℕ → Sent → Result Response
  pub sha256 : List ℕ → String
  pub decode : List ℕ → String
  pub clock : Instant

-- The constructor arguments of SafeHttpFetcher.
pub record FetchSettings : Type 0 where
  pub user_agent : String
  pub max_bytes : ℕ
  pub max_redirects : ℕ

abbrev unsafe_target : String → Error
unsafe_target message = record { class = other "UnsafeTargetError"; message = message }

abbrev http_error : String → Error
http_error message = record { class = other "HTTPError"; message = message }

abbrev pub too_many_redirects : Error
too_many_redirects = record {
  class = other "TooManyRedirects";
  message = "redirect limit exceeded";
}

-- f"{name}: {value}" is sent only where the value is neither None nor empty.
abbrev optional_header : String → Option String → List (String × String)
optional_header name none = []
optional_header name (some value) = if is_empty value then [] else (name, value) ∷ []

unfoldable pub request_headers : FetchSettings → FetchRequest → List (String × String)
request_headers settings request =
    ("User-Agent", settings.user_agent)
      ∷ ("Accept-Encoding", "gzip, deflate")
      ∷ optional_header "If-None-Match" request.etag
    ++ optional_header "If-Modified-Since" request.last_modified

module _ (net : Network) where
  abbrev pub assert_all_global : List String → Result (Unit {0})
  assert_all_global [] = returned tt
  assert_all_global (address ∷ addresses) =
      let rest = assert_all_global addresses in
      if net.is_global address
      then rest
      else raised (unsafe_target (concat "target resolves to non-public address: " address))

  unfoldable pub assert_public_hostname : ℕ → String → Result (Unit {0})
  assert_public_hostname round hostname = elim (net.getaddrinfo round hostname) [
    | raised e ↦ raised e
    | returned [] ↦ raised (unsafe_target "hostname did not resolve")
    | returned (address ∷ addresses) ↦ assert_all_global (address ∷ addresses)
  ]

  abbrev pub validate_hostname : ℕ → Bool → Option String → Result (Unit {0})
  validate_hostname round true (some hostname) =
      if is_empty hostname
      then raised (unsafe_target "only public HTTP and HTTPS URLs are allowed")
      else assert_public_hostname round hostname
  validate_hostname round _ _ = raised (unsafe_target "only public HTTP and HTTPS URLs are allowed")

  unfoldable pub validate_url : ℕ → String → Result (Unit {0})
  validate_url round url = elim (net.urlsplit url) [
    | raised e ↦ raised e
    | returned parsed ↦
        validate_hostname round (str_eq parsed.scheme "http" || str_eq parsed.scheme "https")
          parsed.hostname
  ]

-- The chunks of a body, as far as the limit lets them be read.
unfoldable pub read_body : ℕ → List ℕ → List (List ℕ) → Option Error → Result (List ℕ)
read_body max_bytes body [] none = returned body
read_body max_bytes body [] (some e) = raised e
read_body max_bytes body (chunk ∷ chunks) broken = elim (ltb max_bytes (length (body ++ chunk))) [
  | true ↦ raised (http_error "response exceeded configured byte limit")
  | false ↦ read_body max_bytes (body ++ chunk) chunks broken
]

-- What follows a response: the URL of the next round, or the result.
pub data Turn : Type 0 where
  redirected : String → Turn
  finished : Result FetchResult → Turn

module _ (net : Network) (settings : FetchSettings) (request : FetchRequest) where
  abbrev pub sent_to : String → Sent
  sent_to url = record { url = url; headers = request_headers settings request }

  abbrev pub fetch_result : List String → Response → List ℕ → FetchResult
  fetch_result redirects response body = record {
    requested_url = request.url;
    final_url = response.url;
    status_code = response.status_code;
    content_type = response.header "content-type";
    etag = response.header "etag";
    last_modified = response.header "last-modified";
    body = net.decode body;
    body_length = length body;
    body_sha256 = net.sha256 body;
    retrieved_at = net.clock;
    redirect_chain = redirects;
  }

  abbrev pub finish : List String → Response → Result FetchResult
  finish redirects response =
      elim (read_body settings.max_bytes [] response.chunks response.broken) [
        | raised e ↦ raised e
        | returned body ↦ returned (fetch_result redirects response body)
      ]

  abbrev pub location_turn : String → Option String → Turn
  location_turn current none = finished (raised (http_error "redirect response omitted Location"))
  location_turn current (some location) =
      if is_empty location
      then finished (raised (http_error "redirect response omitted Location"))
      else redirected (net.urljoin current location)

  unfoldable pub turn : String → List String → Response → Turn
  turn current redirects response =
      if response.is_redirect
      then location_turn current (response.header "location")
      else finished (finish redirects response)

  -- The loop: the rounds that are left, the number of this one, its URL, and the redirects so far.
  unfoldable pub fetch_rounds : ℕ → ℕ → String → List String → Result FetchResult × List Sent
  fetch_rounds zero round current redirects = (raised too_many_redirects, [])
  fetch_rounds (suc n) round current redirects = elim (validate_url net round current) [
    | raised e ↦ (raised e, [])
    | returned _ ↦ elim (net.respond round (sent_to current)) [
      | raised e ↦ (raised e, sent_to current ∷ [])
      | returned response ↦ elim (turn current redirects response) [
        | finished result ↦ (result, sent_to current ∷ [])
        | redirected url ↦
            let (result, sent) = fetch_rounds n (suc round) url (redirects ++ current ∷ []) in
            (result, sent_to current ∷ sent)
      ]
    ]
  ]

  unfoldable pub fetch : Result FetchResult × List Sent
  fetch = fetch_rounds (settings.max_redirects + 1) 0 request.url []

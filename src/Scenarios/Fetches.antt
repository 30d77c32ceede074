-- ===== src/Scenarios/Fetches.antt =====
-- A fetch through one redirect, for SafeHttpFetcher of backend/src/newsintel/adapters/http/safe_fetcher.py.
use newzyfy.Prelude.{
  ℕ, zero, suc, ◌≤◌, ◌≡◌, refl, String, true, false, Option, none, some, [], ◌∷◌, length, str_eq,
  ap, sym, if◌then◌else◌, arith,
}
use newzyfy.Articles.Types.{other, FetchResult, not_modified}
use newzyfy.Articles.World.{returned, raised}
use newzyfy.Fetcher.{
  FetchRequest, Response, Sent, Network, FetchSettings, fetch, assert_public_hostname, validate_url,
  read_body, turn, fetch_rounds,
}
use newzyfy.Fetcher.Safety.{IsSafe}
use newzyfy.Fetcher.Results.{
  returned-inj, IsFetched, fetch-IsSafe, fetch-IsFetched, fetch-not_modified,
}

abbrev redirect_headers : String → Option String
redirect_headers name = if str_eq name "location" then some "/b" else none

abbrev moved_response : Response
moved_response = record {
  status_code = 301;
  is_redirect = true;
  header = redirect_headers;
  chunks = [];
  broken = none;
  url = "http://n.org/a";
}

abbrev page_response : Response
page_response = record {
  status_code = 200;
  is_redirect = false;
  header = λ name. none;
  chunks = (60 ∷ 112 ∷ []) ∷ (62 ∷ []) ∷ [];
  broken = none;
  url = "http://n.org/b";
}

abbrev answers : ℕ → Response
answers zero = moved_response
answers (suc n) = page_response

abbrev network : Network
network = record {
  urlsplit = λ url. returned (record { scheme = "http"; hostname = some "n.org" });
  urljoin = λ base location. "http://n.org/b";
  getaddrinfo = λ round name. returned ("93.184.216.34" ∷ []);
  is_global = λ address. true;
  respond = λ round s. returned (answers round);
  sha256 = λ body. "digest";
  decode = λ body. "<p>";
  clock = 1000;
}

abbrev settings : FetchSettings
settings = record { user_agent = "newsintel"; max_bytes = 8; max_redirects = 1 }

abbrev fetch_request : FetchRequest
fetch_request = record { url = "http://n.org/a"; etag = some "v1"; last_modified = none }

abbrev fetched_page : FetchResult
fetched_page = record {
  requested_url = "http://n.org/a";
  final_url = "http://n.org/b";
  status_code = 200;
  content_type = none;
  etag = none;
  last_modified = none;
  body = "<p>";
  body_length = 3;
  body_sha256 = "digest";
  retrieved_at = 1000;
  redirect_chain = "http://n.org/a" ∷ [];
}

fetches : (fetch network settings fetch_request).0 ≡ returned fetched_page
unfolding fetch fetch_rounds validate_url assert_public_hostname turn read_body
fetches = refl

sends_two : length (fetch network settings fetch_request).1 ≡ 2
unfolding fetch fetch_rounds validate_url assert_public_hostname turn read_body
sends_two = refl

too_long :
    (fetch network (record settings { max_bytes = 2 }) fetch_request).0
    ≡ raised
        (record { class = other "HTTPError"; message = "response exceeded configured byte limit" })
unfolding fetch fetch_rounds validate_url assert_public_hostname turn read_body
too_long = refl

keeps_client :
    (round : ℕ) (s : Sent) (response : Response)
    → network.respond round s ≡ returned response
    → response.status_code ≡ 304
    → response.is_redirect ≡ true
keeps_client zero s response e h =
    sym (ap (λ (r : Response). r.is_redirect) (returned-inj moved_response response e))
keeps_client (suc n) s response e h =
    let status : 200 ≡ response.status_code =
      ap (λ (r : Response). r.status_code) (returned-inj page_response response e) in
    absurd (omega arith)

fetch-IsSafe_example :
    let sent = (fetch network settings fetch_request).1 in IsSafe network 0 sent × (length sent ≤ 2)
fetch-IsSafe_example = fetch-IsSafe network settings fetch_request

fetch-IsFetched_example :
    IsFetched network settings fetch_request []
      (fetch network settings fetch_request).1
      fetched_page
    × (1 ≤ 1)
fetch-IsFetched_example = fetch-IsFetched network settings fetch_request fetched_page fetches

fetch-not_modified_example : not_modified fetched_page ≡ false
fetch-not_modified_example =
    fetch-not_modified network settings fetch_request keeps_client fetched_page fetches

-- ===== src/Sources/Collect.antt =====
-- How SourceService.discover_publisher of backend/src/newsintel/application/sources/service.py collects the
-- endpoints of a website and validates them.
use newzyfy.Prelude.{
  ℕ, suc, String, Bool, ◌&&◌, Option, none, some, List, [], ◌∷◌, ◌++◌, map, ltb, leb, if◌then◌else◌,
}
use newzyfy.Text.{concat}
use newzyfy.Time.{Instant}
use newzyfy.Articles.Types.{FetchResult}
use newzyfy.Articles.World.{Result, returned, raised}
use newzyfy.Acquisition.Frontier.{homepage}
use newzyfy.Sources.{FetchFrequency}
use newzyfy.Sources.Endpoints.{
  DiscoveredEndpoint, Web, origin_for_url, discover_alternate_links, discover_robot_sitemaps,
  common_discovery_endpoints,
}
use newzyfy.Sources.Links.{
  Parsers, ValidatedEndpoint, discover_listing_endpoints, unique_endpoints,
  validate_endpoint_payload,
}
use newzyfy.Sources.Slugs.{Characters}
use newzyfy.Sources.Service.{error}

pub record DiscoverPublisherCommand : Type 0 where
  pub publisher_name : String
  pub website_url : String
  pub fetch_frequency : FetchFrequency
  pub manual_endpoints : List String

-- What the discovery calls: `fetch t n url` is what the fetcher gives for a URL as the request with number n
-- of the discovery that starts at t (0 is the homepage, 1 robots.txt, the others are the endpoints),
-- value_error the message of a ValueError.
pub record Discovery : Type 0 where
  pub web : Web
  pub parsers : Parsers
  pub characters : Characters
  pub fetch : Instant → ℕ → String → Result FetchResult
  pub normalize_domain : String → Option String
  pub value_error : String
  pub describe_status : ℕ → String

-- A call that raises ends the function.
abbrev pub and_then : {A B : Type 0} → Result A → (A → Result B) → Result B
and_then (raised e) f = raised e
and_then (returned a) f = f a

abbrev pub is_success : FetchResult → Bool
is_success f = leb 200 f.status_code && ltb f.status_code 300

module _ (d : Discovery) where
  abbrev pub checked : {A : Type 0} → Option A → Result A
  checked none = raised (error "ValueError" d.value_error)
  checked (some a) = returned a

  abbrev validated_one : DiscoveredEndpoint → Result FetchResult → List ValidatedEndpoint
  validated_one endpoint (raised e) = []
  validated_one endpoint (returned fetched) =
      if is_success fetched
      then elim (validate_endpoint_payload d.web d.parsers fetched.body fetched.final_url
          endpoint.source endpoint.hinted_type) [ raised e ↦ [] | returned v ↦ v ∷ [] ]
      else []

  -- The endpoints, the first of which is fetched by the request with the given number.
  unfoldable pub validate_endpoints : Instant → ℕ → List DiscoveredEndpoint → List ValidatedEndpoint
  validate_endpoints now n [] = []
  validate_endpoints now n (endpoint ∷ endpoints) =
      validated_one endpoint (d.fetch now n endpoint.url)
      ++ validate_endpoints now (suc n) endpoints

  abbrev robots_endpoints : String → Result FetchResult → List DiscoveredEndpoint
  robots_endpoints homepage_url (raised e) = []
  robots_endpoints homepage_url (returned robots) =
      if is_success robots then discover_robot_sitemaps d.web robots.body homepage_url else []

  abbrev manual_endpoint : String → DiscoveredEndpoint
  manual_endpoint url = record { url = url; source = "manual_fallback"; hinted_type = none }

  -- The endpoints that a homepage leads to, without repetitions.
  unfoldable pub collect_endpoints :
      DiscoverPublisherCommand → Instant → FetchResult → Option (List DiscoveredEndpoint)
  collect_endpoints command now page =
      elim (discover_listing_endpoints d.web d.parsers page.body page.final_url 12) [
        | none ↦ none
        | some listed ↦ elim (origin_for_url d.web page.final_url) [
          | none ↦ none
          | some origin ↦ elim (common_discovery_endpoints d.web page.final_url) [
            | none ↦ none
            | some common ↦ some (
                unique_endpoints d.web d.parsers (
                  record { url = page.final_url; source = "homepage"; hinted_type = some homepage }
                    ∷ discover_alternate_links d.web page.body page.final_url
                  ++ listed
                  ++ robots_endpoints page.final_url (d.fetch now 1 (concat origin "/robots.txt"))
                  ++ common
                  ++ map manual_endpoint command.manual_endpoints))
          ]
        ]
      ]

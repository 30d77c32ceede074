-- ===== src/Sources/Endpoints.antt =====
-- The endpoints that backend/src/newsintel/adapters/collectors/source_discovery.py finds on a homepage, in
-- its robots.txt and at common paths. Unicode text operations, urllib.parse, canonicalize_url and the
-- events of HTMLParser are parameters; `none` is a ValueError.
use newzyfy.Prelude.{
  String, Bool, false, ◌&&◌, ◌||◌, not, Option, none, some, List, [], ◌∷◌, ◌++◌, map, keep, str_eq,
  length, leb, if◌then◌else◌, or_else, or_option,
}
use newzyfy.Text.{concat, is_empty, contains, has_prefix, is_seen, text_or}
use newzyfy.Acquisition.Frontier.{DiscoveryChannelType, rss, atom, sitemap}

pub record DiscoveredEndpoint : Type 0 where
  pub url : String
  pub source : String
  pub hinted_type : Option DiscoveryChannelType

pub record HtmlArticleLink : Type 0 where
  pub url : String
  pub title : Option String

-- What HTMLParser reports of a page.
pub data HtmlEvent : Type 0 where
  start_tag : String → List (String × Option String) → HtmlEvent
  text_data : String → HtmlEvent
  end_tag : String → HtmlEvent

pub record UrlParts : Type 0 where
  pub scheme : String
  pub netloc : String
  pub hostname : Option String
  pub path : String

-- The policies that canonicalize_url is called with: the default one, and two that keep every query
-- parameter.
pub data CanonicalizationPolicy : Type 0 where
  standard keep_parameters keep_parameters_and_www : CanonicalizationPolicy

pub record Web : Type 0 where
  pub canonicalize_url : CanonicalizationPolicy → String → Option String
  pub urljoin : String → String → String
  pub urlsplit : String → Option UrlParts
  pub unsplit_origin : String → String → String
  pub looks_like_article_url : String → Bool
  pub html_events : String → List HtmlEvent
  pub lower : String → String
  pub strip : String → String
  pub strip_slashes : String → String
  pub normalize_text : String → String
  pub splitlines : String → List String
  pub split : String → String → List String
  pub partition : String → String → String × String

abbrev common_discovery_paths : List String
common_discovery_paths =
    "/sitemap.xml" ∷ "/sitemap_index.xml" ∷ "/news-sitemap.xml" ∷ "/sitemap-news.xml" ∷ "/feed"
    ∷ "/rss" ∷ "/rss.xml" ∷ "/feed.xml" ∷ []

abbrev listing_hint_segments : List String
listing_hint_segments =
    "ai" ∷ "artificial-intelligence" ∷ "business" ∷ "climate" ∷ "economy" ∷ "health" ∷ "healthcare"
    ∷ "india" ∷ "markets" ∷ "news" ∷ "politics" ∷ "science" ∷ "space" ∷ "sport" ∷ "sports" ∷ "tech"
    ∷ "technology" ∷ "world" ∷ []

abbrev listing_excluded_segments : List String
listing_excluded_segments =
    "about" ∷ "account" ∷ "advertise" ∷ "author" ∷ "contact" ∷ "login" ∷ "privacy" ∷ "search"
    ∷ "signin" ∷ "subscribe" ∷ "tag" ∷ "terms" ∷ "video" ∷ []

abbrev meets : List String → List String → Bool
meets [] set = false
meets (s ∷ segments) set = is_seen s set || meets segments set

module _ (web : Web) where
  abbrev pub link_attribute : String → List (String × Option String) → Option String
  link_attribute name [] = none
  link_attribute name ((key, value) ∷ attrs) =
      or_option (link_attribute name attrs)
        (if str_eq (web.lower key) name then some (web.strip (text_or value "")) else none)

  unfoldable pub normalize_homepage_url : String → Option String
  normalize_homepage_url url =
      let candidate = web.strip url in
      web.canonicalize_url keep_parameters_and_www
        (if contains "://" candidate then candidate else concat "https://" candidate)

  abbrev host_domain : Option String → Option String
  host_domain none = none
  host_domain (some host) = if is_empty host then none else some (web.lower host)

  unfoldable pub canonical_domain : String → Option String
  canonical_domain url = elim (normalize_homepage_url url) [
    | none ↦ none
    | some normalized ↦ elim (web.urlsplit normalized) [
      | none ↦ none
      | some parts ↦ host_domain parts.hostname
    ]
  ]

  unfoldable pub origin_for_url : String → Option String
  origin_for_url url = elim (normalize_homepage_url url) [
    | none ↦ none
    | some normalized ↦ elim (web.urlsplit normalized) [
      | none ↦ none
      | some parts ↦ some (web.unsplit_origin parts.scheme parts.netloc)
    ]
  ]

  abbrev feed_hint : String → Option DiscoveryChannelType
  feed_hint link_type =
      if str_eq link_type "application/rss+xml" || str_eq link_type "application/rdf+xml"
      then some rss
      else if str_eq link_type "application/atom+xml"
      then some atom
      else none

  abbrev alternate_endpoint :
      String → String → Option DiscoveryChannelType → List DiscoveredEndpoint
  alternate_endpoint base_url href none = []
  alternate_endpoint base_url href (some hinted) =
      record {
        url = web.urljoin base_url href;
        source = "html_alternate";
        hinted_type = some hinted;
      }
      ∷ []

  -- _AlternateLinkParser.handle_starttag
  unfoldable pub alternate_link :
      String → String → List (String × Option String) → List DiscoveredEndpoint
  alternate_link base_url name attrs =
      let rel = web.lower (or_else (link_attribute "rel" attrs) "") in
      let href = or_else (link_attribute "href" attrs) "" in
      let link_type = web.lower (or_else (link_attribute "type" attrs) "") in
      if not (str_eq (web.lower name) "link")
      then []
      else if is_empty href || not (contains "alternate" rel)
      then []
      else alternate_endpoint base_url href (feed_hint link_type)

  abbrev alternate_links : String → List HtmlEvent → List DiscoveredEndpoint
  alternate_links base_url [] = []
  alternate_links base_url (start_tag name attrs ∷ events) =
      alternate_link base_url name attrs ++ alternate_links base_url events
  alternate_links base_url (_ ∷ events) = alternate_links base_url events

  unfoldable pub discover_alternate_links : String → String → List DiscoveredEndpoint
  discover_alternate_links html homepage_url = alternate_links homepage_url (web.html_events html)

  abbrev robots_line : String → String → List DiscoveredEndpoint
  robots_line homepage_url raw_line =
      let line = web.strip raw_line in
      let (key, value) = web.partition ":" line in
      let sitemap_url = web.strip value in
      if is_empty line || has_prefix "#" line || not (contains ":" line)
      then []
      else if not (str_eq (web.lower (web.strip key)) "sitemap") || is_empty sitemap_url
      then []
      else record {
        url = web.urljoin homepage_url sitemap_url;
        source = "robots_txt";
        hinted_type = some sitemap;
      }
        ∷ []

  abbrev robots_lines : String → List String → List DiscoveredEndpoint
  robots_lines homepage_url [] = []
  robots_lines homepage_url (line ∷ lines) =
      robots_line homepage_url line ++ robots_lines homepage_url lines

  unfoldable pub discover_robot_sitemaps : String → String → List DiscoveredEndpoint
  discover_robot_sitemaps robots_txt homepage_url =
      robots_lines homepage_url (web.splitlines robots_txt)

  abbrev common_endpoint : String → String → DiscoveredEndpoint
  common_endpoint origin path = record {
    url = web.urljoin origin path;
    source = "common_path";
    hinted_type = some (if contains "sitemap" path then sitemap else rss);
  }

  unfoldable pub common_discovery_endpoints : String → Option (List DiscoveredEndpoint)
  common_discovery_endpoints homepage_url = elim (origin_for_url homepage_url) [
    | none ↦ none
    | some origin ↦ some (map (common_endpoint origin) common_discovery_paths)
  ]

  unfoldable pub looks_like_listing_page : String → Bool
  looks_like_listing_page url =
      if web.looks_like_article_url url then false else elim (web.urlsplit url) [
        | none ↦ false
        | some parts ↦
            let path = web.strip_slashes (web.lower parts.path) in
            let segments = keep (λ s. not (is_empty s)) (web.split "/" path) in
            not (is_empty path)
            && leb 1 (length segments)
            && leb (length segments) 3
            && not (meets segments listing_excluded_segments)
            && meets segments listing_hint_segments
      ]

-- ===== src/Sources/Links.antt =====
-- The links of a page, the endpoints that are kept, and what an endpoint's payload is taken for:
-- _AnchorLinkParser, discover_html_article_links, discover_listing_endpoints, unique_endpoints and
-- validate_endpoint_payload of backend/src/newsintel/adapters/collectors/source_discovery.py. The parsers
-- of feeds and sitemaps are parameters.
use newzyfy.Prelude.{
  ℕ, zero, suc, String, Bool, true, false, not, ◌&&◌, ◌||◌, Option, none, some, List, [], ◌∷◌, ◌++◌,
  length, str_eq, if◌then◌else◌,
}
use newzyfy.Text.{is_empty, is_seen}
use newzyfy.Articles.Types.{Error}
use newzyfy.Articles.World.{Result, returned, raised}
use newzyfy.Acquisition.Frontier.{
  DiscoveryChannelType, rss, atom, sitemap, homepage, category, tag, author, archive, internal_link,
  search_page,
}
use newzyfy.Sources.Endpoints.{
  DiscoveredEndpoint, HtmlArticleLink, HtmlEvent, start_tag, text_data, end_tag, standard,
  keep_parameters, Web, link_attribute, origin_for_url, looks_like_listing_page,
}

pub record ValidatedEndpoint : Type 0 where
  pub url : String
  pub channel_type : DiscoveryChannelType
  pub source : String
  pub item_count : ℕ

-- What validate_endpoint_payload calls: a feed is the channel type of each item, a sitemap the number
-- of its entries.
pub record Parsers : Type 0 where
  pub parse_feed : String → String → Result (List DiscoveryChannelType)
  pub parse_sitemap : String → Result ℕ
  pub join : List String → String
  pub bad_url : Error
  pub empty_payload : Error
  pub neither : Error → Error → Error

-- An anchor that is open: its target, and its texts, the last first.
abbrev OpenAnchor : Type 0
OpenAnchor = String × List String

abbrev is_html_type : DiscoveryChannelType → Bool
is_html_type homepage = true
is_html_type category = true
is_html_type tag = true
is_html_type author = true
is_html_type archive = true
is_html_type internal_link = true
is_html_type search_page = true
is_html_type _ = false

abbrev reverse_onto : List String → List String → List String
reverse_onto [] done = done
reverse_onto (s ∷ rest) done = reverse_onto rest (s ∷ done)

module _ (web : Web) (parsers : Parsers) where
  -- _AnchorLinkParser: the two stacks grow and shrink together, so they are one.
  abbrev open_anchor : String → String → Option String → List OpenAnchor → List OpenAnchor
  open_anchor base_url name none stack = stack
  open_anchor base_url name (some href) stack =
      if not (str_eq (web.lower name) "a") || is_empty href
      then stack
      else (web.urljoin base_url href, []) ∷ stack

  abbrev add_text : String → List OpenAnchor → List OpenAnchor
  add_text s [] = []
  add_text s ((href, texts) ∷ stack) = (href, s ∷ texts) ∷ stack

  abbrev anchor_link : OpenAnchor → HtmlArticleLink
  anchor_link (href, texts) =
      let title = web.normalize_text (parsers.join (reverse_onto texts [])) in
      record { url = href; title = if is_empty title then none else some title }

  abbrev close_anchor : String → List OpenAnchor → List HtmlArticleLink × List OpenAnchor
  close_anchor name [] = ([], [])
  close_anchor name ((href, texts) ∷ stack) =
      if not (str_eq (web.lower name) "a")
      then ([], (href, texts) ∷ stack)
      else (if is_empty href then [] else anchor_link (href, texts) ∷ [], stack)

  unfoldable pub anchor_links : String → List OpenAnchor → List HtmlEvent → List HtmlArticleLink
  anchor_links base_url stack [] = []
  anchor_links base_url stack (start_tag name attrs ∷ events) =
      anchor_links base_url (open_anchor base_url name (link_attribute web "href" attrs) stack)
        events
  anchor_links base_url stack (text_data s ∷ events) =
      anchor_links base_url (add_text s stack) events
  anchor_links base_url stack (end_tag name ∷ events) =
      let (links, left) = close_anchor name stack in links ++ anchor_links base_url left events

  abbrev pub page_links : String → String → List HtmlArticleLink
  page_links html page_url = anchor_links page_url [] (web.html_events html)

  abbrev pub same_origin : String → Option String → Bool
  same_origin page_origin none = false
  same_origin page_origin (some origin) = str_eq origin page_origin

  -- The loop of discover_html_article_links, with same_origin_only as it is always called.
  unfoldable pub article_links : String → List HtmlArticleLink → List String → List HtmlArticleLink
  article_links page_origin [] seen = []
  article_links page_origin (link ∷ links) seen =
      let skipped = article_links page_origin links seen in
      elim (same_origin page_origin (origin_for_url web link.url)
        && web.looks_like_article_url link.url) [
          | false ↦ skipped
          | true ↦ elim (web.canonicalize_url standard link.url) [
            | none ↦ skipped
            | some normalized ↦ elim (is_seen normalized seen) [
              | true ↦ skipped
              | false ↦
                  record { url = normalized; title = link.title }
                  ∷ article_links page_origin links (normalized ∷ seen)
            ]
          ]
        ]

  unfoldable pub discover_html_article_links : String → String → Option (List HtmlArticleLink)
  discover_html_article_links html page_url = elim (origin_for_url web page_url) [
    | none ↦ none
    | some page_origin ↦ some (article_links page_origin (page_links html page_url) [])
  ]

  -- The loop of discover_listing_endpoints; the number is how many more endpoints it may take.
  unfoldable pub listing_endpoints :
      String → ℕ → List HtmlArticleLink → List String → List DiscoveredEndpoint
  listing_endpoints page_origin zero links seen = []
  listing_endpoints page_origin (suc n) [] seen = []
  listing_endpoints page_origin (suc n) (link ∷ links) seen =
      let skipped = listing_endpoints page_origin (suc n) links seen in
      elim (same_origin page_origin (origin_for_url web link.url)
        && looks_like_listing_page web link.url) [
          | false ↦ skipped
          | true ↦ elim (web.canonicalize_url keep_parameters link.url) [
            | none ↦ skipped
            | some normalized ↦ elim (is_seen normalized seen) [
              | true ↦ skipped
              | false ↦
                  record {
                    url = normalized;
                    source = "homepage_listing_link";
                    hinted_type = some category;
                  }
                  ∷ listing_endpoints page_origin n links (normalized ∷ seen)
            ]
          ]
        ]

  unfoldable pub discover_listing_endpoints : String → String → ℕ → Option (List DiscoveredEndpoint)
  discover_listing_endpoints html homepage_url max_endpoints =
      elim (origin_for_url web homepage_url) [
        | none ↦ none
        | some page_origin ↦
            some (listing_endpoints page_origin max_endpoints (page_links html homepage_url) [])
      ]

  -- The loop of unique_endpoints.
  unfoldable pub unseen_endpoints : List DiscoveredEndpoint → List String → List DiscoveredEndpoint
  unseen_endpoints [] seen = []
  unseen_endpoints (endpoint ∷ endpoints) seen =
      let skipped = unseen_endpoints endpoints seen in
      elim (web.canonicalize_url keep_parameters endpoint.url) [
        | none ↦ skipped
        | some normalized ↦ elim (is_seen normalized seen) [
          | true ↦ skipped
          | false ↦
              record endpoint { url = normalized } ∷ unseen_endpoints endpoints (normalized ∷ seen)
        ]
      ]

  abbrev pub unique_endpoints : List DiscoveredEndpoint → List DiscoveredEndpoint
  unique_endpoints endpoints = unseen_endpoints endpoints []

  -- The sitemap branch of validate_endpoint_payload, after what the feed parser raised.
  abbrev validate_sitemap : String → String → Option Error → Result ℕ → Result ValidatedEndpoint
  validate_sitemap endpoint_url source feed_error (returned zero) = raised parsers.empty_payload
  validate_sitemap endpoint_url source feed_error (returned (suc n)) =
      returned
        (record { url = endpoint_url; channel_type = sitemap; source = source; item_count = suc n })
  validate_sitemap endpoint_url source none (raised e) = raised e
  validate_sitemap endpoint_url source (some f) (raised e) = raised (parsers.neither f e)

  abbrev feed_type : DiscoveryChannelType → DiscoveryChannelType
  feed_type atom = atom
  feed_type _ = rss

  abbrev validate_feed :
      String → String → String → Result (List DiscoveryChannelType) → Result ValidatedEndpoint
  validate_feed payload endpoint_url source (raised f) =
      validate_sitemap endpoint_url source (some f) (parsers.parse_sitemap payload)
  validate_feed payload endpoint_url source (returned []) =
      validate_sitemap endpoint_url source none (parsers.parse_sitemap payload)
  validate_feed payload endpoint_url source (returned (t ∷ items)) = returned (record {
    url = endpoint_url;
    channel_type = feed_type t;
    source = source;
    item_count = suc (length items);
  })

  abbrev validate_page :
      String
      → String
      → String
      → DiscoveryChannelType
      → Option (List HtmlArticleLink)
      → Result ValidatedEndpoint
  validate_page payload endpoint_url source hinted_type none = raised parsers.bad_url
  validate_page payload endpoint_url source hinted_type (some []) =
      validate_feed payload endpoint_url source (parsers.parse_feed payload endpoint_url)
  validate_page payload endpoint_url source hinted_type (some (link ∷ links)) = returned (record {
    url = endpoint_url;
    channel_type = hinted_type;
    source = source;
    item_count = suc (length links);
  })

  unfoldable pub validate_endpoint_payload :
      String → String → String → Option DiscoveryChannelType → Result ValidatedEndpoint
  validate_endpoint_payload payload endpoint_url source none =
      validate_feed payload endpoint_url source (parsers.parse_feed payload endpoint_url)
  validate_endpoint_payload payload endpoint_url source (some hinted_type) =
      elim (is_html_type hinted_type) [
        | true ↦
            validate_page payload endpoint_url source hinted_type
              (discover_html_article_links payload endpoint_url)
        | false ↦
            validate_feed payload endpoint_url source (parsers.parse_feed payload endpoint_url)
      ]

-- ===== src/Scenarios/Websites.antt =====
-- A website that is discovered: one page with a feed, for discover_publisher of
-- backend/src/newsintel/application/sources/service.py, and the endpoints and slugs on the way.
use Prim.Native.Char.{code}
use text.Mathlib.TextLemmas.{nil-append, cons-append}
use newzyfy.Prelude.{
  ℕ, zero, suc, ◌<◌, ◌≡◌, refl, ap, ◌∙◌, String, true, false, none, some, List, [], ◌∷◌, length,
  map, All, str_eq, eq_iff, if◌then◌else◌, arith, Bool-cases, inl, inr, ltb,
}
use newzyfy.Text.{concat, is_empty, is_seen, contains, IsDistinct, text_length, codes}
use newzyfy.Articles.Types.{FetchResult, Error, other}
use newzyfy.Articles.World.{returned, raised}
use newzyfy.Acquisition.Frontier.{rss, category}
use newzyfy.Sources.{PublisherModel, Tables, hourly}
use newzyfy.Sources.Endpoints.{
  normalize_homepage_url, canonical_domain, origin_for_url, looks_like_listing_page,
  discover_robot_sitemaps, common_discovery_endpoints, DiscoveredEndpoint, start_tag, text_data,
  end_tag, Web, discover_alternate_links, alternate_link,
}
use newzyfy.Sources.Links.{
  anchor_links, article_links, listing_endpoints, unseen_endpoints, validate_endpoint_payload,
  discover_html_article_links, Parsers, unique_endpoints, discover_listing_endpoints,
}
use newzyfy.Sources.Distinct.{url_of, is_covered, unique_endpoints-IsDistinct}
use newzyfy.Sources.Slugs.{
  Characters, slugify, slugify-IsSlug, has_pair, starts_dash, ends_dash, squeeze,
}
use newzyfy.Cleanup.Like.{like, like_codes}
use newzyfy.Sources.Fresh.{is_plain, unique_slug, unique_slug_fresh, search_suffix}
use newzyfy.Sources.Collect.{
  collect_endpoints, validate_endpoints, DiscoverPublisherCommand, Discovery,
}
use newzyfy.Sources.Discover.{
  discover, store_publisher, insert_publisher, create_channels, store_channel,
  PublisherDiscoveryResult, discover_publisher,
}
use newzyfy.Sources.Repeated.{IsStored, IsRefused, discover_publisher-IsStored}
use newzyfy.Sources.Views.{publisher_source_view}
use newzyfy.Sources.Service.{frequency_policy}
use newzyfy.Scenarios.Cleanups.{one_publisher}

abbrev web : Web
web = record {
  canonicalize_url = λ policy url. some url;
  urljoin = λ base url. url;
  urlsplit = λ url.
      some
        (record { scheme = "https"; netloc = "n.org"; hostname = some "n.org"; path = "/world" });
  unsplit_origin = λ scheme netloc. "https://n.org";
  looks_like_article_url = λ url. false;
  html_events = λ html.
      start_tag "link" (
        ("rel", some "alternate")
        ∷ ("type", some "application/rss+xml")
        ∷ ("href", some "https://n.org/feed")
        ∷ [])
      ∷ start_tag "a" (("href", some "https://n.org/world") ∷ [])
      ∷ text_data "World"
      ∷ end_tag "a"
      ∷ [];
  lower = λ s. s;
  strip = λ s. s;
  strip_slashes = λ s. "world";
  normalize_text = λ s. s;
  splitlines = λ s. [];
  split = λ by s. s ∷ [];
  partition = λ by s. (s, "");
}

abbrev bad : Error
bad = record { class = other "ValueError"; message = "bad" }

abbrev parsers : Parsers
parsers = record {
  parse_feed =
      λ payload url. if str_eq url "https://n.org/feed" then returned (rss ∷ []) else raised bad;
  parse_sitemap = λ payload. raised bad;
  join = λ texts. "";
  bad_url = bad;
  empty_payload = bad;
  neither = λ e f. e;
}

-- The letters are those of ASCII that are lower case; a decimal text is a bar for each one.
abbrev bars : ℕ → String
bars zero = ""
bars (suc n) = concat "1" (bars n)

abbrev characters : Characters
characters = record {
  strip = λ s. s;
  is_alnum = λ c. ltb 96 (code c);
  lower_char = λ c. String.◌∷◌ c "";
  decimal = bars;
}

abbrev page : String → FetchResult
page url = record {
  requested_url = url;
  final_url = url;
  status_code = 200;
  content_type = none;
  etag = none;
  last_modified = none;
  body = "page";
  body_length = 4;
  body_sha256 = "digest";
  retrieved_at = 1000;
  redirect_chain = [];
}

abbrev discovery : Discovery
discovery = record {
  web = web;
  parsers = parsers;
  characters = characters;
  fetch = λ now n url. returned (page url);
  normalize_domain = λ host. some host;
  value_error = "bad";
  describe_status = λ n. "status";
}

abbrev command : DiscoverPublisherCommand
command = record {
  publisher_name = "n  news!";
  website_url = "https://n.org";
  fetch_frequency = hourly;
  manual_endpoints = [];
}

abbrev two_endpoints : List DiscoveredEndpoint
two_endpoints =
    record { url = "https://n.org/feed"; source = "html_alternate"; hinted_type = some rss }
    ∷ record { url = "https://n.org/feed"; source = "common_path"; hinted_type = some rss }
    ∷ []

finds_feed : length (discover_alternate_links web "page" "https://n.org") ≡ 1
unfolding discover_alternate_links alternate_link contains
finds_feed = refl

makes_slug : slugify characters "n  news!" ≡ "n-news"
unfolding slugify squeeze
makes_slug = refl

numbers_slug : unique_slug bars "n" ("n" ∷ "n-11" ∷ []) ≡ "n-111"
unfolding unique_slug search_suffix like like_codes
numbers_slug = refl

unique_endpoints-IsDistinct_example :
    let urls = map url_of (unique_endpoints web parsers two_endpoints) in
    IsDistinct urls × All (λ e. is_covered web parsers urls e ≡ true) two_endpoints
unique_endpoints-IsDistinct_example = unique_endpoints-IsDistinct web parsers two_endpoints

abbrev world_page : List DiscoveredEndpoint
world_page =
    record {
      url = "https://n.org/world";
      source = "homepage_listing_link";
      hinted_type = some category;
    }
    ∷ []

finds_world : discover_listing_endpoints web parsers "page" "https://n.org" 12 ≡ some world_page
unfolding discover_listing_endpoints listing_endpoints anchor_links origin_for_url
    normalize_homepage_url looks_like_listing_page contains
finds_world = refl

slugify-IsSlug_example :
    let slug = slugify characters "n  news!" in
    (has_pair slug ≡ false)
    × (starts_dash slug ≡ false)
    × (ends_dash slug ≡ false)
    × (is_empty slug ≡ false)
slugify-IsSlug_example = slugify-IsSlug characters "n  news!"

text_length-bars : (n : ℕ) → text_length (bars n) ≡ n
text_length-bars zero = refl
text_length-bars (suc n) =
    ap text_length (cons-append _ "" (bars n))
    ∙ ap (λ s. suc (text_length s)) (nil-append (bars n))
    ∙ ap suc (text_length-bars n)

bars_differ : (i j : ℕ) → i < j → str_eq (bars i) (bars j) ≡ false
bars_differ i j h = elim (Bool-cases (str_eq (bars i) (bars j))) [
  | inr e ↦ e
  | inl e ↦
      let same : text_length (bars i) ≡ text_length (bars j) =
        ap text_length ((eq_iff (bars i) (bars j)).0 e) in
      absurd (omega (arith, same, text_length-bars i, text_length-bars j))
]

unique_slug_fresh_example :
    is_seen (unique_slug bars "n" ("n" ∷ "n-11" ∷ [])) ("n" ∷ "n-11" ∷ []) ≡ false
unique_slug_fresh_example = unique_slug_fresh bars bars_differ "n" ("n" ∷ "n-11" ∷ []) refl

abbrev discovered : PublisherDiscoveryResult
discovered = record {
  publisher = record {
    id = 20;
    name = "n  news!";
    slug = "n-news";
    canonical_domain = "n.org";
    homepage_url = some "https://n.org";
    fetch_frequency = hourly;
    discovery_status = "ready";
    discovery_message = none;
    rss_feed_count = 1;
    sitemap_count = 0;
    last_fetched_at = none;
    articles_discovered = 0;
    articles_extracted = 0;
    duplicates_skipped = 0;
    failed_articles = 0;
    current_status = "active";
    created_at = 1000;
    updated_at = 1000;
  };
  channels =
      record {
        id = 21;
        endpoint_url = "https://n.org/feed";
        channel_type = "rss";
        source = "html_alternate";
        item_count = 1;
        created = true;
      }
      ∷ [];
  attempted_endpoint_count = 11;
  valid_endpoint_count = 1;
  invalid_endpoint_count = 10;
  manual_fallback_available = false;
}

abbrev after_discovery : Tables
after_discovery = (discover_publisher discovery command 1000 one_publisher).1

discovers :
    discover_publisher discovery command 1000 one_publisher ≡ (returned discovered, after_discovery)
unfolding discover_publisher discover collect_endpoints validate_endpoints store_publisher
    insert_publisher create_channels store_channel publisher_source_view normalize_homepage_url
    canonical_domain origin_for_url discover_alternate_links alternate_link
    discover_listing_endpoints listing_endpoints anchor_links looks_like_listing_page
    discover_robot_sitemaps common_discovery_endpoints unseen_endpoints validate_endpoint_payload
    discover_html_article_links article_links slugify squeeze unique_slug search_suffix like
    like_codes contains frequency_policy
discovers = refl

slug_is_plain : is_plain (codes (slugify characters "n  news!")) ≡ true
unfolding slugify squeeze
slug_is_plain = refl

discover_publisher-IsStored_example :
    (domain : String) × (p : PublisherModel) × IsStored discovery command one_publisher
      after_discovery discovered domain p
    × IsRefused discovery command domain 2000 after_discovery
discover_publisher-IsStored_example =
    discover_publisher-IsStored discovery command bars_differ slug_is_plain 1000 2000 one_publisher
      after_discovery after_discovery discovered discovers (λ name h. h)

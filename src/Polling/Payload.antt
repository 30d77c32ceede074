-- ===== src/Polling/Payload.antt =====
-- ChannelPollService._process_payload of backend/src/newsintel/application/acquisition/polling.py: what a
-- poll makes of a feed, a sitemap or a page. The parsers are parameters. Each observation and each new
-- channel is a unit of work of its own, so that an exception leaves the earlier ones.
use newzyfy.Prelude.{
  ℕ, suc, ◌+◌, String, Bool, true, false, ◌&&◌, Option, none, some, List, [], ◌∷◌, leb,
  if◌then◌else◌,
}
use newzyfy.Time.{Instant, aware}
use newzyfy.Outbox.{Uuid}
use newzyfy.Text.{is_seen}
use newzyfy.Filter.{UrlTests, should_admit_article_url}
use newzyfy.Articles.Types.{ErrorClass, other, Error, FetchResult}
use newzyfy.Articles.World.{Result, returned, raised}
use newzyfy.Acquisition.Frontier.{sitemap}
use newzyfy.Acquisition.Rows.{DiscoveryChannel, Store}
use newzyfy.Acquisition.Service.{
  ServiceError, invalid, not_found, conflict, ok, err, CanonicalUrl, CreateChannelCommand,
  create_channel,
}
use newzyfy.Acquisition.Observation.{ObserveDiscoveryCommand, observe_discovery}

-- What the poll reads of a DiscoveredItem.
pub record FeedItem : Type 0 where
  pub url : String
  pub external_id : Option String
  pub title : Option String
  pub published_at_raw : Option String

pub record SitemapEntry : Type 0 where
  pub location : String
  pub last_modified_raw : Option String
  pub publication_date_raw : Option String
  pub news_title : Option String

pub record SitemapDocument : Type 0 where
  pub is_index : Bool
  pub entries : List SitemapEntry

pub record HtmlLink : Type 0 where
  pub url : String
  pub title : Option String

-- What a poll calls and does not define, and its clock.
pub record Sources : Type 0 where
  pub started_at : Instant
  pub clock : Instant
  pub completed_at : Instant
  pub trace_id : Uuid
  pub fetch : String → Option String → Option String → Result FetchResult
  pub parse_feed : String → String → Result (List FeedItem)
  pub parse_feed_datetime : Option String → Option Instant
  pub parse_sitemap : String → Result SitemapDocument
  pub discover_links : String → String → Result (List HtmlLink)
  pub canonicalize : String → Option CanonicalUrl
  pub canonicalize_endpoint : String → Option CanonicalUrl
  pub url_tests : UrlTests
  pub describe : ServiceError → String
  pub describe_status : ℕ → String

-- The constructor arguments of ChannelPollService.
pub record PollSettings : Type 0 where
  pub recent_article_window_hours : ℕ
  pub max_new_urls_per_channel_poll : ℕ

-- One entry of any of the three kinds.
pub record Item : Type 0 where
  pub url : String
  pub external_id : Option String
  pub title : Option String
  pub published_at : Option Instant
  pub published_at_raw : Option String

pub record Counts : Type 0 where
  pub discovered : ℕ
  pub admitted : ℕ
  pub observations : ℕ

-- A loop goes on where a step has returned.
abbrev pub proceed :
    Result Counts × Store → (Counts → Store → Result Counts × Store) → Result Counts × Store
proceed (raised e, s) rest = (raised e, s)
proceed (returned counts, s) rest = rest counts s

abbrev counted : Bool → ℕ → ℕ
counted flag n = if flag then n + 1 else n

abbrev service_class : ServiceError → ErrorClass
service_class invalid = other "ValueError"
service_class not_found = other "ResourceNotFoundError"
service_class conflict = other "ResourceConflictError"

module _ (sources : Sources) (settings : PollSettings) (channel : DiscoveryChannel)
    (page : FetchResult) where
  abbrev service_error : ServiceError → Error
  service_error e = record { class = service_class e; message = sources.describe e }

  abbrev pub item_command : ℕ → Item → ObserveDiscoveryCommand
  item_command position item = record {
    channel_id = channel.id;
    url = item.url;
    external_id = item.external_id;
    title = item.title;
    published_at = item.published_at;
    published_at_raw = item.published_at_raw;
    discovered_at = some page.retrieved_at;
    channel_position = some position;
    payload_sha256 = some page.body_sha256;
  }

  abbrev is_admitted : Bool → Item → Bool
  is_admitted require_publication_date item =
      (should_admit_article_url sources.url_tests item.url
        (elim item.published_at [ none ↦ none | some t ↦ some (aware t) ]) (aware page.retrieved_at)
        settings.recent_article_window_hours require_publication_date).accepted

  -- The call of observe_discovery for an admitted item, and the counters after it.
  unfoldable pub observe_item : ℕ → Item → Counts → Store → Result Counts × Store
  observe_item position item counts s =
      elim (observe_discovery sources.canonicalize (item_command position item)
        (some sources.trace_id) none sources.clock s) [
          | err e ↦ (raised (service_error e), s)
          | ok (s', result) ↦ (
            returned (record counts {
              admitted = counted result.candidate_created counts.admitted;
              observations = counted result.channel_observation_created counts.observations;
            }),
            s',
          )
        ]

  -- The body of a loop below its test of the limit; `skip_seen` is the test on seen_urls, which only
  -- feeds have.
  unfoldable pub visit_item :
      Bool → Bool → ℕ → Item → List String → Counts → Store → Result Counts × Store
  visit_item skip_seen require_publication_date position item seen counts s =
      if skip_seen && is_seen item.url seen
      then (returned counts, s)
      else if is_admitted require_publication_date item
      then observe_item position item counts s
      else (returned counts, s)

  unfoldable pub observe_items :
      Bool → Bool → ℕ → List Item → List String → Counts → Store → Result Counts × Store
  observe_items skip_seen require_publication_date position [] seen counts s = (returned counts, s)
  observe_items skip_seen require_publication_date position (item ∷ items) seen counts s =
      elim (leb settings.max_new_urls_per_channel_poll counts.admitted) [
        | true ↦ (returned counts, s)
        | false ↦
            proceed (visit_item skip_seen require_publication_date position item seen counts s) (
              observe_items skip_seen require_publication_date (suc position) items
                (item.url ∷ seen))
      ]

  abbrev pub entry_command : SitemapEntry → CreateChannelCommand
  entry_command entry = record {
    publisher_id = channel.publisher_id;
    channel_type = sitemap;
    endpoint_url = entry.location;
    strategy_version = channel.strategy_version;
    poll_min_seconds = channel.poll_min_seconds;
    poll_max_seconds = channel.poll_max_seconds;
    current_poll_seconds = channel.current_poll_seconds;
  }

  -- The entries of a sitemap index become channels; one that is there already is passed over.
  unfoldable pub create_channels : List SitemapEntry → Counts → Store → Result Counts × Store
  create_channels [] counts s = (returned counts, s)
  create_channels (entry ∷ entries) counts s =
      elim (create_channel sources.canonicalize_endpoint (entry_command entry) sources.clock s) [
        | ok (s', _) ↦ create_channels entries (record counts { admitted = counts.admitted + 1 }) s'
        | err conflict ↦ create_channels entries counts s
        | err invalid ↦ (raised (service_error invalid), s)
        | err not_found ↦ (raised (service_error not_found), s)
      ]

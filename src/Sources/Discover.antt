-- ===== src/Sources/Discover.antt =====
-- SourceService.discover_publisher of backend/src/newsintel/application/sources/service.py: after the
-- endpoints of a website are collected, fetched and validated, a publisher and its channels are stored
-- in one transaction. The clock of the event is read with that of the rows.
use newzyfy.Prelude.{
  ℕ, suc, ◌-◌, String, Bool, true, false, ◌&&◌, not, none, some, List, [], ◌∷◌, ◌++◌, length, map,
  ◌==◌, str_eq, find_row, if◌then◌else◌,
}
use newzyfy.Time.{Instant}
use newzyfy.Outbox.{Uuid, number, uuid, text}
use newzyfy.Text.{concat}
use newzyfy.Articles.World.{Result, returned, raised}
use newzyfy.Acquisition.Frontier.{channel_type_value}
use newzyfy.Acquisition.Rows.{DiscoveryChannel}
use newzyfy.Sources.{FetchFrequency, PublisherModel, Tables}
use newzyfy.Sources.Endpoints.{keep_parameters, normalize_homepage_url, canonical_domain}
use newzyfy.Sources.Links.{ValidatedEndpoint}
use newzyfy.Sources.Slugs.{slugify}
use newzyfy.Sources.Fresh.{unique_slug}
use newzyfy.Sources.Views.{PublisherSourceView, publisher_source_view}
use newzyfy.Sources.Service.{frequency_policy, frequency_value, source_event, emit_source, error}
use newzyfy.Sources.Collect.{
  DiscoverPublisherCommand, Discovery, and_then, is_success, checked, collect_endpoints,
  validate_endpoints,
}

pub record DiscoveredChannelView : Type 0 where
  pub id : Uuid
  pub endpoint_url : String
  pub channel_type : String
  pub source : String
  pub item_count : ℕ
  pub created : Bool

pub record PublisherDiscoveryResult : Type 0 where
  pub publisher : PublisherSourceView
  pub channels : List DiscoveredChannelView
  pub attempted_endpoint_count : ℕ
  pub valid_endpoint_count : ℕ
  pub invalid_endpoint_count : ℕ
  pub manual_fallback_available : Bool

module _ (d : Discovery) where
  abbrev new_channel :
      Uuid → Uuid → ValidatedEndpoint → String → FetchFrequency → Instant → DiscoveryChannel
  new_channel id publisher_id endpoint normalized frequency now =
      let policy = frequency_policy frequency now in
      record {
        id = id;
        publisher_id = publisher_id;
        channel_type = endpoint.channel_type;
        endpoint_url = normalized;
        strategy_version = "homepage-source-discovery-v1";
        active = true;
        next_poll_at = policy.next_poll_at;
        poll_min_seconds = policy.poll_min_seconds;
        poll_max_seconds = policy.poll_max_seconds;
        current_poll_seconds = policy.current_poll_seconds;
        etag = none;
        last_modified = none;
        last_polled_at = none;
        last_success_at = none;
        lease_owner = none;
        lease_expires_at = none;
        consecutive_failures = 0;
        created_at = now;
        updated_at = now;
      }

  abbrev pub has_endpoint : Uuid → String → DiscoveryChannel → Bool
  has_endpoint publisher_id normalized c =
      c.publisher_id == publisher_id && str_eq c.endpoint_url normalized

  unfoldable pub store_channel :
      Uuid → ValidatedEndpoint → String → FetchFrequency → Instant → Tables → Tables × (Bool × Uuid)
  store_channel publisher_id endpoint normalized frequency now t =
      elim (find_row (has_endpoint publisher_id normalized) t.channels) [
        | some existing ↦ (t, (false, existing.id))
        | none ↦ (
          record t {
            channels =
                t.channels
                ++ new_channel t.next_id publisher_id endpoint normalized frequency now ∷ [];
            next_id = suc t.next_id;
          },
          (true, t.next_id),
        )
      ]

  -- _create_channel_if_absent
  abbrev pub create_channel_if_absent :
      Uuid → ValidatedEndpoint → FetchFrequency → Instant → Tables → Result (Tables × (Bool × Uuid))
  create_channel_if_absent publisher_id endpoint frequency now t =
      and_then (checked d (d.web.canonicalize_url keep_parameters endpoint.url))
        (λ normalized. returned (store_channel publisher_id endpoint normalized frequency now t))

  abbrev channel_view : ValidatedEndpoint → Bool × Uuid → DiscoveredChannelView
  channel_view endpoint (created, id) = record {
    id = id;
    endpoint_url = endpoint.url;
    channel_type = channel_type_value endpoint.channel_type;
    source = endpoint.source;
    item_count = endpoint.item_count;
    created = created;
  }

  unfoldable pub create_channels :
      Uuid
      → FetchFrequency
      → Instant
      → List ValidatedEndpoint
      → Tables
      → Result (Tables × List DiscoveredChannelView)
  create_channels publisher_id frequency now [] t = returned (t, [])
  create_channels publisher_id frequency now (endpoint ∷ endpoints) t =
      and_then (create_channel_if_absent publisher_id endpoint frequency now t) (λ made.
        and_then (create_channels publisher_id frequency now endpoints made.0)
          (λ rest. returned (rest.0, channel_view endpoint made.1 ∷ rest.1)))

  abbrev pub new_publisher :
      Uuid → DiscoverPublisherCommand → String → String → String → Bool → Instant → PublisherModel
  new_publisher id command slug domain homepage_url ready now = record {
    id = id;
    name = command.publisher_name;
    slug = slug;
    canonical_domain = domain;
    homepage_url = some homepage_url;
    fetch_frequency = command.fetch_frequency;
    discovery_status = if ready then "ready" else "no_channels_found";
    discovery_message =
        if ready
        then none
        else some
            "No valid RSS, Atom, sitemap, homepage, or listing-page endpoint was discovered. Add a manual endpoint.";
    last_fetched_at = none;
    active = true;
    created_at = now;
    updated_at = now;
  }

  abbrev pub is_empty_list : {A : Type 0} → List A → Bool
  is_empty_list [] = true
  is_empty_list (x ∷ xs) = false

  -- The transaction below its test of the domain, for a publisher that has drawn its identifier.
  unfoldable pub insert_publisher :
      DiscoverPublisherCommand
      → PublisherModel
      → String
      → ℕ
      → List ValidatedEndpoint
      → Instant
      → Tables
      → Result (Tables × PublisherDiscoveryResult)
  insert_publisher command publisher homepage_url attempted validated now t =
      and_then
        (create_channels publisher.id command.fetch_frequency now validated
          (record t { publishers = t.publishers ++ publisher ∷ []; next_id = suc t.next_id }))
        (λ made.
          let t' =
            emit_source
              (source_event "publisher.source_discovered" "publisher" publisher.id
                (("publisher_id", uuid publisher.id)
                  ∷ ("homepage_url", text homepage_url)
                  ∷ ("attempted_endpoint_count", number attempted)
                  ∷ ("valid_endpoint_count", number (length validated))
                  ∷ ("fetch_frequency", text (frequency_value command.fetch_frequency))
                  ∷ [])
                now)
              made.0 in
          returned (
            t',
            record {
              publisher = publisher_source_view t' publisher;
              channels = made.1;
              attempted_endpoint_count = attempted;
              valid_endpoint_count = length validated;
              invalid_endpoint_count = attempted - length validated;
              manual_fallback_available = is_empty_list validated;
            },
          ))

  -- The transaction; it draws the identifier of the publisher, of each channel and of the event.
  unfoldable pub store_publisher :
      DiscoverPublisherCommand
      → String
      → String
      → ℕ
      → List ValidatedEndpoint
      → Instant
      → Tables
      → Result (Tables × PublisherDiscoveryResult)
  store_publisher command domain homepage_url attempted validated now t =
      elim (find_row (λ (p : PublisherModel). str_eq p.canonical_domain domain) t.publishers) [
        | some existing ↦
            raised (
              error "PublisherConflictError"
                (concat "publisher already exists for domain: " domain))
        | none ↦
            let slug =
              unique_slug d.characters.decimal (slugify d.characters command.publisher_name)
                (map (λ (p : PublisherModel). p.slug) t.publishers) in
            insert_publisher command
              (new_publisher t.next_id command slug domain homepage_url
                (not (is_empty_list validated)) now)
              homepage_url attempted validated now t
      ]

  unfoldable pub discover :
      DiscoverPublisherCommand → Instant → Tables → Result (Tables × PublisherDiscoveryResult)
  discover command now t =
      and_then (checked d (normalize_homepage_url d.web command.website_url)) (λ homepage_url.
        and_then (checked d (canonical_domain d.web homepage_url)) (λ host.
          and_then (checked d (d.normalize_domain host)) (λ domain.
            and_then (d.fetch now 0 homepage_url) (λ page.
              if is_success page
              then and_then (checked d (collect_endpoints d command now page)) (λ unique.
                store_publisher command domain homepage_url (length unique)
                  (validate_endpoints d now 2 unique) now t)
              else raised (
                  error "SourceDiscoveryError"
                    (concat "homepage returned HTTP " (d.describe_status page.status_code)))))))

  abbrev pub committed :
      Tables → Result (Tables × PublisherDiscoveryResult) → Result PublisherDiscoveryResult × Tables
  committed t (raised e) = (raised e, t)
  committed t (returned (t', result)) = (returned result, t')

  unfoldable pub discover_publisher :
      DiscoverPublisherCommand → Instant → Tables → Result PublisherDiscoveryResult × Tables
  discover_publisher command now t = committed t (discover command now t)

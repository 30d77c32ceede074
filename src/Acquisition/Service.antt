-- ===== src/Acquisition/Service.antt =====
-- create_publisher and create_channel of AcquisitionService,
-- backend/src/newsintel/application/acquisition/service.py. Each is one
-- unit of work: an exception leaves the tables as they were. canonicalize_url and normalize_domain
-- are parameters; `none` is their ValueError.
use newzyfy.Prelude.{ℕ, suc, String, true, Option, none, some, List, [], ◌∷◌, ◌++◌}
use newzyfy.Time.{Instant}
use newzyfy.Outbox.{Uuid, Json, IntegrationEvent, uuid, text}
use newzyfy.Acquisition.Frontier.{DiscoveryChannelType, channel_type_value}
use newzyfy.Acquisition.Rows.{
  Publisher, DiscoveryChannel, Store, get_publisher, get_by_slug, get_by_endpoint, emit,
}

pub data ServiceError : Type 0 where
  invalid not_found conflict : ServiceError

pub data Outcome (A : Type 0) : Type 0 where
  ok : A → Outcome A
  err : ServiceError → Outcome A

pub record CanonicalUrl : Type 0 where
  pub normalized : String
  pub fingerprint : String

abbrev pub service_event :
    String
    → String
    → Uuid
    → List (String × Json)
    → Option Uuid
    → Option String
    → List Uuid
    → Instant
    → Uuid
    → IntegrationEvent
service_event event_type aggregate_type aggregate_id payload correlation_id traceparent ids clock
      event_id =
    record {
      event_id = event_id;
      event_type = event_type;
      event_version = 1;
      aggregate_type = aggregate_type;
      aggregate_id = aggregate_id;
      payload = payload;
      occurred_at = clock;
      producer = "acquisition-api";
      correlation_id = correlation_id;
      causation_id = none;
      traceparent = traceparent;
      idempotency_key = record { prefix = event_type; ids = ids };
    }

unfoldable create_publisher :
    (String → Option String)
    → String
    → String
    → String
    → Instant
    → Store
    → Outcome (Store × Publisher)
create_publisher normalize_domain name slug canonical_domain clock s = elim (get_by_slug slug s) [
  | some _ ↦ err conflict
  | none ↦ elim (normalize_domain canonical_domain) [
    | none ↦ err invalid
    | some domain ↦
        let publisher : Publisher = record {
          id = s.next_id;
          name = name;
          slug = slug;
          canonical_domain = domain;
          active = true;
          created_at = clock;
          updated_at = clock;
        } in
        let payload =
          ("publisher_id", uuid publisher.id)
          ∷ ("slug", text slug)
          ∷ ("canonical_domain", text domain)
          ∷ [] in
        ok (
          emit
              (service_event "publisher.created" "publisher" publisher.id payload none none
                (publisher.id ∷ []) clock)
              (record s { publishers = s.publishers ++ publisher ∷ []; next_id = suc s.next_id }),
          publisher,
        )
  ]
]

-- A command that the validators of CreateChannelCommand have let through; its `config` is left out.
pub record CreateChannelCommand : Type 0 where
  pub publisher_id : Uuid
  pub channel_type : DiscoveryChannelType
  pub endpoint_url : String
  pub strategy_version : String
  pub poll_min_seconds : ℕ
  pub poll_max_seconds : ℕ
  pub current_poll_seconds : ℕ

abbrev new_channel : Uuid → String → CreateChannelCommand → Instant → DiscoveryChannel
new_channel id endpoint_url command clock = record {
  id = id;
  publisher_id = command.publisher_id;
  channel_type = command.channel_type;
  endpoint_url = endpoint_url;
  strategy_version = command.strategy_version;
  active = true;
  next_poll_at = some clock;
  poll_min_seconds = command.poll_min_seconds;
  poll_max_seconds = command.poll_max_seconds;
  current_poll_seconds = command.current_poll_seconds;
  etag = none;
  last_modified = none;
  last_polled_at = none;
  last_success_at = none;
  lease_owner = none;
  lease_expires_at = none;
  consecutive_failures = 0;
  created_at = clock;
  updated_at = clock;
}

-- The unit of work once its tests have passed.
unfoldable pub add_channel :
    String → CreateChannelCommand → Instant → Store → Store × DiscoveryChannel
add_channel endpoint_url command clock s =
    let channel = new_channel s.next_id endpoint_url command clock in
    let payload =
      ("channel_id", uuid channel.id)
      ∷ ("publisher_id", uuid channel.publisher_id)
      ∷ ("channel_type", text (channel_type_value channel.channel_type))
      ∷ ("endpoint_url", text channel.endpoint_url)
      ∷ [] in
    (
      emit
          (service_event "discovery.channel_created" "discovery_channel" channel.id payload none
            none (channel.id ∷ []) clock)
          (record s { channels = s.channels ++ channel ∷ []; next_id = suc s.next_id }),
      channel,
    )

unfoldable pub create_channel :
    (String → Option CanonicalUrl)
    → CreateChannelCommand
    → Instant
    → Store
    → Outcome (Store × DiscoveryChannel)
create_channel canonicalize command clock s = elim (canonicalize command.endpoint_url) [
  | none ↦ err invalid
  | some url ↦ elim (get_publisher command.publisher_id s) [
    | none ↦ err not_found
    | some _ ↦ elim (get_by_endpoint command.publisher_id url.normalized s) [
      | some _ ↦ err conflict
      | none ↦ ok (add_channel url.normalized command clock s)
    ]
  ]
]

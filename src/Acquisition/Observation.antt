-- ===== src/Acquisition/Observation.antt =====
-- observe_discovery of backend/src/newsintel/application/acquisition/service.py: one URL that a channel
-- shows becomes a candidate of the frontier, once, with an observation for each channel. It is one unit
-- of work: an exception leaves the tables as they were.
use newzyfy.Prelude.{
  ℕ, suc, String, Bool, true, false, Option, none, some, List, [], ◌∷◌, ◌++◌, ◌==◌, if◌then◌else◌,
  or_else, update_where,
}
use newzyfy.Time.{Instant}
use newzyfy.Outbox.{Uuid, Json, json_option, uuid, text, instant, number}
use newzyfy.Articles.Rows.{UrlCandidateModel, candidate_key}
use newzyfy.Acquisition.Frontier.{calculate_frontier_priority, bootstrap_priority_inputs}
use newzyfy.Acquisition.Rows.{
  DiscoveryChannel, Store, get_channel, get_by_fingerprint, new_candidate, observed_row,
  add_discovery_if_absent, emit_if,
}
use newzyfy.Acquisition.Service.{invalid, not_found, Outcome, ok, err, CanonicalUrl, service_event}

pub record ObserveDiscoveryCommand : Type 0 where
  pub channel_id : Uuid
  pub url : String
  pub external_id : Option String
  pub title : Option String
  pub published_at : Option Instant
  pub published_at_raw : Option String
  pub discovered_at : Option Instant
  pub channel_position : Option ℕ
  pub payload_sha256 : Option String

pub record DiscoveryObservationResult : Type 0 where
  pub candidate_id : Uuid
  pub normalized_url : String
  pub priority_score : ℕ
  pub priority_policy_version : String
  pub candidate_created : Bool
  pub channel_observation_created : Bool
  pub outbox_event_ids : List Uuid

-- The candidate of the fingerprint: created, or updated with what was observed.
unfoldable pub admit_candidate :
    DiscoveryChannel
    → CanonicalUrl
    → Option Instant
    → Instant
    → Instant
    → Store
    → Store × UrlCandidateModel × Bool
admit_candidate channel url published_at observed_at clock s =
    elim (get_by_fingerprint url.fingerprint s) [
      | none ↦
          let row =
            new_candidate s.next_id channel.publisher_id url.normalized url.fingerprint
              (calculate_frontier_priority (bootstrap_priority_inputs channel.channel_type))
              observed_at published_at clock in
          (record s { candidates = s.candidates ++ row ∷ []; next_id = suc s.next_id }, row, true)
      | some row ↦ (
        record s {
          candidates =
              update_where (λ r. candidate_key r == row.id)
                (observed_row published_at observed_at clock) s.candidates;
        },
        observed_row published_at observed_at clock row,
        false,
      )
    ]

abbrev observed_payload :
    ObserveDiscoveryCommand → DiscoveryChannel → UrlCandidateModel → Instant → List (String × Json)
observed_payload command channel row observed_at =
    ("candidate_id", uuid row.id)
    ∷ ("channel_id", uuid channel.id)
    ∷ ("publisher_id", uuid channel.publisher_id)
    ∷ ("url", text command.url)
    ∷ ("normalized_url", text row.normalized_url)
    ∷ ("external_id", json_option text command.external_id)
    ∷ ("title", json_option text command.title)
    ∷ ("published_at", json_option instant command.published_at)
    ∷ ("published_at_raw", json_option text command.published_at_raw)
    ∷ ("discovered_at", instant observed_at)
    ∷ []

abbrev admitted_payload : DiscoveryChannel → UrlCandidateModel → List (String × Json)
admitted_payload channel row =
    ("candidate_id", uuid row.id)
    ∷ ("publisher_id", uuid channel.publisher_id)
    ∷ ("normalized_url", text row.normalized_url)
    ∷ ("priority_score", number row.priority_score)
    ∷ ("priority_policy_version", text row.priority_policy_version)
    ∷ ("published_at", json_option instant row.published_at)
    ∷ ("first_discovered_at", json_option instant row.first_discovered_at)
    ∷ ("next_fetch_at", instant row.next_fetch_at)
    ∷ []

-- The unit of work once the channel is found. The priority components are not kept.
unfoldable pub record_observation :
    DiscoveryChannel
    → CanonicalUrl
    → ObserveDiscoveryCommand
    → Option Uuid
    → Option String
    → Instant
    → Instant
    → Store
    → Store × DiscoveryObservationResult
record_observation channel url command correlation_id traceparent observed_at clock s =
    let (s1, row, candidate_created) =
      admit_candidate channel url command.published_at observed_at clock s in
    let (s2, observation_created) =
      add_discovery_if_absent
        (record {
          id = s1.next_id;
          url_candidate_id = row.id;
          channel_id = channel.id;
          discovered_url = command.url;
          discovered_at = observed_at;
          channel_position = command.channel_position;
          payload_hash = command.payload_sha256;
        })
        (record s1 { next_id = suc s1.next_id }) in
    let s3 =
      emit_if observation_created
        (service_event "discovery.item_observed" "url_candidate" row.id
          (observed_payload command channel row observed_at) correlation_id traceparent
          (row.id ∷ channel.id ∷ []) clock)
        s2 in
    let s4 =
      emit_if candidate_created
        (service_event "frontier.url_admitted" "url_candidate" row.id (admitted_payload channel row)
          correlation_id traceparent (row.id ∷ []) clock)
        s3 in
    (
      s4,
      record {
        candidate_id = row.id;
        normalized_url = row.normalized_url;
        priority_score = row.priority_score;
        priority_policy_version = row.priority_policy_version;
        candidate_created = candidate_created;
        channel_observation_created = observation_created;
        outbox_event_ids =
            (if observation_created then s2.next_id ∷ [] else [])
            ++ (if candidate_created then s3.next_id ∷ [] else []);
      },
    )

abbrev pub active_channel : Uuid → Store → Option DiscoveryChannel
active_channel id s = elim (get_channel id s) [
  | none ↦ none
  | some channel ↦ if channel.active then some channel else none
]

unfoldable pub observe_discovery :
    (String → Option CanonicalUrl)
    → ObserveDiscoveryCommand
    → Option Uuid
    → Option String
    → Instant
    → Store
    → Outcome (Store × DiscoveryObservationResult)
observe_discovery canonicalize command correlation_id traceparent clock s =
    elim (canonicalize command.url) [
      | none ↦ err invalid
      | some url ↦ elim (active_channel command.channel_id s) [
        | none ↦ err not_found
        | some channel ↦ ok (
            record_observation channel url command correlation_id traceparent
              (or_else command.discovered_at clock) clock s)
      ]
    ]

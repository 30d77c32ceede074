-- ===== src/Acquisition/Rows.antt =====
-- The entities of backend/src/newsintel/domain/acquisition/entities.py with their tables, as
-- backend/src/newsintel/infrastructure/db/acquisition_repositories.py reads and writes them.
use newzyfy.Prelude.{
  ℕ, suc, min, String, Bool, true, false, ◌&&◌, Option, none, some, List, [], ◌∷◌, ◌++◌, str_eq,
  ltb, ◌==◌, if◌then◌else◌, is_none, find_row, find_key,
}
use newzyfy.Time.{Instant}
use newzyfy.Outbox.{Uuid, OutboxEventModel, IntegrationEvent, add_outbox}
use newzyfy.Articles.Types.{UrlCandidateState, ArticleProcessingStage}
use newzyfy.Articles.Rows.{UrlCandidateModel}
use newzyfy.Acquisition.Frontier.{DiscoveryChannelType}

pub record Publisher : Type 0 where
  pub id : Uuid
  pub name : String
  pub slug : String
  pub canonical_domain : String
  pub active : Bool
  pub created_at : Instant
  pub updated_at : Instant

-- The configuration is left out.
pub record DiscoveryChannel : Type 0 where
  pub id : Uuid
  pub publisher_id : Uuid
  pub channel_type : DiscoveryChannelType
  pub endpoint_url : String
  pub strategy_version : String
  pub active : Bool
  pub next_poll_at : Option Instant
  pub poll_min_seconds : ℕ
  pub poll_max_seconds : ℕ
  pub current_poll_seconds : ℕ
  pub etag : Option String
  pub last_modified : Option String
  pub last_polled_at : Option Instant
  pub last_success_at : Option Instant
  pub lease_owner : Option String
  pub lease_expires_at : Option Instant
  pub consecutive_failures : ℕ
  pub created_at : Instant
  pub updated_at : Instant

pub record UrlDiscovery : Type 0 where
  pub id : Uuid
  pub url_candidate_id : Uuid
  pub channel_id : Uuid
  pub discovered_url : String
  pub discovered_at : Instant
  pub channel_position : Option ℕ
  pub payload_hash : Option String

pub data PollRunStatus : Type 0 where
  running succeeded not_modified failed : PollRunStatus

-- `was_not_modified` is the column not_modified.
pub record ChannelPollRunModel : Type 0 where
  pub id : Uuid
  pub channel_id : Uuid
  pub worker_id : String
  pub status : PollRunStatus
  pub started_at : Instant
  pub completed_at : Option Instant
  pub http_status : Option ℕ
  pub was_not_modified : Bool
  pub discovered_count : ℕ
  pub admitted_count : ℕ
  pub observation_count : ℕ
  pub response_bytes : ℕ
  pub error_type : Option String
  pub error_message : Option String
  pub trace_id : Uuid

-- The tables of acquisition; the candidates are the rows that the article pipeline works on.
pub record Store : Type 0 where
  pub publishers : List Publisher
  pub channels : List DiscoveryChannel
  pub candidates : List UrlCandidateModel
  pub discoveries : List UrlDiscovery
  pub poll_runs : List ChannelPollRunModel
  pub outbox : List OutboxEventModel
  pub next_id : Uuid

abbrev pub channel_key : DiscoveryChannel → Uuid
channel_key c = c.id

abbrev pub get_channel : Uuid → Store → Option DiscoveryChannel
get_channel id s = find_key channel_key id s.channels

abbrev pub get_publisher : Uuid → Store → Option Publisher
get_publisher id s = find_key (λ (p : Publisher). p.id) id s.publishers

abbrev pub get_by_slug : String → Store → Option Publisher
get_by_slug slug s = find_row (λ (p : Publisher). str_eq p.slug slug) s.publishers

abbrev pub get_by_endpoint : Uuid → String → Store → Option DiscoveryChannel
get_by_endpoint publisher_id endpoint_url s =
    find_row
      (λ (c : DiscoveryChannel).
        c.publisher_id == publisher_id && str_eq c.endpoint_url endpoint_url)
      s.channels

abbrev pub get_by_fingerprint : String → Store → Option UrlCandidateModel
get_by_fingerprint fingerprint s =
    find_row (λ (c : UrlCandidateModel). str_eq c.url_fingerprint fingerprint) s.candidates

-- The row that add_candidate inserts for a new UrlCandidate, with the defaults of the table.
unfoldable pub new_candidate :
    Uuid → Uuid → String → String → ℕ → Instant → Option Instant → Instant → UrlCandidateModel
new_candidate id publisher_id normalized_url fingerprint priority_score observed_at published_at
      clock =
    record {
      id = id;
      publisher_id = publisher_id;
      normalized_url = normalized_url;
      url_fingerprint = fingerprint;
      state = UrlCandidateState.ready;
      processing_stage = ArticleProcessingStage.queued;
      priority_score = priority_score;
      priority_policy_version = "frontier-v1";
      next_fetch_at = observed_at;
      published_at = published_at;
      first_discovered_at = some observed_at;
      lease_owner = none;
      lease_expires_at = none;
      current_worker = none;
      attempt_count = 0;
      article_id = none;
      last_fetch_at = none;
      last_error = none;
      last_failure_code = none;
      last_failure_message = none;
      content_type = none;
      processing_started_at = none;
      processing_completed_at = none;
      processing_duration_ms = none;
      stage_timestamps = [];
      created_at = clock;
      updated_at = clock;
    }

abbrev earliest : Option Instant → Instant → Instant
earliest none t = t
earliest (some s) t = min s t

-- The later of the stored and the given publication time; one that is not given changes nothing.
abbrev latest : Option Instant → Option Instant → Option Instant
latest stored none = stored
latest none (some t) = some t
latest (some s) (some t) = if ltb s t then some t else some s

-- update_candidate_job_metadata on a row that is there: every branch on first_discovered_at sets
-- `changed`, so the row's updated_at always moves.
unfoldable pub observed_row :
    Option Instant → Instant → Instant → UrlCandidateModel → UrlCandidateModel
observed_row published_at discovered_at clock row = record row {
  first_discovered_at = some (earliest row.first_discovered_at discovered_at);
  published_at = latest row.published_at published_at;
  updated_at = clock;
}

abbrev pub is_discovery : Uuid → Uuid → UrlDiscovery → Bool
is_discovery candidate_id channel_id d =
    d.url_candidate_id == candidate_id && d.channel_id == channel_id

-- add_discovery_if_absent: INSERT … ON CONFLICT DO NOTHING on (candidate, channel); the flag says
-- whether a row was inserted.
unfoldable pub add_discovery_if_absent : UrlDiscovery → Store → Store × Bool
add_discovery_if_absent d s =
    if is_none (find_row (is_discovery d.url_candidate_id d.channel_id) s.discoveries)
    then (record s { discoveries = s.discoveries ++ d ∷ [] }, true)
    else (s, false)

-- Writing an event draws its identifier.
abbrev pub emit : (Uuid → IntegrationEvent) → Store → Store
emit event s = record s { outbox = add_outbox (event s.next_id) s.outbox; next_id = suc s.next_id }

unfoldable pub emit_if : Bool → (Uuid → IntegrationEvent) → Store → Store
emit_if true event s = emit event s
emit_if false event s = s

-- ===== src/Sources.antt =====
-- The tables that backend/src/newsintel/application/sources/service.py and
-- backend/src/newsintel/maintenance/cleanup_old_jobs.py work on, from
-- backend/src/newsintel/infrastructure/db/models.py, and FetchFrequency of
-- backend/src/newsintel/application/sources/dto.py.
pub mod Endpoints
pub mod Links
pub mod Distinct
pub mod Slugs
pub mod Fresh
pub mod Views
pub mod Service
pub mod Collect
pub mod Discover
pub mod Effects
pub mod Jobs
pub mod Conflict
pub mod Repeated
use newzyfy.Prelude.{ℕ, suc, String, Bool, Option, none, some, List, find_key}
use newzyfy.Time.{Instant}
use newzyfy.Outbox.{Uuid, OutboxEventModel, IntegrationEvent, add_outbox}
use newzyfy.Articles.Rows.{UrlCandidateModel, ArticleModel}
use newzyfy.Acquisition.Rows.{DiscoveryChannel, UrlDiscovery}

pub data FetchFrequency : Type 0 where
  manual every_15_minutes hourly every_6_hours daily : FetchFrequency

pub record PublisherModel : Type 0 where
  pub id : Uuid
  pub name : String
  pub slug : String
  pub canonical_domain : String
  pub homepage_url : Option String
  pub fetch_frequency : FetchFrequency
  pub discovery_status : String
  pub discovery_message : Option String
  pub last_fetched_at : Option Instant
  pub active : Bool
  pub created_at : Instant
  pub updated_at : Instant

-- The metadata is its list of publishers.
pub record FetchJobModel : Type 0 where
  pub id : Uuid
  pub publisher_id : Option Uuid
  pub job_type : String
  pub status : String
  pub publishers_total : ℕ
  pub publishers_processed : ℕ
  pub urls_discovered : ℕ
  pub articles_queued : ℕ
  pub articles_extracted : ℕ
  pub duplicates_skipped : ℕ
  pub failed_articles : ℕ
  pub message : Option String
  pub publisher_ids : List Uuid
  pub created_at : Instant
  pub started_at : Option Instant
  pub completed_at : Option Instant
  pub updated_at : Instant

pub record Tables : Type 0 where
  pub publishers : List PublisherModel
  pub channels : List DiscoveryChannel
  pub candidates : List UrlCandidateModel
  pub discoveries : List UrlDiscovery
  pub articles : List ArticleModel
  pub fetch_jobs : List FetchJobModel
  pub outbox : List OutboxEventModel
  pub next_id : Uuid

abbrev pub publisher_key : PublisherModel → Uuid
publisher_key p = p.id

abbrev pub get_publisher : Uuid → Tables → Option PublisherModel
get_publisher id t = find_key publisher_key id t.publishers

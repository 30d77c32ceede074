-- ===== src/Articles/Rows.antt =====
-- The tables of the article pipeline: backend/src/newsintel/infrastructure/db/models.py.
use newzyfy.Prelude.{ℕ, String, Bool, Option, List, [], ◌∷◌, ◌==◌, find_key, update_where}
use newzyfy.Time.{Instant}
use newzyfy.Outbox.{Uuid, Json, OutboxEventModel, IntegrationEvent, add_outbox}
use newzyfy.Events.Assignment.{EventAssignmentState}
use newzyfy.Articles.Types.{UrlCandidateState, ArticleProcessingStage, ArticleFetchRunStatus}

-- A priority score is a whole number of hundred-thousandths.
pub record UrlCandidateModel : Type 0 where
  pub id : Uuid
  pub publisher_id : Uuid
  pub normalized_url : String
  pub url_fingerprint : String
  pub state : UrlCandidateState
  pub processing_stage : ArticleProcessingStage
  pub priority_score : ℕ
  pub priority_policy_version : String
  pub next_fetch_at : Instant
  pub published_at : Option Instant
  pub first_discovered_at : Option Instant
  pub lease_owner : Option String
  pub lease_expires_at : Option Instant
  pub current_worker : Option String
  pub attempt_count : ℕ
  pub article_id : Option Uuid
  pub last_fetch_at : Option Instant
  pub last_error : Option String
  pub last_failure_code : Option String
  pub last_failure_message : Option String
  pub content_type : Option String
  pub processing_started_at : Option Instant
  pub processing_completed_at : Option Instant
  pub processing_duration_ms : Option ℕ
  pub stage_timestamps : List (ArticleProcessingStage × Instant)
  pub created_at : Instant
  pub updated_at : Instant

pub record ArticleFetchRunModel : Type 0 where
  pub id : Uuid
  pub candidate_id : Uuid
  pub worker_id : String
  pub trace_id : Uuid
  pub status : ArticleFetchRunStatus
  pub started_at : Instant
  pub completed_at : Option Instant
  pub http_status : Option ℕ
  pub response_bytes : ℕ
  pub final_url : Option String
  pub body_sha256 : Option String
  pub error_type : Option String
  pub error_message : Option String

-- The slug, and of the metadata all but the candidate, are left out.
pub record EventModel : Type 0 where
  pub id : Uuid
  pub title : String
  pub lifecycle_status : String
  pub assignment_status : EventAssignmentState
  pub first_detected_at : Instant
  pub last_material_change_at : Instant
  pub created_from_candidate_id : Uuid
  pub created_at : Instant
  pub updated_at : Instant

pub record ArticleModel : Type 0 where
  pub id : Uuid
  pub publisher_id : Uuid
  pub event_id : Uuid
  pub canonical_url : String
  pub normalized_url_hash : String
  pub title : String
  pub language : Option String
  pub published_at : Option Instant
  pub first_observed_at : Instant
  pub created_at : Instant
  pub updated_at : Instant

pub record ArticleVersionModel : Type 0 where
  pub id : Uuid
  pub article_id : Uuid
  pub version_number : ℕ
  pub source_url : String
  pub final_url : String
  pub title : String
  pub byline : Option String
  pub language : Option String
  pub published_at : Option Instant
  pub retrieved_at : Instant
  pub content_sha256 : String
  pub text_content : String
  pub extraction_method : String
  pub extraction_warnings : List String
  pub metadata : List (String × Json)
  pub created_at : Instant

pub record EventAssignmentModel : Type 0 where
  pub id : Uuid
  pub article_id : Uuid
  pub event_id : Uuid
  pub state : EventAssignmentState
  pub score : Option ℕ
  pub is_current : Bool
  pub assigned_at : Instant

pub record ArticleClaimModel : Type 0 where
  pub id : Uuid
  pub article_id : Uuid
  pub article_version_id : Uuid
  pub claim_text : String
  pub claim_sha256 : String
  pub sentence_index : ℕ
  pub created_at : Instant

pub record ClaimEvidenceLinkModel : Type 0 where
  pub id : Uuid
  pub claim_id : Uuid
  pub evidence_article_id : Uuid
  pub evidence_article_version_id : Uuid
  pub source_url : String
  pub source_type : String
  pub relationship : String
  pub retrieved_at : Instant
  pub created_at : Instant

pub record ClaimVerificationModel : Type 0 where
  pub id : Uuid
  pub claim_id : Uuid
  pub label : String
  pub methodology_version : String
  pub created_at : Instant

pub ArticleProcessingStage-discrete : Discrete ArticleProcessingStage
ArticleProcessingStage-discrete = hlevel

-- timestamps[stage.value] = occurred_at
abbrev pub set_timestamp :
    ArticleProcessingStage
    → Instant
    → List (ArticleProcessingStage × Instant)
    → List (ArticleProcessingStage × Instant)
set_timestamp stage t [] = (stage, t) ∷ []
set_timestamp stage t ((s, u) ∷ rest) =
    let later = set_timestamp stage t rest in
    elim (ArticleProcessingStage-discrete s stage) [ yes _ ↦ (s, t) ∷ rest | no _ ↦ (s, u) ∷ later ]

-- The database. `next_id` is what uuid7() returns next: each identifier is drawn once.
pub record Database : Type 0 where
  pub candidates : List UrlCandidateModel
  pub fetch_runs : List ArticleFetchRunModel
  pub events : List EventModel
  pub articles : List ArticleModel
  pub versions : List ArticleVersionModel
  pub assignments : List EventAssignmentModel
  pub claims : List ArticleClaimModel
  pub evidence : List ClaimEvidenceLinkModel
  pub verifications : List ClaimVerificationModel
  pub outbox : List OutboxEventModel
  pub next_id : Uuid

abbrev pub candidate_key : UrlCandidateModel → Uuid
candidate_key row = row.id

-- session.get(UrlCandidateModel, id)
abbrev pub get_candidate : Uuid → Database → Option UrlCandidateModel
get_candidate id db = find_key candidate_key id db.candidates

-- What a transaction writes to the row of a candidate; nothing where there is none.
abbrev pub update_candidate : Uuid → (UrlCandidateModel → UrlCandidateModel) → Database → Database
update_candidate id f db = record db {
  candidates = update_where (λ row. candidate_key row == id) f db.candidates;
}

abbrev pub update_fetch_run :
    Uuid → (ArticleFetchRunModel → ArticleFetchRunModel) → Database → Database
update_fetch_run id f db = record db {
  fetch_runs = update_where (λ run. run.id == id) f db.fetch_runs;
}

abbrev pub emit : IntegrationEvent → Database → Database
emit event db = record db { outbox = add_outbox event db.outbox }

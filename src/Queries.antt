-- ===== src/Queries.antt =====
-- What the API reads: backend/src/newsintel/application/articles/query_service.py over the tables of
-- backend/src/newsintel/infrastructure/db/models.py. Rows that stand equal in an ORDER BY keep the order
-- of the table. The columns that Articles/Rows leaves out are left out of the views.
pub mod Service
pub mod Latest
use newzyfy.Prelude.{
  ℕ, zero, suc, String, Bool, true, false, Option, none, some, List, [], ◌∷◌, map, keep, length,
  take, sort_by, ltb, ◌==◌, str_eq, or_option, find_key, if◌then◌else◌,
}
use newzyfy.Time.{Instant}
use newzyfy.Outbox.{Uuid, Json, number, flag}
use newzyfy.Events.Assignment.{EventAssignmentState}
use newzyfy.Articles.Rows.{
  EventModel, ArticleModel, ArticleVersionModel, ArticleClaimModel, ClaimEvidenceLinkModel,
  ClaimVerificationModel, Database,
}

pub record ArticleVersionView : Type 0 where
  pub id : Uuid
  pub version_number : ℕ
  pub source_url : String
  pub final_url : String
  pub title : String
  pub byline : Option String
  pub language : Option String
  pub published_at : Option Instant
  pub retrieved_at : Instant
  pub content_sha256 : String
  pub extraction_method : String
  pub extraction_warnings : List String
  pub extraction_quality_score : Option ℕ
  pub raw_artifact_uri : Option String
  pub word_count : ℕ
  pub text_content : String
  pub created_at : Instant

pub record ArticleSummaryView : Type 0 where
  pub id : Uuid
  pub event_id : Uuid
  pub publisher_id : Uuid
  pub canonical_url : String
  pub title : String
  pub language : Option String
  pub published_at : Option Instant
  pub first_observed_at : Instant
  pub latest_version_id : Option Uuid
  pub latest_version_number : Option ℕ
  pub latest_extraction_method : Option String
  pub latest_extraction_warnings : List String
  pub latest_extraction_quality_score : Option ℕ
  pub word_count : Option ℕ

pub record ArticleDetailView : Type 0 where
  pub id : Uuid
  pub event_id : Uuid
  pub publisher_id : Uuid
  pub canonical_url : String
  pub title : String
  pub language : Option String
  pub published_at : Option Instant
  pub first_observed_at : Instant
  pub created_at : Instant
  pub updated_at : Instant
  pub latest_version : Option ArticleVersionView

pub record EventDetailView : Type 0 where
  pub id : Uuid
  pub title : String
  pub lifecycle_status : String
  pub assignment_status : EventAssignmentState
  pub first_detected_at : Instant
  pub last_material_change_at : Instant
  pub created_at : Instant
  pub updated_at : Instant
  pub articles : List ArticleSummaryView

pub record ClaimEvidenceLinkView : Type 0 where
  pub id : Uuid
  pub source_url : String
  pub source_type : String
  pub relationship : String
  pub retrieved_at : Instant

pub record ClaimVerificationView : Type 0 where
  pub id : Uuid
  pub label : String
  pub methodology_version : String
  pub created_at : Instant

pub record ArticleClaimView : Type 0 where
  pub id : Uuid
  pub article_id : Uuid
  pub article_version_id : Uuid
  pub claim_text : String
  pub sentence_index : ℕ
  pub created_at : Instant
  pub evidence_links : List ClaimEvidenceLinkView
  pub latest_verification : Option ClaimVerificationView

-- str.split() of a text, and the artifact_uri of a snapshot's metadata where that is a dictionary with
-- a text there.
pub record Readers : Type 0 where
  pub words : String → List String
  pub artifact_uri : Json → Option String

abbrev pub first {ℓ} : {A : Type ℓ} → List A → Option A
first [] = none
first (a ∷ rest) = some a

-- metadata.get(key): of the entries with one key, the last counts.
abbrev metadata_entry : String → List (String × Json) → Option Json
metadata_entry key [] = none
metadata_entry key ((k, value) ∷ rest) =
    or_option (metadata_entry key rest) (if str_eq k key then some value else none)

-- isinstance(value, int) also holds of a Boolean.
unfoldable pub word_count : Readers → ArticleVersionModel → ℕ
word_count readers version = elim (metadata_entry "word_count" version.metadata) [
  | some (number n) ↦ n
  | some (flag true) ↦ 1
  | some (flag false) ↦ 0
  | _ ↦ length (readers.words version.text_content)
]

-- In ten-thousandths.
unfoldable pub extraction_quality_score : ArticleVersionModel → Option ℕ
extraction_quality_score version =
    elim (metadata_entry "extraction_quality_score" version.metadata) [
      | some (number n) ↦ some n
      | some (flag true) ↦ some 10000
      | some (flag false) ↦ some 0
      | _ ↦ none
    ]

unfoldable pub raw_artifact_uri : Readers → ArticleVersionModel → Option String
raw_artifact_uri readers version = elim (metadata_entry "raw_fetch_artifact" version.metadata) [
  | none ↦ none
  | some artifact ↦ readers.artifact_uri artifact
]

-- ORDER BY version_number DESC LIMIT 1
abbrev pub newer_version : ArticleVersionModel → ArticleVersionModel → Bool
newer_version a b = ltb b.version_number a.version_number

unfoldable pub latest_version : Uuid → Database → Option ArticleVersionModel
latest_version article_id db =
    first (sort_by newer_version (keep (λ v. v.article_id == article_id) db.versions))

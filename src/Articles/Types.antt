-- ===== src/Articles/Types.antt =====
-- The enumerations, exceptions and values of
-- backend/src/newsintel/application/articles/processing.py, with FetchResult of
-- backend/src/newsintel/adapters/http/safe_fetcher.py and ExtractedArticle of
-- backend/src/newsintel/adapters/extractors/article_html.py.
use newzyfy.Prelude.{ℕ, String, Bool, true, false, ◌||◌, Option, List, str_eq, ◌==◌, if◌then◌else◌}
use newzyfy.Time.{Instant}
use newzyfy.Outbox.{Uuid, Json}

pub data UrlCandidateState : Type 0 where
  ready leased retry processed failed rejected : UrlCandidateState

pub data ArticleProcessingStage : Type 0 where
  discovered admitted queued leased fetching fetched extracting extracted partial :
      ArticleProcessingStage
  validated persisting persisted enriching completed rejected : ArticleProcessingStage
  retryable_failure permanent_failure : ArticleProcessingStage

pub data ArticleFetchRunStatus : Type 0 where
  running succeeded failed rejected : ArticleFetchRunStatus

-- The exceptions that can reach `process`: its own classes, and those of the libraries below it by
-- the name of their class. `other` is any other class.
pub data ErrorClass : Type 0 where
  article_processing non_retryable insufficient_content job_rejected : ErrorClass
  access_blocked extraction_quality not_found : ErrorClass
  lookup os sqlalchemy integrity : ErrorClass
  other : String → ErrorClass

pub record Error : Type 0 where
  pub class : ErrorClass
  pub message : String

-- Its text also names the candidate, which is left out here.
abbrev pub lookup_error : Error
lookup_error = record { class = lookup; message = "url candidate not found" }

-- What a unique constraint answers with; the text of the database is left out.
abbrev pub integrity_error : Error
integrity_error = record { class = integrity; message = "duplicate key" }

-- type(exc).__name__
abbrev pub type_name : ErrorClass → String
type_name article_processing = "ArticleProcessingError"
type_name non_retryable = "NonRetryableArticleProcessingError"
type_name insufficient_content = "InsufficientArticleContentError"
type_name job_rejected = "ArticleJobRejectedError"
type_name access_blocked = "ArticleAccessBlockedError"
type_name extraction_quality = "ExtractionQualityError"
type_name not_found = "ArticleNotFoundError"
type_name lookup = "LookupError"
type_name os = "OSError"
type_name sqlalchemy = "SQLAlchemyError"
type_name integrity = "IntegrityError"
type_name (other name) = name

-- isinstance(exc, NonRetryableArticleProcessingError)
abbrev pub is_non_retryable : ErrorClass → Bool
is_non_retryable non_retryable = true
is_non_retryable access_blocked = true
is_non_retryable extraction_quality = true
is_non_retryable not_found = true
is_non_retryable _ = false

unfoldable failure_class : ErrorClass → String
failure_class c = if is_non_retryable c then "permanent" else "retryable"

unfoldable failure_code : ErrorClass → String
failure_code access_blocked = "access_blocked"
failure_code not_found = "http_permanent"
failure_code extraction_quality = "extraction_quality_rejected"
failure_code insufficient_content = "missing_body"
failure_code sqlalchemy = "database_error"
failure_code integrity = "database_error"
failure_code c = type_name c

abbrev pub is_non_retryable_http_status : ℕ → Bool
is_non_retryable_http_status s = s == 401 || s == 402 || s == 403 || s == 451

abbrev pub is_permanent_http_status : ℕ → Bool
is_permanent_http_status s = s == 400 || s == 404 || s == 410

abbrev pub is_fatal_extraction_warning : String → Bool
is_fatal_extraction_warning w =
    str_eq w "low_extraction_quality"
    || str_eq w "missing_text_content"
    || str_eq w "possible_paywall_or_partial_content"
    || str_eq w "possible_subscription_boilerplate"

pub record LeasedUrlCandidate : Type 0 where
  pub id : Uuid
  pub publisher_id : Uuid
  pub normalized_url : String
  pub attempt_count : ℕ
  pub published_at : Option Instant
  pub first_discovered_at : Option Instant

pub record ArticleFetchRun : Type 0 where
  pub id : Uuid
  pub candidate_id : Uuid
  pub worker_id : String
  pub trace_id : Uuid
  pub started_at : Instant

pub record ArticleProcessingResult : Type 0 where
  pub candidate_id : Uuid
  pub article_id : Uuid
  pub event_id : Uuid
  pub version_id : Option Uuid
  pub created_article : Bool
  pub created_event : Bool
  pub created_version : Bool
  pub claim_count : ℕ

-- The headers that are read are fields; the body is given by its length and its digest.
pub record FetchResult : Type 0 where
  pub requested_url : String
  pub final_url : String
  pub status_code : ℕ
  pub content_type : Option String
  pub etag : Option String
  pub last_modified : Option String
  pub body : String
  pub body_length : ℕ
  pub body_sha256 : String
  pub retrieved_at : Instant
  pub redirect_chain : List String

-- The property `not_modified` of FetchResult.
abbrev pub not_modified : FetchResult → Bool
not_modified f = f.status_code == 304

pub record ExtractedArticle : Type 0 where
  pub title : Option String
  pub byline : Option String
  pub published_at : Option Instant
  pub modified_at : Option Instant
  pub language : Option String
  pub canonical_url : Option String
  pub text_content : String
  pub content_sha256 : String
  pub extraction_method : String
  pub metadata : List (String × Json)
  pub warnings : List String

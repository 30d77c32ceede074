-- ===== src/Articles/Versions.antt =====
-- The second half of complete_success of
-- backend/src/newsintel/infrastructure/db/article_processing_repository.py: the version and the claims,
-- the end of the run and of the candidate's job, and the events.
use newzyfy.Prelude.{
  ℕ, suc, ◌+◌, max, String, Bool, true, false, ◌&&◌, Option, none, some, List, [], ◌∷◌, ◌++◌,
  str_eq, ◌==◌, if◌then◌else◌, find_row,
}
use newzyfy.Time.{Instant}
use newzyfy.Outbox.{Uuid, Json, json_option, uuid, text, texts}
use newzyfy.Articles.Types.{
  UrlCandidateState, ArticleProcessingStage, ArticleFetchRunStatus, ArticleFetchRun, FetchResult,
  ExtractedArticle, integrity_error,
}
use newzyfy.Articles.Rows.{
  UrlCandidateModel, ArticleFetchRunModel, ArticleModel, ArticleVersionModel, ArticleClaimModel,
  Database, set_timestamp,
}
use newzyfy.Articles.Stages.{duration_since}
use newzyfy.Articles.World.{Result, returned, raised}
use newzyfy.Articles.Persist.{Analysis, fallback_title}

-- select(func.max(version_number)) for an article, with 0 for no version.
unfoldable pub max_version : Uuid → List ArticleVersionModel → ℕ
max_version article_id [] = 0
max_version article_id (v ∷ vs) =
    let rest = max_version article_id vs in
    if v.article_id == article_id then max v.version_number rest else rest

-- The constraint article_version_claim: no two claims of a version have one digest.
abbrev pub is_claim : Uuid → String → ArticleClaimModel → Bool
is_claim version_id claim_sha256 c =
    c.article_version_id == version_id && str_eq c.claim_sha256 claim_sha256

-- The rows of ArticleClaimModel, ClaimEvidenceLinkModel and ClaimVerificationModel for a claim.
unfoldable pub insert_claim :
    ArticleVersionModel → Instant → String × String × ℕ → Database → Database
insert_claim version created_at (claim_text, claim_sha256, sentence_index) db =
    let id = db.next_id in
    record db {
      claims =
          db.claims
          ++ record {
            id = id;
            article_id = version.article_id;
            article_version_id = version.id;
            claim_text = claim_text;
            claim_sha256 = claim_sha256;
            sentence_index = sentence_index;
            created_at = created_at;
          }
            ∷ [];
      evidence =
          db.evidence
          ++ record {
            id = suc id;
            claim_id = id;
            evidence_article_id = version.article_id;
            evidence_article_version_id = version.id;
            source_url = version.final_url;
            source_type = "originating_article";
            relationship = "origin";
            retrieved_at = version.retrieved_at;
            created_at = created_at;
          }
            ∷ [];
      verifications =
          db.verifications
          ++ record {
            id = suc (suc id);
            claim_id = id;
            label = "not_checkable";
            methodology_version = "verification-bootstrap-v1";
            created_at = created_at;
          }
            ∷ [];
      next_id = suc (suc (suc id));
    }

abbrev pub with_claim : Uuid → Result (Database × List Uuid) → Result (Database × List Uuid)
with_claim id (raised e) = raised e
with_claim id (returned (db, ids)) = returned (db, id ∷ ids)

-- The rows of all claims. A claim that breaks the constraint makes the flush raise, and with it the transaction.
unfoldable pub persist_claims :
    ArticleVersionModel
    → Instant
    → List (String × String × ℕ)
    → Database
    → Result (Database × List Uuid)
persist_claims version created_at [] db = returned (db, [])
persist_claims version created_at ((claim_text, claim_sha256, sentence_index) ∷ claims) db =
    elim (find_row (is_claim version.id claim_sha256) db.claims) [
      | some _ ↦ raised integrity_error
      | none ↦ with_claim db.next_id (
          persist_claims version created_at claims
            (insert_claim version created_at (claim_text, claim_sha256, sentence_index) db))
    ]

unfoldable pub new_version :
    Uuid
    → ArticleModel
    → ℕ
    → String
    → ExtractedArticle
    → FetchResult
    → Instant
    → List (String × Json)
    → ArticleVersionModel
new_version id article version_number title extracted fetched completed_at provenance = record {
  id = id;
  article_id = article.id;
  version_number = version_number;
  source_url = fetched.requested_url;
  final_url = fetched.final_url;
  title = title;
  byline = extracted.byline;
  language = extracted.language;
  published_at = extracted.published_at;
  retrieved_at = fetched.retrieved_at;
  content_sha256 = extracted.content_sha256;
  text_content = extracted.text_content;
  extraction_method = extracted.extraction_method;
  extraction_warnings = extracted.warnings;
  metadata = extracted.metadata ++ provenance;
  created_at = completed_at;
}

-- What the run adds to the metadata of a version; `raw_artifact` is to_metadata() of the snapshot.
abbrev pub provenance : ArticleFetchRun → FetchResult → Option Json → List (String × Json)
provenance run fetched raw_artifact =
    ("fetch_run_id", uuid run.id)
    ∷ ("body_sha256", text fetched.body_sha256)
    ∷ ("raw_fetch_artifact", json_option (λ j. j) raw_artifact)
    ∷ ("redirect_chain", texts fetched.redirect_chain)
    ∷ []

abbrev pub is_version : Uuid → String → ArticleVersionModel → Bool
is_version article_id content_sha256 v =
    v.article_id == article_id && str_eq v.content_sha256 content_sha256

pub record VersionChoice : Type 0 where
  pub version_id : Uuid
  pub created : Bool
  pub claim_ids : List Uuid

abbrev pub created_version :
    Uuid → Result (Database × List Uuid) → Result (Database × VersionChoice)
created_version id (raised e) = raised e
created_version id (returned (db, claim_ids)) =
    returned (db, record { version_id = id; created = true; claim_ids = claim_ids })

-- A version with this content is kept; else the next one is inserted, with its claims.
unfoldable pub store_version :
    Analysis
    → ArticleFetchRun
    → ArticleModel
    → ExtractedArticle
    → FetchResult
    → Option Json
    → Instant
    → Database
    → Result (Database × VersionChoice)
store_version analysis run article extracted fetched raw_artifact completed_at db =
    elim (find_row (is_version article.id extracted.content_sha256) db.versions) [
      | some v ↦ returned (db, record { version_id = v.id; created = false; claim_ids = [] })
      | none ↦
          let id = db.next_id in
          let version =
            new_version id article (max_version article.id db.versions + 1)
              (fallback_title extracted.title fetched.final_url) extracted fetched completed_at
              (provenance run fetched raw_artifact) in
          created_version id (
            persist_claims version completed_at (analysis.extract_claims version.text_content)
              (record db { versions = db.versions ++ version ∷ []; next_id = suc id }))
    ]

unfoldable pub succeeded_run : FetchResult → Instant → ArticleFetchRunModel → ArticleFetchRunModel
succeeded_run fetched completed_at run = record run {
  status = ArticleFetchRunStatus.succeeded;
  completed_at = some completed_at;
  http_status = some fetched.status_code;
  response_bytes = fetched.body_length;
  final_url = some fetched.final_url;
  body_sha256 = some fetched.body_sha256;
}

unfoldable pub processed_row : Uuid → Instant → UrlCandidateModel → UrlCandidateModel
processed_row article_id completed_at row = record row {
  state = UrlCandidateState.processed;
  processing_stage = ArticleProcessingStage.completed;
  article_id = some article_id;
  lease_owner = none;
  lease_expires_at = none;
  current_worker = none;
  last_fetch_at = some completed_at;
  last_error = none;
  last_failure_code = none;
  last_failure_message = none;
  processing_completed_at = some completed_at;
  processing_duration_ms =
      duration_since row.processing_started_at completed_at row.processing_duration_ms;
  stage_timestamps =
      set_timestamp ArticleProcessingStage.completed completed_at
        (set_timestamp ArticleProcessingStage.persisted completed_at row.stage_timestamps);
  updated_at = completed_at;
}

-- ===== src/Articles/Success.antt =====
-- complete_success of backend/src/newsintel/infrastructure/db/article_processing_repository.py, put
-- together from its parts, with the integration events that it writes.
use newzyfy.Prelude.{
  suc, String, Bool, true, false, Option, none, some, List, [], ◌∷◌, if◌then◌else◌, length,
}
use newzyfy.Time.{Instant}
use newzyfy.Outbox.{Uuid, Json, IntegrationEvent, json_option, uuid, text, texts, uuids, number}
use newzyfy.Events.Assignment.{EventAssignmentState, provisional, candidate, confirmed}
use newzyfy.Articles.Types.{
  LeasedUrlCandidate, ArticleFetchRun, ArticleProcessingResult, FetchResult, ExtractedArticle,
  lookup_error,
}
use newzyfy.Articles.Rows.{
  ArticleModel, Database, get_candidate, update_candidate, update_fetch_run, emit,
}
use newzyfy.Articles.World.{Result, returned, raised}
use newzyfy.Articles.Persist.{Analysis, EventChoice, ArticleChoice, store_article}
use newzyfy.Articles.Versions.{VersionChoice, store_version, succeeded_run, processed_row}

abbrev state_value : EventAssignmentState → String
state_value provisional = "provisional"
state_value candidate = "candidate"
state_value confirmed = "confirmed"

-- What all the events of one transaction share.
pub record Context : Type 0 where
  pub candidate_id : Uuid
  pub trace_id : Uuid
  pub article : ArticleModel
  pub clock : Instant

abbrev event_of :
    Context → String → String → Uuid → List (String × Json) → List Uuid → Uuid → IntegrationEvent
event_of c event_type aggregate_type aggregate_id payload ids event_id = record {
  event_id = event_id;
  event_type = event_type;
  event_version = 1;
  aggregate_type = aggregate_type;
  aggregate_id = aggregate_id;
  payload = payload;
  occurred_at = c.clock;
  producer = "article-processor";
  correlation_id = some c.trace_id;
  causation_id = none;
  traceparent = none;
  idempotency_key = record { prefix = event_type; ids = ids };
}

-- Each event draws its identifier.
abbrev send : (Uuid → IntegrationEvent) → Database → Database
send event db = emit (event db.next_id) (record db { next_id = suc db.next_id })

-- MATCHING_POLICY_VERSION
abbrev matching_policy_version : String
matching_policy_version = "event-matching-lexical-v1"

abbrev linked_payload : Context → EventChoice → List (String × Json)
linked_payload c choice =
    ("event_id", uuid c.article.event_id)
    ∷ ("article_id", uuid c.article.id)
    ∷ ("candidate_id", uuid c.candidate_id)
    ∷ ("assignment_state", text (state_value choice.state))
    ∷ ("assignment_score", json_option number choice.score)
    ∷ ("policy_version", text matching_policy_version)
    ∷ []

-- "event.provisional_created" for a new event, "event.article_linked" for an old one, and then
-- "article.ingested"; nothing for an article that was stored already. The assignment features of the
-- payloads are not modelled.
unfoldable pub send_article_events : Context → Option EventChoice → Database → Database
send_article_events c none db = db
send_article_events c (some choice) db =
    send
      (event_of c "article.ingested" "article" c.article.id
        (("article_id", uuid c.article.id)
          ∷ ("event_id", uuid c.article.event_id)
          ∷ ("candidate_id", uuid c.candidate_id)
          ∷ ("canonical_url", text c.article.canonical_url)
          ∷ ("assignment_state", text (state_value choice.state))
          ∷ ("assignment_score", json_option number choice.score)
          ∷ [])
        (c.article.id ∷ []))
      (if choice.created
        then send
            (event_of c "event.provisional_created" "event" c.article.event_id
              (("event_id", uuid c.article.event_id)
                ∷ ("article_id", uuid c.article.id)
                ∷ ("candidate_id", uuid c.candidate_id)
                ∷ ("policy_version", text matching_policy_version)
                ∷ [])
              (c.article.event_id ∷ []))
            db
        else send
            (event_of c "event.article_linked" "event" c.article.event_id (linked_payload c choice)
              (c.article.event_id ∷ c.article.id ∷ []))
            db)

-- "article.version_created" and "article.claims_extracted" for a new version.
unfoldable pub send_version_events :
    Context → VersionChoice → ExtractedArticle → Database → Database
send_version_events c version extracted db =
    if version.created
    then send
        (event_of c "article.claims_extracted" "article" c.article.id
          (("article_id", uuid c.article.id)
            ∷ ("version_id", uuid version.version_id)
            ∷ ("claim_count", number (length version.claim_ids))
            ∷ ("claim_ids", uuids version.claim_ids)
            ∷ ("extractor_version", text "deterministic-claim-extractor-v1")
            ∷ ("verification_label", text "not_checkable")
            ∷ [])
          (version.version_id ∷ []))
        (send
          (event_of c "article.version_created" "article" c.article.id
            (("article_id", uuid c.article.id)
              ∷ ("version_id", uuid version.version_id)
              ∷ ("candidate_id", uuid c.candidate_id)
              ∷ ("content_sha256", text extracted.content_sha256)
              ∷ ("extraction_method", text extracted.extraction_method)
              ∷ ("warnings", texts extracted.warnings)
              ∷ [])
            (version.version_id ∷ []))
          db)
    else db

abbrev created_event : Option EventChoice → Bool
created_event none = false
created_event (some choice) = choice.created

abbrev created_article : Option EventChoice → Bool
created_article none = false
created_article (some _) = true

-- The run and the candidate's row at the end of the job.
unfoldable pub finish_job :
    LeasedUrlCandidate → ArticleFetchRun → FetchResult → Uuid → Instant → Database → Database
finish_job leased_candidate run fetched article_id completed_at db =
    update_candidate leased_candidate.id (processed_row article_id completed_at)
      (update_fetch_run run.id (succeeded_run fetched completed_at) db)

-- The end of the transaction, with the article and the version that are stored: the run, the
-- candidate, the events and the result.
unfoldable pub complete_article :
    LeasedUrlCandidate
    → ArticleFetchRun
    → FetchResult
    → ExtractedArticle
    → Instant
    → Instant
    → ArticleChoice
    → VersionChoice
    → Database
    → Database × ArticleProcessingResult
complete_article leased_candidate run fetched extracted completed_at clock stored version db =
    let db' = finish_job leased_candidate run fetched stored.article.id completed_at db in
    let context : Context = record {
      candidate_id = leased_candidate.id;
      trace_id = run.trace_id;
      article = stored.article;
      clock = clock;
    } in
    (
      send_version_events context version extracted (send_article_events context stored.choice db'),
      record {
        candidate_id = leased_candidate.id;
        article_id = stored.article.id;
        event_id = stored.article.event_id;
        version_id = some version.version_id;
        created_article = created_article stored.choice;
        created_event = created_event stored.choice;
        created_version = version.created;
        claim_count = length version.claim_ids;
      },
    )

-- What follows the version, where it could be stored.
abbrev pub and_complete :
    (VersionChoice → Database → Database × ArticleProcessingResult)
    → Result (Database × VersionChoice)
    → Result (Database × ArticleProcessingResult)
and_complete f (raised e) = raised e
and_complete f (returned (db, version)) = returned (f version db)

-- The transaction once the candidate's row is found; `fingerprint` is the row's.
unfoldable pub persist_article :
    Analysis
    → LeasedUrlCandidate
    → ArticleFetchRun
    → FetchResult
    → ExtractedArticle
    → Option Json
    → Instant
    → Instant
    → String
    → Database
    → Result (Database × ArticleProcessingResult)
persist_article analysis leased_candidate run fetched extracted raw_artifact completed_at clock
      fingerprint db =
    let (db1, stored) =
      store_article analysis leased_candidate fingerprint extracted fetched completed_at db in
    and_complete (complete_article leased_candidate run fetched extracted completed_at clock stored)
      (store_version analysis run stored.article extracted fetched raw_artifact completed_at db1)

-- A transaction that raises changes nothing: the LookupError is for a candidate whose row is gone, and the
-- IntegrityError for a claim that stands twice.
unfoldable pub complete_success :
    Analysis
    → LeasedUrlCandidate
    → ArticleFetchRun
    → FetchResult
    → ExtractedArticle
    → Option Json
    → Instant
    → Instant
    → Database
    → Result (Database × ArticleProcessingResult)
complete_success analysis leased_candidate run fetched extracted raw_artifact completed_at clock
      db =
    elim (get_candidate leased_candidate.id db) [
      | none ↦ raised lookup_error
      | some row ↦
          persist_article analysis leased_candidate run fetched extracted raw_artifact completed_at
            clock row.url_fingerprint db
    ]

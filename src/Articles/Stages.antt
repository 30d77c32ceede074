-- ===== src/Articles/Stages.antt =====
-- The operations of backend/src/newsintel/infrastructure/db/article_processing_repository.py on the
-- row of one candidate: the start of a fetch, stage updates, rejection and failure. Each is one
-- transaction.
use newzyfy.Prelude.{
  ℕ, suc, String, Bool, Option, none, some, List, [], ◌∷◌, ◌++◌, if◌then◌else◌, or_else,
}
use newzyfy.Time.{Instant, duration_ms}
use newzyfy.Text.{clip, concat}
use newzyfy.Outbox.{Uuid, Json, IntegrationEvent, json_option, flag, number, text, uuid, instant}
use newzyfy.Articles.Types.{
  UrlCandidateState, retry, failed, rejected, ArticleProcessingStage, ArticleFetchRunStatus,
  LeasedUrlCandidate, ArticleFetchRun,
}
use newzyfy.Articles.Rows.{
  UrlCandidateModel, ArticleFetchRunModel, Database, set_timestamp, get_candidate, update_candidate,
  update_fetch_run, emit,
}

abbrev new_fetch_run : Uuid → Uuid → String → Uuid → Instant → ArticleFetchRunModel
new_fetch_run id candidate_id worker_id trace_id started_at = record {
  id = id;
  candidate_id = candidate_id;
  worker_id = worker_id;
  trace_id = trace_id;
  status = ArticleFetchRunStatus.running;
  started_at = started_at;
  completed_at = none;
  http_status = none;
  response_bytes = 0;
  final_url = none;
  body_sha256 = none;
  error_type = none;
  error_message = none;
}

unfoldable pub fetching_row : String → Instant → UrlCandidateModel → UrlCandidateModel
fetching_row worker_id started_at row = record row {
  processing_stage = ArticleProcessingStage.fetching;
  current_worker = some worker_id;
  processing_started_at = some started_at;
  stage_timestamps = set_timestamp ArticleProcessingStage.fetching started_at row.stage_timestamps;
  updated_at = started_at;
}

unfoldable pub start_fetch : Uuid → String → Uuid → Instant → Database → Database × ArticleFetchRun
start_fetch candidate_id worker_id trace_id started_at db =
    let run = new_fetch_run db.next_id candidate_id worker_id trace_id started_at in
    (
      update_candidate candidate_id (fetching_row worker_id started_at)
          (record db { fetch_runs = db.fetch_runs ++ run ∷ []; next_id = suc db.next_id }),
      record {
        id = db.next_id;
        candidate_id = candidate_id;
        worker_id = worker_id;
        trace_id = trace_id;
        started_at = started_at;
      },
    )

-- The pipeline passes a stage, an instant, its worker and perhaps a content type; the other optional
-- arguments of update_processing_stage are never given.
unfoldable pub stage_row :
    ArticleProcessingStage
    → Instant
    → String
    → Option String
    → UrlCandidateModel
    → UrlCandidateModel
stage_row stage occurred_at worker_id content_type row = record row {
  processing_stage = stage;
  current_worker = some worker_id;
  content_type = elim content_type [ none ↦ row.content_type | some t ↦ some (clip 160 t) ];
  stage_timestamps = set_timestamp stage occurred_at row.stage_timestamps;
  updated_at = occurred_at;
}

-- `none` is the LookupError for a row that is not there.
unfoldable pub update_processing_stage :
    Uuid → ArticleProcessingStage → Instant → String → Option String → Database → Option Database
update_processing_stage id stage occurred_at worker_id content_type db =
    elim (get_candidate id db) [
      | none ↦ none
      | some _ ↦ some (update_candidate id (stage_row stage occurred_at worker_id content_type) db)
    ]

abbrev pub duration_since : Option Instant → Instant → Option ℕ → Option ℕ
duration_since none completed_at old = old
duration_since (some started_at) completed_at old = some (duration_ms started_at completed_at)

unfoldable pub rejected_row : Instant → String → String → UrlCandidateModel → UrlCandidateModel
rejected_row rejected_at reason message row = record row {
  state = rejected;
  processing_stage = ArticleProcessingStage.rejected;
  lease_owner = none;
  lease_expires_at = none;
  current_worker = none;
  last_fetch_at = some rejected_at;
  last_error = some (concat reason (concat ": " message));
  last_failure_code = some (clip 160 reason);
  last_failure_message = some (clip 2000 message);
  processing_completed_at = some rejected_at;
  processing_duration_ms =
      duration_since row.processing_started_at rejected_at row.processing_duration_ms;
  stage_timestamps = set_timestamp ArticleProcessingStage.rejected rejected_at row.stage_timestamps;
  updated_at = rejected_at;
}

abbrev candidate_event :
    Uuid → String → Uuid → List (String × Json) → Instant → Uuid → Uuid → IntegrationEvent
candidate_event event_id event_type candidate_id payload occurred_at trace_id run_id = record {
  event_id = event_id;
  event_type = event_type;
  event_version = 1;
  aggregate_type = "url_candidate";
  aggregate_id = candidate_id;
  payload = payload;
  occurred_at = occurred_at;
  producer = "article-processor";
  correlation_id = some trace_id;
  causation_id = none;
  traceparent = none;
  idempotency_key = record { prefix = event_type; ids = run_id ∷ [] };
}

unfoldable pub reject_before_fetch :
    LeasedUrlCandidate → String → Uuid → Instant → String → String → Instant → Database → Database
reject_before_fetch candidate worker_id trace_id rejected_at reason message clock db =
    let run_id = db.next_id in
    let run = record (new_fetch_run run_id candidate.id worker_id trace_id rejected_at) {
      status = ArticleFetchRunStatus.rejected;
      completed_at = some rejected_at;
      error_type = some reason;
      error_message = some message;
    } in
    let payload =
      ("candidate_id", uuid candidate.id)
      ∷ ("fetch_run_id", uuid run_id)
      ∷ ("attempt_count", number candidate.attempt_count)
      ∷ ("reason", text reason)
      ∷ ("message", text message)
      ∷ ("url", text candidate.normalized_url)
      ∷ ("published_at", json_option instant candidate.published_at)
      ∷ ("first_discovered_at", json_option instant candidate.first_discovered_at)
      ∷ [] in
    emit
      (candidate_event (suc run_id) "article.fetch.rejected" candidate.id payload clock trace_id
        run_id)
      (update_candidate candidate.id (rejected_row rejected_at reason message)
        (record db { fetch_runs = db.fetch_runs ++ run ∷ []; next_id = suc (suc run_id) }))

abbrev failure_state : Bool → UrlCandidateState
failure_state terminal = if terminal then failed else retry

abbrev failure_stage : Bool → ArticleProcessingStage
failure_stage terminal =
    if terminal
    then ArticleProcessingStage.permanent_failure
    else ArticleProcessingStage.retryable_failure

unfoldable pub failed_row :
    Instant → String → String → Option Instant → Bool → UrlCandidateModel → UrlCandidateModel
failed_row completed_at error_type error_message retry_at terminal row = record row {
  state = failure_state terminal;
  processing_stage = failure_stage terminal;
  next_fetch_at = or_else retry_at completed_at;
  lease_owner = none;
  lease_expires_at = none;
  current_worker = none;
  last_fetch_at = some completed_at;
  last_error = some (concat error_type (concat ": " error_message));
  last_failure_code = some (clip 160 error_type);
  last_failure_message = some (clip 2000 error_message);
  processing_completed_at = if terminal then some completed_at else row.processing_completed_at;
  processing_duration_ms =
      duration_since row.processing_started_at completed_at row.processing_duration_ms;
  stage_timestamps = set_timestamp (failure_stage terminal) completed_at row.stage_timestamps;
  updated_at = completed_at;
}

unfoldable pub failed_run : Instant → String → String → ArticleFetchRunModel → ArticleFetchRunModel
failed_run completed_at error_type error_message run = record run {
  status = ArticleFetchRunStatus.failed;
  completed_at = some completed_at;
  error_type = some error_type;
  error_message = some error_message;
}

unfoldable pub complete_failure :
    LeasedUrlCandidate
    → ArticleFetchRun
    → Instant
    → String
    → String
    → Option Instant
    → Bool
    → Instant
    → Database
    → Database
complete_failure candidate run completed_at error_type error_message retry_at terminal clock db =
    let payload =
      ("candidate_id", uuid candidate.id)
      ∷ ("fetch_run_id", uuid run.id)
      ∷ ("attempt_count", number candidate.attempt_count)
      ∷ ("terminal", flag terminal)
      ∷ ("retry_at", json_option instant retry_at)
      ∷ ("error_type", text error_type)
      ∷ [] in
    emit
      (candidate_event db.next_id "article.fetch.failed" candidate.id payload clock run.trace_id
        run.id)
      (update_candidate candidate.id
        (failed_row completed_at error_type error_message retry_at terminal)
        (update_fetch_run run.id (failed_run completed_at error_type error_message)
          (record db { next_id = suc db.next_id })))

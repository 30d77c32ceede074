-- ===== src/Articles/Process.antt =====
-- ArticleProcessor.process and _record_failure of
-- backend/src/newsintel/application/articles/processing.py. What a job wrote before it raised stays.
use newzyfy.Prelude.{
  String, Bool, false, ◌||◌, Option, none, some, [], ◌∷◌, ltb, leb, if◌then◌else◌, keep,
}
use newzyfy.Time.{Instant, aware}
use newzyfy.Text.{clip, concat, is_empty}
use newzyfy.Backoff.{retry_at_for_attempt}
use newzyfy.Outbox.{Json}
use newzyfy.Filter.{ArticleUrlDecision, reason_value, should_admit_article_url}
use newzyfy.Articles.Types.{
  ArticleProcessingStage, ErrorClass, article_processing, insufficient_content, job_rejected,
  access_blocked, extraction_quality, not_found, lookup_error, Error, type_name, is_non_retryable,
  is_non_retryable_http_status, is_permanent_http_status, is_fatal_extraction_warning, other,
  LeasedUrlCandidate, ArticleFetchRun, ArticleProcessingResult, FetchResult, ExtractedArticle,
}
use newzyfy.Articles.Rows.{Database}
use newzyfy.Articles.Stages.{
  start_fetch, update_processing_stage, reject_before_fetch, complete_failure,
}
use newzyfy.Articles.Success.{complete_success}
use newzyfy.Articles.World.{
  Result, returned, raised, Action, pure, throw, lift, ◌>>=◌, ◌>>◌, Call, start, reject, fetching,
  fetched, extracting, extracted, validated, persisting, success, failure, World, Settings,
}

-- What a transaction that raises leaves is what was there before.
abbrev pub end_transaction : {A : Type 0} → Database → Result (Database × A) → Result A × Database
end_transaction db (raised e) = (raised e, db)
end_transaction db (returned (db', a)) = (returned a, db')

module _ (world : World) where
  -- A transaction that fails is rolled back.
  unfoldable pub transaction : {A : Type 0} → Call → Action A → Action A
  transaction call body = elim (world.database_error call) [ none ↦ body | some e ↦ throw e ]

  unfoldable pub update_stage :
      Call
      → ArticleProcessingStage
      → Instant
      → LeasedUrlCandidate
      → String
      → Option String
      → Action (Unit {0})
  update_stage call stage occurred_at candidate worker_id content_type = transaction call λ db.
      elim (update_processing_stage candidate.id stage occurred_at worker_id content_type db) [
        | none ↦ (raised lookup_error, db)
        | some db' ↦ (returned tt, db')
      ]

  -- The transaction of start_fetch.
  unfoldable pub begin_fetch : LeasedUrlCandidate → String → Action ArticleFetchRun
  begin_fetch candidate worker_id db =
      let (db', run) = start_fetch candidate.id worker_id world.trace_id (world.clock start) db in
      (returned run, db')

  -- The transaction of reject_before_fetch, with its reason.
  unfoldable pub record_rejection : LeasedUrlCandidate → String → String → Action (Unit {0})
  record_rejection candidate worker_id reason db = (
    returned tt,
    reject_before_fetch candidate worker_id world.trace_id (world.clock start) reason
        (concat "queued URL rejected before HTTP fetch: " reason) (world.clock reject) db,
  )

  -- The status test after a fetch.
  unfoldable pub check_status : FetchResult → Result (Unit {0})
  check_status page =
      if ltb page.status_code 200 || leb 300 page.status_code
      then (if is_non_retryable_http_status page.status_code
          then raised (record {
            class = access_blocked;
            message = world.describe_status "article access blocked HTTP " page.status_code;
          })
          else if is_permanent_http_status page.status_code
          then raised (record {
            class = not_found;
            message = world.describe_status "article returned permanent HTTP " page.status_code;
          })
          else raised (record {
            class = article_processing;
            message = world.describe_status "article returned HTTP " page.status_code;
          }))
      else returned tt

  -- _raise_for_unacceptable_extraction
  unfoldable pub raise_for_unacceptable_extraction : ExtractedArticle → Result (Unit {0})
  raise_for_unacceptable_extraction article =
      elim (keep is_fatal_extraction_warning article.warnings) [
        | [] ↦ returned tt
        | w ∷ ws ↦ raised (record {
          class = extraction_quality;
          message = world.describe_rejection article (w ∷ ws);
        })
      ]

  abbrev check_text : ExtractedArticle → Result (Unit {0})
  check_text article =
      if is_empty article.text_content
      then raised
          (record { class = insufficient_content; message = "article text could not be extracted" })
      else returned tt

  abbrev save_snapshot : LeasedUrlCandidate → FetchResult → Result (Option Json)
  save_snapshot candidate page = elim world.save_raw_html [
    | none ↦ returned none
    | some save ↦ elim (save candidate.id page) [
      | returned artifact ↦ returned (some artifact)
      | raised e ↦ raised e
    ]
  ]

  -- The first `try` block of process: fetch, check, snapshot, extract, validate.
  unfoldable pub fetch_and_extract :
      LeasedUrlCandidate → String → Action (FetchResult × Option Json × ExtractedArticle)
  fetch_and_extract candidate worker_id = do
    update_stage fetching ArticleProcessingStage.fetching (world.clock fetching) candidate worker_id
        none
    page ← lift (world.fetch candidate.normalized_url)
    update_stage fetched ArticleProcessingStage.fetched page.retrieved_at candidate worker_id
        page.content_type
    lift (check_status page)
    raw_artifact ← lift (save_snapshot candidate page)
    update_stage extracting ArticleProcessingStage.extracting (world.clock extracting) candidate
        worker_id none
    article ← lift (world.extract page.body page.final_url)
    lift (check_text article)
    lift (raise_for_unacceptable_extraction article)
    update_stage extracted ArticleProcessingStage.extracted (world.clock extracted) candidate
        worker_id none
    update_stage validated ArticleProcessingStage.validated (world.clock validated) candidate
        worker_id none
    pure (page, raw_artifact, article)

  unfoldable pub persist :
      LeasedUrlCandidate
      → ArticleFetchRun
      → FetchResult
      → ExtractedArticle
      → Option Json
      → Action ArticleProcessingResult
  persist candidate run page article raw_artifact db = end_transaction db (
      complete_success world.analysis candidate run page article raw_artifact (world.clock success)
        (world.clock success) db)

  -- The second `try` block of process.
  unfoldable pub persist_extracted :
      LeasedUrlCandidate
      → String
      → ArticleFetchRun
      → FetchResult
      → ExtractedArticle
      → Option Json
      → Action ArticleProcessingResult
  persist_extracted candidate worker_id run page article raw_artifact = do
    update_stage persisting ArticleProcessingStage.persisting (world.clock persisting) candidate
        worker_id none
    transaction success (persist candidate run page article raw_artifact)

  module _ (settings : Settings) where
    unfoldable pub is_terminal : LeasedUrlCandidate → ErrorClass → Bool
    is_terminal candidate class =
        leb settings.max_attempts candidate.attempt_count || is_non_retryable class

    -- The ValueError of retry_at_for_attempt is for a candidate that was never attempted.
    abbrev value_error : Error
    value_error = record { class = other "ValueError"; message = "attempt_count must be positive" }

    unfoldable pub next_retry : LeasedUrlCandidate → ErrorClass → Result (Option Instant)
    unfolding is_terminal
    next_retry candidate class =
        if is_terminal candidate class
        then returned none
        else elim (retry_at_for_attempt world.uniform candidate.attempt_count
            settings.retry_base_seconds settings.retry_max_seconds settings.retry_jitter_permille
            (some (world.clock failure)) (world.clock failure)) [
              | none ↦ raised value_error
              | some t ↦ returned (some t)
            ]

    -- _record_failure
    unfoldable pub record_failure : LeasedUrlCandidate → ArticleFetchRun → Error → Action (Unit {0})
    record_failure candidate run e = do
      retry_at ← lift (next_retry candidate e.class)
      transaction failure λ db. (
        returned tt,
        complete_failure candidate run (world.clock failure) (type_name e.class)
            (clip 2000 e.message) retry_at (is_terminal candidate e.class) (world.clock failure) db,
      )

    -- `except Exception as exc: await self._record_failure(candidate, run, exc); raise`
    unfoldable pub after_try :
        {A : Type 0} → LeasedUrlCandidate → ArticleFetchRun → Result A → Action A
    after_try candidate run (returned a) = pure a
    after_try candidate run (raised e) = record_failure candidate run e >> throw e

    unfoldable pub or_record_failure :
        {A : Type 0} → LeasedUrlCandidate → ArticleFetchRun → Action A → Action A
    or_record_failure candidate run body db =
        let (result, db') = body db in after_try candidate run result db'

    abbrev pub rejection_reason : ArticleUrlDecision → String
    rejection_reason decision = elim decision.reason [
      | none ↦ "prefetch_rejected"
      | some r ↦ reason_value r
    ]

    unfoldable pub reject_job :
        LeasedUrlCandidate → String → String → Action ArticleProcessingResult
    reject_job candidate worker_id reason = do
      transaction reject (record_rejection candidate worker_id reason)
      throw (record {
        class = job_rejected;
        message = concat "queued URL rejected before HTTP fetch: " reason;
      })

    abbrev pub admission : LeasedUrlCandidate → ArticleUrlDecision
    admission candidate =
        should_admit_article_url world.url_tests candidate.normalized_url
          (elim candidate.published_at [ none ↦ none | some t ↦ some (aware t) ])
          (aware (world.clock start)) settings.recent_article_window_hours false

    unfoldable pub fetch_job : LeasedUrlCandidate → String → Action ArticleProcessingResult
    fetch_job candidate worker_id = do
      run ← transaction start (begin_fetch candidate worker_id)
      (page, raw_artifact, article) ←
          or_record_failure candidate run (fetch_and_extract candidate worker_id)
      or_record_failure candidate run
          (persist_extracted candidate worker_id run page article raw_artifact)

    unfoldable pub process : LeasedUrlCandidate → String → Action ArticleProcessingResult
    process candidate worker_id =
        if (admission candidate).accepted
        then fetch_job candidate worker_id
        else reject_job candidate worker_id (rejection_reason (admission candidate))

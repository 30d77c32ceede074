-- ===== src/Articles/Outcome.antt =====
-- How a job of ArticleProcessor.process ends, whatever the outside world does.
use newzyfy.Prelude.{◌≡◌, ◌≤◌, refl, ◌∙◌, String, true, false, Option, none, some, inl, inr}
use newzyfy.Text.{concat}
use newzyfy.Outbox.{Json}
use newzyfy.Articles.Types.{
  ArticleProcessingStage, rejected, job_rejected, Error, LeasedUrlCandidate, ArticleFetchRun,
  FetchResult, ExtractedArticle, ArticleProcessingResult,
}
use newzyfy.Articles.Rows.{UrlCandidateModel, Database, get_candidate}
use newzyfy.Articles.Stages.{rejected_row, reject_before_fetch, start_fetch, fetching_row}
use newzyfy.Articles.Versions.{processed_row}
use newzyfy.Articles.World.{
  Result, returned, raised, Returns, pure, throw, continue_with, ◌>>=◌, ◌>>◌, start, reject,
  persisting, success, failure, World, Settings,
}
use newzyfy.Articles.Process.{
  transaction, end_transaction, fetch_and_extract, persist, persist_extracted, after_try,
  or_record_failure, reject_job, fetch_job, process, admission, begin_fetch, record_rejection,
  rejection_reason,
}
use newzyfy.Articles.Keeps.{
  get_candidate-update_candidate, IsStored, transaction_cases, fetch_and_extract-Keeps, Keeps-stage,
}
use newzyfy.Articles.Persisted.{get_candidate-complete_success}
use newzyfy.Articles.Settled.{IsReleased, IsSettled, after_failure-IsSettled}

module _ (world : World) (settings : Settings) (c : LeasedUrlCandidate) where
  -- After the first part of a job: the row is still there, or the job has ended.
  abbrev StoredOrSettled : {A : Type 0} → Result A → Database → Type 0
  StoredOrSettled (returned a) db = IsStored c.id db
  StoredOrSettled (raised e) db = IsSettled world settings c (raised e) db

  -- After an attempt to persist: the row is processed, or still there.
  abbrev ProcessedOrStored : Result ArticleProcessingResult → Database → Type 0
  ProcessedOrStored (returned result) db = IsSettled world settings c (returned result) db
  ProcessedOrStored (raised e) db = IsStored c.id db

  -- The end of the transaction, by what complete_success gives.
  persisted :
      (r : Result (Database × ArticleProcessingResult)) (db : Database)
      → IsStored c.id db
      → (row : UrlCandidateModel)
      → Returns
          (λ out.
            get_candidate c.id out.0
            ≡ some (processed_row out.1.article_id (world.clock success) row))
          r
      → let (r', db') = end_transaction db r in ProcessedOrStored r' db'
  unfolding processed_row
  persisted (raised e) db s row h = s
  persisted (returned (db', result)) db s row after = (
    processed_row result.article_id (world.clock success) row,
    after,
    record { owner = refl; expiry = refl; worker = refl },
    (refl, refl),
  )

  persist-ProcessedOrStored :
      (run : ArticleFetchRun) (page : FetchResult) (article : ExtractedArticle) (raw : Option Json)
      (db : Database)
      → IsStored c.id db
      → let (r, db') = transaction world success (persist world c run page article raw) db in
        ProcessedOrStored r db'
  unfolding persist processed_row
  persist-ProcessedOrStored run page article raw db (row, stored) =
      elim (transaction_cases world success (persist world c run page article raw) db) [
        | inr (e, _, same) ↦ rw same (row, stored)
        | inl same ↦
            rw (same, persist)
              (persisted _ db (row, stored) row
                (get_candidate-complete_success world.analysis c run page article raw
                  (world.clock success) (world.clock success) db row stored))
      ]

  persist_after_stage :
      (run : ArticleFetchRun) (page : FetchResult) (article : ExtractedArticle) (raw : Option Json)
      (staged : Result (Unit {0})) (db : Database)
      → IsStored c.id db
      → let (r, db') =
          continue_with staged
            (λ _. transaction world success (persist world c run page article raw))
            db in
        ProcessedOrStored r db'
  unfolding throw
  persist_after_stage run page article raw (returned _) db s =
      persist-ProcessedOrStored run page article raw db s
  persist_after_stage run page article raw (raised e) db s = s

  persist_extracted-ProcessedOrStored :
      (worker_id : String) (run : ArticleFetchRun) (page : FetchResult) (article : ExtractedArticle)
      (raw : Option Json) (db : Database)
      → IsStored c.id db
      → let (r, db') = persist_extracted world c worker_id run page article raw db in
        ProcessedOrStored r db'
  unfolding persist_extracted ◌>>◌
  persist_extracted-ProcessedOrStored worker_id run page article raw db s =
      persist_after_stage run page article raw _ _ (
        (Keeps-stage world c persisting ArticleProcessingStage.persisting (world.clock persisting)
            worker_id none).run
          db s)

  module _ (no_failure : world.database_error failure ≡ none)
      (attempted : 1 ≤ c.attempt_count) where
    -- What a failed first part leaves, once its failure is recorded.
    after_try-StoredOrSettled :
        {A : Type 0} (run : ArticleFetchRun) (r : Result A) (db : Database)
        → IsStored c.id db
        → let (r', db') = after_try world settings c run r db in StoredOrSettled r' db'
    after_try-StoredOrSettled {A} run (returned a) db s = unfold after_try pure in s
    after_try-StoredOrSettled {A} run (raised e) db s =
        let (same, settled) =
          after_failure-IsSettled world settings c no_failure attempted {A = A} run e db s in
        rw same settled

    -- What a failed second part leaves, once its failure is recorded.
    after_try-IsSettled :
        (run : ArticleFetchRun) (r : Result ArticleProcessingResult) (db : Database)
        → ProcessedOrStored r db
        → let (r', db') = after_try world settings c run r db in IsSettled world settings c r' db'
    after_try-IsSettled run (returned a) db s = unfold after_try pure in s
    after_try-IsSettled run (raised e) db s =
        let (same, settled) =
          after_failure-IsSettled world settings c no_failure attempted
            {A = ArticleProcessingResult} run e db s in
        rw same settled

    persist_step :
        (worker_id : String) (run : ArticleFetchRun)
        (r : Result (FetchResult × Option Json × ExtractedArticle)) (db : Database)
        → StoredOrSettled r db
        → let (r', db') =
            continue_with r
              (λ (page, raw, article).
                or_record_failure world settings c run
                  (persist_extracted world c worker_id run page article raw))
              db in
          IsSettled world settings c r' db'
    unfolding or_record_failure throw
    persist_step worker_id run (raised e) db s = s
    persist_step worker_id run (returned (page, raw, article)) db s =
        after_try-IsSettled run _ _
          (persist_extracted-ProcessedOrStored worker_id run page article raw db s)

    fetch_step :
        (worker_id : String) (run : Result ArticleFetchRun) (db : Database)
        → (r : ArticleFetchRun) × (run ≡ returned r)
        → IsStored c.id db
        → let (r', db') =
            continue_with run
              (λ run'.
                or_record_failure world settings c run' (fetch_and_extract world c worker_id)
                >>= λ (page, raw, article).
                    or_record_failure world settings c run'
                      (persist_extracted world c worker_id run' page article raw))
              db in
          IsSettled world settings c r' db'
    unfolding ◌>>=◌
    fetch_step worker_id (raised e) db (r, same) s = cc
    fetch_step worker_id (returned run) db _ s = persist_step worker_id run _ _ (
        unfold or_record_failure in
        after_try-StoredOrSettled run _ _ ((fetch_and_extract-Keeps world c worker_id).run db s))

    begin_fetch-IsStored :
        (worker_id : String) (db : Database)
        → IsStored c.id db
        → IsStored c.id (begin_fetch world c worker_id db).1
    unfolding begin_fetch start_fetch fetching_row
    begin_fetch-IsStored worker_id db (row, stored) = (
      fetching_row worker_id (world.clock start) row,
      get_candidate-update_candidate c.id (fetching_row worker_id (world.clock start)) db
            (λ _. refl)
          ∙ rw stored refl,
    )

    -- Where the candidate was leased, so that an attempt is counted, its row is stored, its URL is
    -- admitted, and the database records the start and
    -- the failure of a run, the job leaves the row released, and the row says how it ended: processed,
    -- with the article of the result; or, after an exception, failed exactly when no attempt is left or
    -- the exception is not to be retried, and else to be retried at the time computed for it.
    pub process_settles :
        (worker_id : String) (db : Database) (row : UrlCandidateModel)
        → world.database_error start ≡ none
        → (admission world settings c).accepted ≡ true
        → get_candidate c.id db ≡ some row
        → let (r, db') = process world settings c worker_id db in IsSettled world settings c r db'
    unfolding process fetch_job ◌>>=◌ transaction
    process_settles worker_id db row no_error accepted stored =
        rw (accepted, no_error, transaction)
          (fetch_step worker_id (begin_fetch world c worker_id db).0
            (begin_fetch world c worker_id db).1 (unfold begin_fetch in (_, refl))
            (begin_fetch-IsStored worker_id db (row, stored)))

  -- Where the candidate's row is stored, its URL is not admitted, and the database records the
  -- rejection, the job raises ArticleJobRejectedError, and the row is released and rejected.
  pub process_rejects :
      (worker_id : String) (db : Database) (row : UrlCandidateModel)
      → world.database_error reject ≡ none
      → (admission world settings c).accepted ≡ false
      → get_candidate c.id db ≡ some row
      → let (r, db') = process world settings c worker_id db in
        ((e : Error) × (r ≡ raised e) × (e.class ≡ job_rejected))
        × ((row' : UrlCandidateModel) × (get_candidate c.id db' ≡ some row')
            × IsReleased row'
            × (row'.state ≡ rejected))
  unfolding process reject_job record_rejection reject_before_fetch rejected_row ◌>>◌ throw
      transaction
  process_rejects worker_id db row no_error rejection stored =
      let reason = rejection_reason world settings (admission world settings c) in
      let new : UrlCandidateModel → UrlCandidateModel =
        rejected_row (world.clock start) reason
          (concat "queued URL rejected before HTTP fetch: " reason) in
      rw (rejection, no_error, transaction)
        (
          (_, refl, refl),
          (
            new row,
            get_candidate-update_candidate c.id new db (λ _. refl) ∙ rw stored refl,
            record { owner = refl; expiry = refl; worker = refl },
            refl,
          ),
        )

-- ===== src/Articles/Settled.antt =====
-- What it means that a job of ArticleProcessor.process has settled its row, and that _record_failure
-- settles it.
use newzyfy.Prelude.{
  ◌≡◌, ◌≤◌, ◌<◌, ◌⊎◌, arith, Bool-cases, refl, ◌∙◌, Bool, true, false, Option, none, some, inl, inr,
}
use newzyfy.Time.{Instant}
use newzyfy.Backoff.{retry_at_for_attempt}
use newzyfy.Backoff.Bounds.{retry_at_for_attempt_lem}
use newzyfy.Text.{clip}
use newzyfy.Articles.Types.{
  processed, failed, retry, Error, ErrorClass, type_name, is_non_retryable, LeasedUrlCandidate,
  ArticleFetchRun, ArticleProcessingResult,
}
use newzyfy.Articles.Rows.{UrlCandidateModel, Database, get_candidate}
use newzyfy.Articles.Stages.{failed_row, complete_failure}
use newzyfy.Articles.World.{
  Result, returned, raised, Action, throw, lift, ◌>>=◌, ◌>>◌, failure, World, Settings,
}
use newzyfy.Articles.Process.{transaction, is_terminal, next_retry, record_failure, after_try}
use newzyfy.Articles.Keeps.{get_candidate-update_candidate, IsStored}

-- Nobody holds the row.
pub record IsReleased (row : UrlCandidateModel) : Type 0 where
  pub owner : row.lease_owner ≡ none
  pub expiry : row.lease_expires_at ≡ none
  pub worker : row.current_worker ≡ none

module _ (world : World) (settings : Settings) (c : LeasedUrlCandidate) where
  -- The time that retry_at_for_attempt computes for the next attempt.
  abbrev retry_at : Option Instant
  retry_at =
      retry_at_for_attempt world.uniform c.attempt_count settings.retry_base_seconds
        settings.retry_max_seconds settings.retry_jitter_permille (some (world.clock failure))
        (world.clock failure)

  -- What the row says of a result: processed with its article; or, for an exception, failed for good
  -- exactly when no attempt is left or the exception is not to be retried, and else waiting for the
  -- next attempt, at its time.
  abbrev Reflects : Result ArticleProcessingResult → UrlCandidateModel → Type 0
  Reflects (returned result) row =
      (row.state ≡ processed) × (row.article_id ≡ some result.article_id)
  Reflects (raised e) row =
      ((settings.max_attempts ≤ c.attempt_count) ⊎ (is_non_retryable e.class ≡ true))
        × (row.state ≡ failed)
      ⊎ (c.attempt_count < settings.max_attempts)
        × (is_non_retryable e.class ≡ false)
        × (row.state ≡ retry)
        × (retry_at ≡ some row.next_fetch_at)

  -- The row is released, and says how the job ended.
  abbrev pub IsSettled : Result ArticleProcessingResult → Database → Type 0
  IsSettled r db =
      (row : UrlCandidateModel) × (get_candidate c.id db ≡ some row)
      × IsReleased row
      × Reflects r row

  module _ (no_failure : world.database_error failure ≡ none)
      (attempted : 1 ≤ c.attempt_count) where
    -- A failure is for good, or has a next attempt.
    next_retry_cases :
        (class : ErrorClass)
        → (is_terminal world settings c class ≡ true)
            × (next_retry world settings c class ≡ returned none)
            × ((settings.max_attempts ≤ c.attempt_count) ⊎ (is_non_retryable class ≡ true))
          ⊎ (t : Instant) × (is_terminal world settings c class ≡ false)
            × (next_retry world settings c class ≡ returned (some t))
            × (c.attempt_count < settings.max_attempts)
            × (is_non_retryable class ≡ false)
            × (retry_at ≡ some t)
    unfolding is_terminal next_retry
    next_retry_cases class =
        let (t, retried) : (t : Instant) × (retry_at ≡ some t) =
          retry_at_for_attempt_lem world.uniform c.attempt_count settings.retry_base_seconds
            settings.retry_max_seconds settings.retry_jitter_permille (some (world.clock failure))
            (world.clock failure) attempted in
        elim (Bool-cases (is_terminal world settings c class)) [
          | inl e ↦ inl (e, rw (e, next_retry) refl, ground arith)
          | inr e ↦
              inr (t, e, rw (e, retried, next_retry) refl, ground arith, ground arith, retried)
        ]

    -- The transaction that records a failure.
    record_failure_lem :
        (run : ArticleFetchRun) (e : Error) (retried : Option Instant) (terminal : Bool)
        (db : Database)
        → next_retry world settings c e.class ≡ returned retried
        → is_terminal world settings c e.class ≡ terminal
        → record_failure world settings c run e db ≡ (
          returned tt,
          complete_failure c run
              (world.clock failure)
              (type_name e.class)
              (clip 2000 e.message)
              retried
              terminal
              (world.clock failure)
              db,
        )
    unfolding record_failure ◌>>=◌ lift transaction
    record_failure_lem run e retried terminal db next same =
        let body : Action (Unit {0}) = λ db'. (
          returned tt,
          complete_failure c run (world.clock failure) (type_name e.class) (clip 2000 e.message)
              retried (is_terminal world settings c e.class) (world.clock failure) db',
        ) in
        let done : transaction world failure body db ≡ body db =
          rw (no_failure, transaction) refl in
        rw next (done ∙ rw same refl)

    -- Recording a failure settles the row, and the exception goes on.
    pub after_failure-IsSettled :
        {A : Type 0} (run : ArticleFetchRun) (e : Error) (db : Database)
        → IsStored c.id db
        → let (r, db') = after_try world settings {A = A} c run (raised e) db in
          (r ≡ raised e) × IsSettled (raised e) db'
    unfolding after_try complete_failure failed_row ◌>>=◌ ◌>>◌ throw
    after_failure-IsSettled {A} run e db (row, stored) = elim (next_retry_cases e.class) [
      | inl (terminal, next, ended) ↦
          rw (record_failure_lem run e none true db next terminal)
            (refl, settled none true (inl (ended, refl)))
      | inr (t, terminal, next, left, retryable, time) ↦
          rw (record_failure_lem run e (some t) false db next terminal)
            (refl, settled (some t) false (inr (left, retryable, refl, time)))
    ]
      where
        new : Option Instant → Bool → UrlCandidateModel → UrlCandidateModel
        new retried terminal =
            failed_row (world.clock failure) (type_name e.class) (clip 2000 e.message) retried
              terminal

        settled :
            (retried : Option Instant) (terminal : Bool)
            → Reflects (raised e) (new retried terminal row)
            → IsSettled (raised e) (
                complete_failure c run
                  (world.clock failure)
                  (type_name e.class)
                  (clip 2000 e.message)
                  retried
                  terminal
                  (world.clock failure)
                  db)
        settled retried terminal reflects = (
          new retried terminal row,
          get_candidate-update_candidate c.id (new retried terminal) db (λ _. refl)
              ∙ rw stored refl,
          record { owner = refl; expiry = refl; worker = refl },
          reflects,
        )

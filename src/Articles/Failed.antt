-- ===== src/Articles/Failed.antt =====
-- What complete_failure of backend/src/newsintel/infrastructure/db/article_processing_repository.py
-- leaves in the table of candidates, and when the candidate is leased again.
use newzyfy.Prelude.{
  ◌≡◌, refl, ◌∙◌, String, Bool, true, false, not, ◌&&◌, Option, some, List, [], ◌∷◌, keep, leb,
  or_else, if◌then◌else◌, ◌==◌, update_where, Bool-cases, inl, inr, arith,
}
use newzyfy.Time.{Instant}
use newzyfy.Outbox.{Uuid}
use newzyfy.Articles.Types.{failed, retry, LeasedUrlCandidate, ArticleFetchRun}
use newzyfy.Articles.Rows.{UrlCandidateModel, Database, get_candidate}
use newzyfy.Articles.Stages.{failed_row, complete_failure}
use newzyfy.Articles.Leases.{is_due}
use newzyfy.Articles.Keeps.{get_candidate-update_candidate}
use newzyfy.Articles.Settled.{IsReleased}

abbrev pub is_other : Uuid → UrlCandidateModel → Bool
is_other id row = not (row.id == id)

keep-other :
    (id : Uuid) (f : UrlCandidateModel → UrlCandidateModel)
    → ((row : UrlCandidateModel) → (f row).id ≡ row.id)
    → (rows : List UrlCandidateModel)
    → keep (is_other id) (update_where (λ (row : UrlCandidateModel). row.id == id) f rows)
      ≡ keep (is_other id) rows
keep-other id f same [] = refl
keep-other id f same (row ∷ rows) = elim (Bool-cases (row.id == id)) [
  | inl e ↦ rw (e, same row, e) (keep-other id f same rows)
  | inr e ↦ rw (e, e) (rw (keep-other id f same rows))
]

module _ (c : LeasedUrlCandidate) (run : ArticleFetchRun) (t : Instant)
    (error_type error_message : String) (retry_at : Option Instant) (terminal : Bool)
    (clock : Instant) (db : Database) where
  -- The database after the failure.
  abbrev pub after_failure : Database
  after_failure = complete_failure c run t error_type error_message retry_at terminal clock db

  is_due-failed_row :
      (later : Instant) (row : UrlCandidateModel)
      → is_due later (failed_row t error_type error_message retry_at terminal row)
        ≡ (not terminal && leb (or_else retry_at t) later)
  unfolding is_due failed_row
  is_due-failed_row later row =
      elim terminal
        as (λ b.
          is_due later (failed_row t error_type error_message retry_at b row)
          ≡ (not b && leb (or_else retry_at t) later)) [
            | true ↦ ground arith
            | false ↦ ground arith
          ]

  -- Where the candidate's row is stored, whatever its state is and whoever holds its lease, complete_failure
  -- leaves it released and failed, if the failure is terminal, or else to be retried, with its URL,
  -- its article and its attempts as they were. It is due then from the retry time on (from the end of the
  -- attempt, if no time is given), and never after a terminal failure. The other rows, and the
  -- articles and their versions, are as they were.
  pub complete_failure-IsReleased :
      (row : UrlCandidateModel)
      → get_candidate c.id db ≡ some row
      → (row' : UrlCandidateModel) × (get_candidate c.id after_failure ≡ some row')
        × IsReleased row'
        × (row'.state ≡ (if terminal then failed else retry))
        × ((later : Instant) → is_due later row' ≡ (not terminal && leb (or_else retry_at t) later))
        × (row'.normalized_url ≡ row.normalized_url)
        × (row'.article_id ≡ row.article_id)
        × (row'.attempt_count ≡ row.attempt_count)
        × (keep (is_other c.id) after_failure.candidates ≡ keep (is_other c.id) db.candidates)
        × (after_failure.articles ≡ db.articles)
        × (after_failure.versions ≡ db.versions)
  unfolding complete_failure failed_row
  complete_failure-IsReleased row stored =
      let new : UrlCandidateModel → UrlCandidateModel =
        failed_row t error_type error_message retry_at terminal in
      (
        new row,
        get_candidate-update_candidate c.id new db (λ _. refl) ∙ rw stored refl,
        record { owner = refl; expiry = refl; worker = refl },
        ground arith,
        λ later. is_due-failed_row later row,
        refl,
        refl,
        refl,
        keep-other c.id new (λ _. refl) db.candidates,
        refl,
        refl,
      )

-- ===== src/Cleanup/Settling.antt =====
-- What cleanup_old_jobs of backend/src/newsintel/maintenance/cleanup_old_jobs.py does to the tables, and
-- what its counts say.
use newzyfy.Prelude.{
  ◌<◌, ◌≡◌, ◌⊎◌, inl, inr, refl, sym, ap, ◌∙◌, Bool, true, false, none, some, List, [], ◌∷◌, length,
  keep, update_where, Bool-cases, and_true,
}
use mathlib.Core.Bool.{true≢false}
use newzyfy.Time.{Instant}
use newzyfy.Articles.Rows.{UrlCandidateModel}
use newzyfy.Sources.{FetchJobModel, Tables}
use newzyfy.Cleanup.{
  Action, reject, permanently_fail, Cleanup, TextServices, is_pending, is_pending_state,
  is_pending_job, settled_state, age_reference, cutoff, is_stale_candidate, is_stale_fetch_job,
  settle_candidate, complete_fetch_job, cleanup_old_jobs,
}

module _ {ℓ} {A : Type ℓ} where
  module _ (p : A → Bool) (f : A → A) where
    module _ (left : (x : A) → p (f x) ≡ false) where
      keep-update_where : (xs : List A) → keep p (update_where p f xs) ≡ []
      keep-update_where [] = refl
      keep-update_where (x ∷ xs) = elim (Bool-cases (p x)) [
        | inl e ↦ rw (e, left x, keep-update_where xs)
        | inr e ↦ rw (e, e, keep-update_where xs)
      ]

      update_where-update_where :
          (xs : List A) → update_where p f (update_where p f xs) ≡ update_where p f xs
      update_where-update_where [] = refl
      update_where-update_where (x ∷ xs) = elim (Bool-cases (p x)) [
        | inl e ↦ rw (e, left x, update_where-update_where xs)
        | inr e ↦ rw (e, e, update_where-update_where xs)
      ]

module _ (texts : TextServices) (run : Cleanup) (now : Instant) (t : Tables) where
  settled_state-is_pending : (a : Action) → is_pending_state (settled_state a) ≡ false
  settled_state-is_pending reject = refl
  settled_state-is_pending permanently_fail = refl

  settled-is_pending :
      (c : UrlCandidateModel) → is_pending (settle_candidate texts run now t c) ≡ false
  unfolding settle_candidate
  settled-is_pending c = settled_state-is_pending run.action

  settled-is_stale :
      (c : UrlCandidateModel)
      → is_stale_candidate texts run now t (settle_candidate texts run now t c) ≡ false
  unfolding is_stale_candidate
  settled-is_stale c = rw (settled-is_pending c)

  completed-is_pending :
      (job : FetchJobModel) → is_pending_job (complete_fetch_job texts run now t job) ≡ false
  unfolding complete_fetch_job
  completed-is_pending job = refl

  stale-is_pending_job :
      (job : FetchJobModel)
      → is_stale_fetch_job texts run now t job ≡ true
      → is_pending_job job ≡ true
  unfolding is_stale_fetch_job
  stale-is_pending_job job h = (and_true _ _ (and_true _ _ h).0).1

  not_pending-not_stale :
      (job : FetchJobModel)
      → is_pending_job job ≡ false
      → is_stale_fetch_job texts run now t job ≡ false
  unfolding is_stale_fetch_job
  not_pending-not_stale job h = elim (Bool-cases (is_stale_fetch_job texts run now t job)) [
    | inl e ↦ absurd (true≢false (sym (stale-is_pending_job job e) ∙ h))
    | inr e ↦ e
  ]

  -- A candidate's row is as it was, or was pending and old and is now settled and free.
  abbrev pub IsCleaned : UrlCandidateModel → UrlCandidateModel → Type 0
  IsCleaned c c' =
      (c' ≡ c)
      ⊎ ((is_pending c ≡ true)
          × (age_reference c < cutoff texts run now t)
          × (c'.state ≡ settled_state run.action)
          × (c'.lease_owner ≡ none)
          × (c'.lease_expires_at ≡ none)
          × (c'.current_worker ≡ none)
          × (c'.last_failure_code ≡ some "development_cleanup")
          × (c'.id ≡ c.id)
          × (c'.normalized_url ≡ c.normalized_url)
          × (c'.article_id ≡ c.article_id))

  -- A fetch job is as it was, or was pending and created before the cutoff and is now completed.
  abbrev pub IsCompleted : FetchJobModel → FetchJobModel → Type 0
  IsCompleted job job' =
      (job' ≡ job)
      ⊎ ((is_pending_job job ≡ true)
          × (job.created_at < cutoff texts run now t)
          × (job'.status ≡ "completed")
          × (job'.completed_at ≡ some now)
          × (job'.id ≡ job.id)
          × (job'.publisher_id ≡ job.publisher_id)
          × (job'.created_at ≡ job.created_at))

abbrev pub applying : Cleanup → Cleanup
applying run = record run { apply = true }

abbrev trying : Cleanup → Cleanup
trying run = record run { apply = false }

module _ (texts : TextServices) (run : Cleanup) (now : Instant) (t : Tables) where
  -- A run that does not apply the cleanup leaves the tables as they are, and counts what a run that
  -- applies it would settle.
  cleanup_old_jobs_dry :
      let (t', result) = cleanup_old_jobs texts (trying run) now t in
      let applied = (cleanup_old_jobs texts (applying run) now t).1 in
      (t' ≡ t)
      × (result.stale_candidate_count ≡ applied.stale_candidate_count)
      × (result.stale_fetch_job_count ≡ applied.stale_fetch_job_count)
      × (result.cutoff ≡ applied.cutoff)
  unfolding cleanup_old_jobs is_stale_candidate is_stale_fetch_job
  cleanup_old_jobs_dry = (refl, refl, refl, refl)

  -- A cleanup that is applied twice at one time finds nothing the second time, and changes nothing.
  cleanup_old_jobs_again :
      let t' = (cleanup_old_jobs texts (applying run) now t).0 in
      let (t'', result) = cleanup_old_jobs texts (applying run) now t' in
      (t'' ≡ t') × (result.stale_candidate_count ≡ 0) × (result.stale_fetch_job_count ≡ 0)
  unfolding cleanup_old_jobs is_stale_candidate is_stale_fetch_job settle_candidate
      complete_fetch_job
  cleanup_old_jobs_again =
      let stale = is_stale_candidate texts (applying run) now t in
      let stale_job = is_stale_fetch_job texts (applying run) now t in
      let settle = settle_candidate texts (applying run) now t in
      let complete = complete_fetch_job texts (applying run) now t in
      let settled = settled-is_stale texts (applying run) now t in
      let completed : (job : FetchJobModel) → stale_job (complete job) ≡ false = λ job.
        not_pending-not_stale texts (applying run) now t (complete job)
          (completed-is_pending texts (applying run) now t job) in
      (
        rw (
          update_where-update_where stale settle settled t.candidates,
          update_where-update_where stale_job complete completed t.fetch_jobs,
        ),
        ap length (keep-update_where stale settle settled t.candidates),
        ap length (keep-update_where stale_job complete completed t.fetch_jobs),
      )

-- ===== src/Sources/Jobs.antt =====
-- A fetch job that create_fetch_job of backend/src/newsintel/application/sources/service.py answers with, as
-- get_fetch_job reads it back.
use newzyfy.Prelude.{
  ◌<◌, ◌≡◌, refl, sym, ap, inl, inr, String, Option, none, some, List, [], ◌∷◌, All, find_key,
  find_row-append, ◌==◌, ==_refl, arith,
}
use newzyfy.Time.{Instant}
use newzyfy.Outbox.{Uuid}
use newzyfy.Articles.World.{Result, returned}
use newzyfy.Fetcher.Safety.{returned≢raised}
use newzyfy.Fetcher.Results.{returned-inj}
use newzyfy.Sources.{FetchJobModel, Tables}
use newzyfy.Sources.Views.{FetchJobView, fetch_job_view}
use newzyfy.Sources.Service.{
  fetch_target_publishers, create_fetch_job, get_fetch_job, schedule_fetch,
}
use newzyfy.Sources.Effects.{List-cases}

abbrev job_key : FetchJobModel → Uuid
job_key j = j.id

new_key_absent :
    (k : Uuid) (jobs : List FetchJobModel)
    → All (λ j. job_key j < k) jobs
    → find_key job_key k jobs ≡ none
new_key_absent k [] h = refl
new_key_absent k (j ∷ jobs) h =
    let rest = new_key_absent k jobs h.1 in let below = h.0 in ground (arith, rest, below)

get_fetch_job_found :
    (id : Uuid) (t : Tables) (job : FetchJobModel)
    → find_key job_key id t.fetch_jobs ≡ some job
    → get_fetch_job id t ≡ some (fetch_job_view t job)
unfolding get_fetch_job
get_fetch_job_found id t job h = rw (h, get_fetch_job)

module _ (t : Tables) (fresh : All (λ j. job_key j < t.next_id) t.fetch_jobs) where
  get_fetch_job-schedule_fetch :
      (publisher_id : Option Uuid) (ids : List Uuid) (now : Instant)
      → let (t', job) = schedule_fetch publisher_id ids now t in
        get_fetch_job (fetch_job_view t' job).id t' ≡ some (fetch_job_view t' job)
  unfolding schedule_fetch fetch_job_view
  get_fetch_job-schedule_fetch publisher_id ids now =
      let (t', job) = schedule_fetch publisher_id ids now t in
      get_fetch_job_found t.next_id t' job (
        find_row-append (λ j. job_key j == t.next_id) job t.fetch_jobs
          (new_key_absent t.next_id t.fetch_jobs fresh) (==_refl t.next_id))

  -- Where the jobs that are stored have identifiers below the next one, the job that create_fetch_job
  -- answers with is read back by get_fetch_job, under its identifier, as the same view.
  pub get_fetch_job-create_fetch_job :
      (describe : Uuid → String) (publisher_id : Option Uuid) (now : Instant) (t' : Tables)
      (view : FetchJobView)
      → create_fetch_job describe publisher_id now t ≡ (returned view, t')
      → get_fetch_job view.id t' ≡ some view
  unfolding create_fetch_job
  get_fetch_job-create_fetch_job describe publisher_id now t' view h =
      elim (List-cases (fetch_target_publishers publisher_id t)) [
        | inl e ↦ absurd (
            returned≢raised _ _ (
              sym (ap (λ (p : Result FetchJobView × Tables). p.0) (rw (e, create_fetch_job) at h))))
        | inr (id, rest, e) ↦
            let made = rw (e, create_fetch_job) at h in
            let left = returned-inj _ _ (ap (λ (p : Result FetchJobView × Tables). p.0) made) in
            let right = ap (λ (p : Result FetchJobView × Tables). p.1) made in
            rw (← left, ← right) (get_fetch_job-schedule_fetch publisher_id (id ∷ rest) now)
      ]

-- ===== src/Cleanup.antt =====
-- cleanup_old_jobs of backend/src/newsintel/maintenance/cleanup_old_jobs.py: it settles the pending URL
-- candidates and the fetch jobs of a publisher that are older than a number of hours, or only counts
-- them. The lower case of a text is a parameter, in Python and in the database; the text of the
-- failure, which formats a number and an instant, is another.
pub mod Like
pub mod Settling
use newzyfy.Prelude.{
  ℕ, suc, ◌-◌, String, Bool, true, false, ◌&&◌, ◌||◌, not, Option, none, some, List, [], ◌∷◌,
  length, keep, update_where, or_else, str_eq, ltb, if◌then◌else◌,
}
use newzyfy.Time.{Instant, hours}
use newzyfy.Outbox.{Uuid}
use newzyfy.Text.{concat}
use newzyfy.Articles.Types.{
  UrlCandidateState, ready, leased, retry, failed, ArticleProcessingStage, permanent_failure,
}
use newzyfy.Articles.Rows.{UrlCandidateModel}
use newzyfy.Sources.{PublisherModel, FetchJobModel, Tables, get_publisher}
use newzyfy.Cleanup.Like.{like}

pub data Action : Type 0 where
  reject permanently_fail : Action

-- The arguments of a run.
pub record Cleanup : Type 0 where
  pub publisher_match : String
  pub older_than_hours : ℕ
  pub action : Action
  pub invalid_only : Bool
  pub apply : Bool

pub record CleanupResult : Type 0 where
  pub publisher_match : String
  pub older_than_hours : ℕ
  pub cutoff : Instant
  pub applied : Bool
  pub action : Action
  pub invalid_only : Bool
  pub stale_candidate_count : ℕ
  pub stale_fetch_job_count : ℕ

pub record TextServices : Type 0 where
  pub lower : String → String
  pub database_lower : String → String
  pub stale_reason : ℕ → Action → Bool → Instant → String

abbrev pub is_pending_state : UrlCandidateState → Bool
is_pending_state ready = true
is_pending_state retry = true
is_pending_state leased = true
is_pending_state _ = false

abbrev pub is_pending : UrlCandidateModel → Bool
is_pending c = is_pending_state c.state

abbrev pub is_pending_job : FetchJobModel → Bool
is_pending_job job = str_eq job.status "scheduled" || str_eq job.status "running"

abbrev pub settled_state : Action → UrlCandidateState
settled_state permanently_fail = failed
settled_state reject = UrlCandidateState.rejected

abbrev settled_stage : Action → ArticleProcessingStage
settled_stage permanently_fail = permanent_failure
settled_stage reject = ArticleProcessingStage.rejected

-- coalesce(published_at, first_discovered_at, created_at)
abbrev pub age_reference : UrlCandidateModel → Instant
age_reference c = or_else c.published_at (or_else c.first_discovered_at c.created_at)

abbrev any_like : List String → String → Bool
any_like [] s = false
any_like (pattern ∷ patterns) s = like pattern s || any_like patterns s

abbrev contains_pattern : String → String
contains_pattern s = concat "%" (concat s "%")

module _ (texts : TextServices) where
  unfoldable pub invalid_backlog_url_scope : String → Bool
  invalid_backlog_url_scope url =
      any_like
        ("%/archive/%" ∷ "%/archives/%" ∷ "%/topics/%" ∷ "%/topic/%" ∷ "%/multimedia/%"
          ∷ "%/video/%" ∷ "%/videos/%" ∷ "%/gallery/%" ∷ "%/search/%" ∷ "%/tag/%" ∷ "%/tags/%"
          ∷ "%/author/%" ∷ "%/authors/%" ∷ [])
        (texts.database_lower url)

  unfoldable pub url_matches_publisher : String → String → Bool
  url_matches_publisher publisher_match url =
      if str_eq (texts.lower publisher_match) "bbc"
      then any_like
          ("%://bbc.%" ∷ "%://www.bbc.%" ∷ "%://news.bbc.%" ∷ "%://%.bbc.%" ∷ "%://%.bbci.%" ∷ [])
          (texts.database_lower url)
      else like (contains_pattern (texts.lower publisher_match)) (texts.database_lower url)

  unfoldable pub publisher_scope : String → PublisherModel → Bool
  publisher_scope publisher_match p =
      let match_pattern = contains_pattern (texts.lower publisher_match) in
      like match_pattern (texts.database_lower p.name)
      || like match_pattern (texts.database_lower p.canonical_domain)

  module _ (run : Cleanup) (now : Instant) (t : Tables) where
    -- The earliest datetime is far below: where this difference would be negative, no row is older.
    abbrev pub cutoff : Instant
    cutoff = now - hours run.older_than_hours

    abbrev in_scope : Option PublisherModel → String → Bool
    in_scope none url = false
    in_scope (some p) url =
        publisher_scope run.publisher_match p || url_matches_publisher run.publisher_match url

    unfoldable pub is_stale_candidate : UrlCandidateModel → Bool
    is_stale_candidate c =
        is_pending c
        && ltb (age_reference c) cutoff
        && in_scope (get_publisher c.publisher_id t) c.normalized_url
        && (not run.invalid_only || invalid_backlog_url_scope c.normalized_url)

    abbrev in_publishers : Option Uuid → Bool
    in_publishers none = false
    in_publishers (some id) = elim (get_publisher id t) [
      | none ↦ false
      | some p ↦ publisher_scope run.publisher_match p
    ]

    unfoldable pub is_stale_fetch_job : FetchJobModel → Bool
    is_stale_fetch_job job =
        in_publishers job.publisher_id && is_pending_job job && ltb job.created_at cutoff

    unfoldable pub settle_candidate : UrlCandidateModel → UrlCandidateModel
    settle_candidate c =
        let stale_reason =
          texts.stale_reason run.older_than_hours run.action run.invalid_only cutoff in
        record c {
          state = settled_state run.action;
          processing_stage = settled_stage run.action;
          lease_owner = none;
          lease_expires_at = none;
          current_worker = none;
          last_fetch_at = some now;
          last_error = some stale_reason;
          last_failure_code = some "development_cleanup";
          last_failure_message = some stale_reason;
          processing_completed_at = some now;
          updated_at = now;
        }

    unfoldable pub complete_fetch_job : FetchJobModel → FetchJobModel
    complete_fetch_job job = record job {
      status = "completed";
      completed_at = some now;
      updated_at = now;
      message =
          some
            "Development cleanup completed this stale fetch job without deleting publishers, channels, articles, versions, events, or claims.";
    }

    unfoldable pub cleanup_old_jobs : Tables × CleanupResult
    cleanup_old_jobs = (
      if run.apply
          then record t {
            candidates = update_where is_stale_candidate settle_candidate t.candidates;
            fetch_jobs = update_where is_stale_fetch_job complete_fetch_job t.fetch_jobs;
          }
          else t,
      record {
        publisher_match = run.publisher_match;
        older_than_hours = run.older_than_hours;
        cutoff = cutoff;
        applied = run.apply;
        action = run.action;
        invalid_only = run.invalid_only;
        stale_candidate_count = length (keep is_stale_candidate t.candidates);
        stale_fetch_job_count = length (keep is_stale_fetch_job t.fetch_jobs);
      },
    )

    -- async_main after its arguments are parsed: `none` is the error on --older-than-hours.
    unfoldable pub async_main : Option (Tables × CleanupResult)
    async_main = if ltb run.older_than_hours 1 then none else some cleanup_old_jobs

-- ===== src/Filter.antt =====
-- Which URLs are admitted: backend/src/newsintel/domain/acquisition/article_filter.py. The two tests
-- on the text of a URL are parameters here, and written out in Filter/Urls.
pub mod Admission
pub mod Urls
use newzyfy.Prelude.{
  ℕ, ◌+◌, ◌-◌, String, Bool, true, false, not, ◌&&◌, Option, none, some, ltb, if◌then◌else◌,
  is_none, or_else,
}
use newzyfy.Time.{Instant, Datetime, hours, normalize_datetime}

pub record UrlTests : Type 0 where
  pub has_excluded_segment : String → Bool
  pub looks_like_article_url : String → Bool

pub data UrlRejectionReason : Type 0 where
  too_old future_dated non_article_path excluded_section missing_publication_date :
      UrlRejectionReason

abbrev pub reason_value : UrlRejectionReason → String
reason_value too_old = "too_old"
reason_value future_dated = "future_dated"
reason_value non_article_path = "non_article_path"
reason_value excluded_section = "excluded_section"
reason_value missing_publication_date = "missing_publication_date"

-- The policy version, a constant, is left out.
pub record ArticleUrlDecision : Type 0 where
  pub accepted : Bool
  pub reason : Option UrlRejectionReason
  pub published_at : Option Instant

abbrev reject : UrlRejectionReason → Option Instant → ArticleUrlDecision
reject reason published_at = record {
  accepted = false;
  reason = some reason;
  published_at = published_at;
}

-- The tests on the text of the URL, which come last.
unfoldable admit_by_url : UrlTests → String → Option Instant → ArticleUrlDecision
admit_by_url tests url published_at =
    if tests.has_excluded_segment url
    then reject excluded_section published_at
    else if not (tests.looks_like_article_url url)
    then reject non_article_path published_at
    else record { accepted = true; reason = none; published_at = published_at }

-- `published < observed - window` is tested as `published + window < observed`.
unfoldable admit_normalized :
    UrlTests → String → Option Instant → Instant → ℕ → Bool → ArticleUrlDecision
unfolding admit_by_url
admit_normalized tests url none observed_at recent_window_hours require_publication_date =
    if require_publication_date
    then reject missing_publication_date none
    else admit_by_url tests url none
admit_normalized tests url (some t) observed_at recent_window_hours require_publication_date =
    if ltb (observed_at + hours 2) t
    then reject future_dated (some t)
    else if ltb (t + hours recent_window_hours) observed_at
    then reject too_old (some t)
    else admit_by_url tests url (some t)

-- `observed_at` is never None, so `or datetime.now(UTC)` is not reached.
unfoldable pub should_admit_article_url :
    UrlTests → String → Option Datetime → Datetime → ℕ → Bool → ArticleUrlDecision
unfolding admit_normalized normalize_datetime
should_admit_article_url tests url published_at observed_at recent_window_hours
      require_publication_date =
    admit_normalized tests url (normalize_datetime published_at)
      (or_else (normalize_datetime (some observed_at)) 0) recent_window_hours
      require_publication_date

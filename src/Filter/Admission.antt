-- ===== src/Filter/Admission.antt =====
-- When should_admit_article_url admits a URL, and which reason it gives.
use newzyfy.Prelude.{
  ℕ, ◌+◌, ◌≤◌, ◌<◌, ◌≡◌, ◌↔◌, String, Bool, true, false, Option, none, some, arith,
}
use newzyfy.Time.{Instant, Datetime, naive, aware, hours}
use newzyfy.Filter.{UrlTests, too_old, future_dated, ArticleUrlDecision, should_admit_article_url}

abbrev to_instant : Datetime → Instant
to_instant (naive t) = t
to_instant (aware t) = t

-- The publication time is known, or need not be; where it is known it is at most two hours ahead of
-- the observation and no older than the window.
abbrev pub IsTimely : Option Datetime → Datetime → ℕ → Bool → Type 0
IsTimely none observed_at window require = require ≡ false
IsTimely (some t) observed_at window require =
    (to_instant t ≤ to_instant observed_at + hours 2)
    × (to_instant observed_at ≤ to_instant t + hours window)

module _ (tests : UrlTests) (url : String) (published_at : Option Datetime) (observed_at : Datetime)
    (window : ℕ) (require : Bool) where
  abbrev pub decision : ArticleUrlDecision
  decision = should_admit_article_url tests url published_at observed_at window require

-- A URL is accepted exactly when its publication time is timely, no segment of it is excluded, and
-- it looks like an article.
pub should_admit_article_url_iff :
    (tests : UrlTests) (url : String) (published_at : Option Datetime) (observed_at : Datetime)
    (window : ℕ) (require : Bool)
    → (decision tests url published_at observed_at window require).accepted ≡ true
      ↔ IsTimely published_at observed_at window require
        × (tests.has_excluded_segment url ≡ false)
        × (tests.looks_like_article_url url ≡ true)
unfolding should_admit_article_url
should_admit_article_url_iff tests url none (naive o) window require = ground arith
should_admit_article_url_iff tests url none (aware o) window require = ground arith
should_admit_article_url_iff tests url (some (naive t)) (naive o) window require = ground arith
should_admit_article_url_iff tests url (some (naive t)) (aware o) window require = ground arith
should_admit_article_url_iff tests url (some (aware t)) (naive o) window require = ground arith
should_admit_article_url_iff tests url (some (aware t)) (aware o) window require = ground arith

-- For a URL with a publication time: a decision has no reason exactly when it accepts; it says
-- future_dated exactly when the time is more than two hours ahead, and too_old exactly when it is not
-- and is older than the window, whatever the URL; and it carries the publication time in UTC.
pub should_admit_article_url_reason :
    (tests : UrlTests) (url : String) (t observed_at : Datetime) (window : ℕ) (require : Bool)
    → let d = decision tests url (some t) observed_at window require in
      ((d.reason ≡ none) ↔ (d.accepted ≡ true))
      × ((d.reason ≡ some future_dated) ↔ (to_instant observed_at + hours 2 < to_instant t))
      × ((d.reason ≡ some too_old)
          ↔ (to_instant t ≤ to_instant observed_at + hours 2)
            × (to_instant t + hours window < to_instant observed_at))
      × (d.published_at ≡ some (to_instant t))
unfolding should_admit_article_url
should_admit_article_url_reason tests url (naive t) (naive o) window require =
    (ground arith, ground arith, ground arith, ground arith)
should_admit_article_url_reason tests url (naive t) (aware o) window require =
    (ground arith, ground arith, ground arith, ground arith)
should_admit_article_url_reason tests url (aware t) (naive o) window require =
    (ground arith, ground arith, ground arith, ground arith)
should_admit_article_url_reason tests url (aware t) (aware o) window require =
    (ground arith, ground arith, ground arith, ground arith)

-- ===== src/Sources/Views.antt =====
-- The views of backend/src/newsintel/application/sources/service.py and dto.py: counts over the tables,
-- for a publisher and for a fetch job.
use newzyfy.Prelude.{
  ℕ, suc, ◌+◌, ◌-◌, String, Bool, true, false, ◌&&◌, Option, none, some, List, [], ◌∷◌, length,
  keep, map, elem, ◌==◌, leb, find_key, if◌then◌else◌,
}
use newzyfy.Time.{Instant}
use newzyfy.Outbox.{Uuid}
use newzyfy.Articles.Types.{UrlCandidateState, failed}
use newzyfy.Articles.Rows.{UrlCandidateModel, ArticleModel, candidate_key}
use newzyfy.Acquisition.Frontier.{DiscoveryChannelType, rss, atom, sitemap, news_sitemap}
use newzyfy.Acquisition.Rows.{DiscoveryChannel, UrlDiscovery}
use newzyfy.Sources.{FetchFrequency, PublisherModel, FetchJobModel, Tables}

pub record PublisherSourceView : Type 0 where
  pub id : Uuid
  pub name : String
  pub slug : String
  pub canonical_domain : String
  pub homepage_url : Option String
  pub fetch_frequency : FetchFrequency
  pub discovery_status : String
  pub discovery_message : Option String
  pub rss_feed_count : ℕ
  pub sitemap_count : ℕ
  pub last_fetched_at : Option Instant
  pub articles_discovered : ℕ
  pub articles_extracted : ℕ
  pub duplicates_skipped : ℕ
  pub failed_articles : ℕ
  pub current_status : String
  pub created_at : Instant
  pub updated_at : Instant

pub record FetchJobView : Type 0 where
  pub id : Uuid
  pub publisher_id : Option Uuid
  pub job_type : String
  pub status : String
  pub publishers_total : ℕ
  pub publishers_processed : ℕ
  pub urls_discovered : ℕ
  pub articles_queued : ℕ
  pub articles_extracted : ℕ
  pub duplicates_skipped : ℕ
  pub failed_articles : ℕ
  pub message : Option String
  pub created_at : Instant
  pub started_at : Option Instant
  pub completed_at : Option Instant
  pub updated_at : Instant

abbrev is_failed : UrlCandidateState → Bool
is_failed failed = true
is_failed UrlCandidateState.rejected = true
is_failed _ = false

-- A column that may be NULL is at or after an instant.
abbrev since_option : Instant → Option Instant → Bool
since_option since none = false
since_option since (some t) = leb since t

-- count(distinct …)
abbrev distinct_count : List ℕ → ℕ
distinct_count [] = 0
distinct_count (x ∷ xs) = let rest = distinct_count xs in if elem x xs then rest else suc rest

abbrev has_type : DiscoveryChannelType → DiscoveryChannelType → Bool
has_type rss rss = true
has_type atom atom = true
has_type sitemap sitemap = true
has_type news_sitemap news_sitemap = true
has_type _ _ = false

pub record JobStats : Type 0 where
  pub publishers_processed : ℕ
  pub urls_discovered : ℕ
  pub articles_queued : ℕ
  pub articles_extracted : ℕ
  pub duplicates_skipped : ℕ
  pub failed_articles : ℕ

module _ (t : Tables) where
  -- How many active channels of the publisher have the type.
  abbrev type_count : Uuid → DiscoveryChannelType → ℕ
  type_count publisher_id type = length (
      keep
        (λ (c : DiscoveryChannel).
          c.publisher_id == publisher_id && c.active && has_type type c.channel_type)
        t.channels)

  abbrev publisher_discovered_count : Uuid → ℕ
  publisher_discovered_count publisher_id =
      length (keep (λ (c : UrlCandidateModel). c.publisher_id == publisher_id) t.candidates)

  -- The join of the discoveries with their candidates, restricted by the candidate's publisher.
  abbrev of_publishers : (Uuid → Bool) → UrlDiscovery → Bool
  of_publishers chosen d = elim (find_key candidate_key d.url_candidate_id t.candidates) [
    | none ↦ false
    | some c ↦ chosen c.publisher_id
  ]

  abbrev publisher_observation_count : Uuid → ℕ
  publisher_observation_count publisher_id =
      length (keep (of_publishers (λ id. id == publisher_id)) t.discoveries)

  unfoldable pub publisher_source_view : PublisherModel → PublisherSourceView
  publisher_source_view p = record {
    id = p.id;
    name = p.name;
    slug = p.slug;
    canonical_domain = p.canonical_domain;
    homepage_url = p.homepage_url;
    fetch_frequency = p.fetch_frequency;
    discovery_status = p.discovery_status;
    discovery_message = p.discovery_message;
    rss_feed_count = type_count p.id rss + type_count p.id atom;
    sitemap_count = type_count p.id sitemap + type_count p.id news_sitemap;
    last_fetched_at = p.last_fetched_at;
    articles_discovered = publisher_discovered_count p.id;
    articles_extracted = length (keep (λ (a : ArticleModel). a.publisher_id == p.id) t.articles);
    duplicates_skipped = publisher_observation_count p.id - publisher_discovered_count p.id;
    failed_articles = length (
        keep (λ (c : UrlCandidateModel). c.publisher_id == p.id && is_failed c.state) t.candidates);
    current_status = if p.active then "active" else "disabled";
    created_at = p.created_at;
    updated_at = p.updated_at;
  }

  abbrev counted_stats : List Uuid → Instant → JobStats
  counted_stats publisher_ids since =
      let discovered_count = distinct_count (
        map candidate_key (
          keep
            (λ (c : UrlCandidateModel). elem c.publisher_id publisher_ids && leb since c.created_at)
            t.candidates)) in
      let observation_count = length (
        keep
          (λ (d : UrlDiscovery).
            of_publishers (λ id. elem id publisher_ids) d && leb since d.discovered_at)
          t.discoveries) in
      record {
        publishers_processed = distinct_count (
            map (λ (c : DiscoveryChannel). c.publisher_id)
              (keep
                (λ (c : DiscoveryChannel).
                  elem c.publisher_id publisher_ids && since_option since c.last_polled_at)
                t.channels));
        urls_discovered = discovered_count;
        articles_queued = discovered_count;
        articles_extracted = length (
            keep
              (λ (a : ArticleModel).
                elem a.publisher_id publisher_ids && leb since a.first_observed_at)
              t.articles);
        duplicates_skipped = observation_count - discovered_count;
        failed_articles = length (
            keep
              (λ (c : UrlCandidateModel).
                elem c.publisher_id publisher_ids
                && is_failed c.state
                && since_option since c.last_fetch_at)
              t.candidates);
      }

  unfoldable pub job_stats : List Uuid → Instant → JobStats
  job_stats [] since = record {
    publishers_processed = 0;
    urls_discovered = 0;
    articles_queued = 0;
    articles_extracted = 0;
    duplicates_skipped = 0;
    failed_articles = 0;
  }
  job_stats (id ∷ ids) since = counted_stats (id ∷ ids) since

  unfoldable pub fetch_job_view : FetchJobModel → FetchJobView
  fetch_job_view job =
      let stats = job_stats job.publisher_ids job.created_at in
      record {
        id = job.id;
        publisher_id = job.publisher_id;
        job_type = job.job_type;
        status = job.status;
        publishers_total = job.publishers_total;
        publishers_processed = stats.publishers_processed;
        urls_discovered = stats.urls_discovered;
        articles_queued = stats.articles_queued;
        articles_extracted = stats.articles_extracted;
        duplicates_skipped = stats.duplicates_skipped;
        failed_articles = stats.failed_articles;
        message = job.message;
        created_at = job.created_at;
        started_at = job.started_at;
        completed_at = job.completed_at;
        updated_at = job.updated_at;
      }

-- ===== src/Scenarios/Cleanups.antt =====
-- A cleanup of one stale candidate and one stale fetch job, for
-- backend/src/newsintel/maintenance/cleanup_old_jobs.py, and the deletion of a publisher, for
-- backend/src/newsintel/application/sources/service.py.
use newzyfy.Prelude.{◌≡◌, ◌⊎◌, refl, String, true, false, none, some, [], ◌∷◌, Pairwise}
use newzyfy.Time.{Instant, hours}
use newzyfy.Outbox.{Uuid}
use newzyfy.Articles.World.{raised}
use newzyfy.Sources.{PublisherModel, FetchJobModel, Tables, hourly, get_publisher}
use newzyfy.Sources.Service.{delete_publisher, create_fetch_job, no_target}
use newzyfy.Sources.Effects.{IsPublisherAfter, IsChannelAfter, delete_publisher-IsDeleted}
use newzyfy.Cleanup.{
  reject, Cleanup, TextServices, cleanup_old_jobs, is_stale_candidate, invalid_backlog_url_scope,
  url_matches_publisher, publisher_scope, async_main,
}
use newzyfy.Cleanup.Like.{like, like_codes}
use newzyfy.Scenarios.Pipeline.{waiting_row}
use newzyfy.Scenarios.Discovery.{channel}

abbrev publisher : PublisherModel
publisher = record {
  id = 1;
  name = "BBC News";
  slug = "bbc-news";
  canonical_domain = "bbc.co.uk";
  homepage_url = none;
  fetch_frequency = hourly;
  discovery_status = "ready";
  discovery_message = none;
  last_fetched_at = none;
  active = true;
  created_at = hours 900;
  updated_at = hours 900;
}

abbrev old_job : FetchJobModel
old_job = record {
  id = 5;
  publisher_id = some 1;
  job_type = "publisher";
  status = "scheduled";
  publishers_total = 1;
  publishers_processed = 0;
  urls_discovered = 0;
  articles_queued = 0;
  articles_extracted = 0;
  duplicates_skipped = 0;
  failed_articles = 0;
  message = none;
  publisher_ids = 1 ∷ [];
  created_at = hours 910;
  started_at = some (hours 910);
  completed_at = none;
  updated_at = hours 910;
}

abbrev pub one_publisher : Tables
one_publisher = record {
  publishers = publisher ∷ [];
  channels = channel ∷ [];
  candidates =
      record (waiting_row 3) {
        normalized_url = "https://www.bbc.co.uk/news/topics/uk";
        published_at = some (hours 920);
      }
      ∷ waiting_row 4
      ∷ [];
  discoveries = [];
  articles = [];
  fetch_jobs = old_job ∷ [];
  outbox = [];
  next_id = 20;
}

-- Lower case is left as it is; the texts here have none but in the name.
abbrev texts : TextServices
texts = record {
  lower = λ s. "bbc";
  database_lower = λ s. s;
  stale_reason = λ hours action invalid_only cutoff. "old_job_rejected";
}

abbrev run : Cleanup
run = record {
  publisher_match = "BBC";
  older_than_hours = 48;
  action = reject;
  invalid_only = true;
  apply = true;
}

abbrev pub today : Instant
today = hours 1000

finds_topics : like "%/topics/%" "https://www.bbc.co.uk/news/topics/uk" ≡ true
unfolding like like_codes
finds_topics = refl

passes_over_news : like "%/topics/%" "https://www.bbc.co.uk/news/1" ≡ false
unfolding like like_codes
passes_over_news = refl

settles_one : (cleanup_old_jobs texts run today one_publisher).1.stale_candidate_count ≡ 1
unfolding cleanup_old_jobs is_stale_candidate invalid_backlog_url_scope url_matches_publisher
    publisher_scope like like_codes
settles_one = refl

refuses_zero_hours :
    async_main texts (record run { older_than_hours = 0 }) today one_publisher ≡ none
unfolding async_main
refuses_zero_hours = refl

abbrev pub describe : Uuid → String
describe id = "id"

delete_publisher-IsDeleted_example :
    let (found, t') = delete_publisher 1 today one_publisher in
    ((found ≡ false) × (get_publisher 1 one_publisher ≡ none) × (t' ≡ one_publisher))
    ⊎ ((row : PublisherModel) × (found ≡ true)
        × (get_publisher 1 one_publisher ≡ some row)
        × (get_publisher 1 t' ≡ some (record row { active = false; updated_at = today }))
        × Pairwise (IsPublisherAfter 1 today) one_publisher.publishers t'.publishers
        × Pairwise (IsChannelAfter 1 today) one_publisher.channels t'.channels
        × (t' ≡ record one_publisher { publishers = t'.publishers; channels = t'.channels })
        × (create_fetch_job describe (some 1) (hours 1001) t'
            ≡ (raised (no_target describe (some 1)), t')))
delete_publisher-IsDeleted_example =
    delete_publisher-IsDeleted describe 1 today (hours 1001) one_publisher

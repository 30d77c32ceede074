-- ===== src/Scenarios/Storage.antt =====
-- A database that holds an article with one version of the page that the pipeline fetches.
use newzyfy.Prelude.{
  List, keep, leb, ℕ, String, ◌≡◌, refl, false, none, some, [], ◌∷◌, map, IsSorted,
}
use newzyfy.Time.{Instant, hours}
use mathlib.Core.Option
use newzyfy.Articles.Stages.{failed_row, complete_failure}
use newzyfy.Articles.Failed.{is_other, after_failure, complete_failure-IsReleased}
use newzyfy.Articles.Settled.{IsReleased}
use newzyfy.Articles.Leases.{is_due}
use newzyfy.Articles.World.{returned, raised}
use newzyfy.Articles.Process.{end_transaction}
use newzyfy.Articles.Types.{integrity_error}
use newzyfy.Articles.Types.{UrlCandidateState, ArticleFetchRun, ArticleProcessingResult}
use newzyfy.Articles.Rows.{
  UrlCandidateModel, ArticleModel, ArticleVersionModel, Database, get_candidate,
}
use newzyfy.Articles.Versions.{
  max_version, new_version, persist_claims, insert_claim, store_version, processed_row,
}
use newzyfy.Articles.Success.{complete_success}
use newzyfy.Articles.Contents.{
  IsEarlierVersion, store_version-IsSorted, complete_success_same_content,
}
use newzyfy.Scenarios.Pipeline.{two_rows, candidate, page, story, analysis, waiting_row}

abbrev pub article : ArticleModel
article = record {
  id = 5;
  publisher_id = 1;
  event_id = 6;
  canonical_url = "https://example.org/2026/11/story";
  normalized_url_hash = "f1";
  title = "Story";
  language = some "en";
  published_at = none;
  first_observed_at = hours 999;
  created_at = hours 999;
  updated_at = hours 999;
}

abbrev version : ArticleVersionModel
version = record {
  id = 7;
  article_id = 5;
  version_number = 1;
  source_url = "https://example.org/2026/11/story";
  final_url = "https://example.org/2026/11/story";
  title = "Story";
  byline = none;
  language = some "en";
  published_at = none;
  retrieved_at = hours 999;
  content_sha256 = "c1";
  text_content = "text";
  extraction_method = "trafilatura";
  extraction_warnings = [];
  metadata = [];
  created_at = hours 999;
}

abbrev pub stored : Database
stored = record two_rows { articles = article ∷ []; versions = version ∷ [] }

abbrev pub run : ArticleFetchRun
run = record {
  id = 8;
  candidate_id = 1;
  worker_id = "worker";
  trace_id = 99;
  started_at = hours 1000;
}

-- A page with a new text makes a second version.
version_test :
    map
      (λ (v : ArticleVersionModel). v.version_number)
      (end_transaction stored (
        store_version analysis run article
          (record story { content_sha256 = "c2" })
          page
          none
          (hours 1000)
          stored)).1.versions
    ≡ 1 ∷ 2 ∷ []
unfolding store_version persist_claims insert_claim new_version max_version
version_test = refl

store_version-IsSorted_example :
    IsSorted IsEarlierVersion
      (end_transaction stored
        (store_version analysis run article story page none (hours 1000) stored)).1.versions
store_version-IsSorted_example =
    store_version-IsSorted analysis run article story page none (hours 1000) stored (tt, tt)

abbrev two_claims : List (String × String × ℕ)
two_claims = ("claim", "d0", 0) ∷ ("other", "d1", 2) ∷ []

refuses_repeated_claim :
    persist_claims version (hours 1000) (("claim", "d0", 0) ∷ ("claim", "d0", 2) ∷ []) stored
    ≡ raised integrity_error
unfolding persist_claims insert_claim
refuses_repeated_claim = refl

complete_success_same_content_example :
    (db' : Database) × (result : ArticleProcessingResult) × (complete_success analysis candidate run
        page story none
        (hours 1000)
        (hours 1000)
        stored
      ≡ returned (db', result))
    × (result.created_article ≡ false)
    × (result.created_event ≡ false)
    × (result.created_version ≡ false)
    × (result.claim_count ≡ 0)
    × (result.article_id ≡ 5)
    × (result.version_id ≡ some 7)
    × (map (λ (x : ArticleModel). x.id) db'.articles ≡ 5 ∷ [])
    × (db'.versions ≡ version ∷ [])
    × (db'.claims ≡ [])
    × (db'.evidence ≡ [])
    × (db'.verifications ≡ [])
    × (db'.events ≡ [])
    × (db'.assignments ≡ [])
    × (db'.outbox ≡ [])
complete_success_same_content_example =
    complete_success_same_content analysis candidate run page story none (hours 1000) (hours 1000)
      stored (waiting_row 1) article version refl refl refl

-- A row that another worker has processed since.
abbrev processed_db : Database
processed_db = record two_rows { candidates = processed_row 5 (hours 1000) (waiting_row 1) ∷ [] }

-- The worker whose lease has expired reports its failure, and the processed row is to be retried.
stale_worker_test :
    Option.map
      (λ (row : UrlCandidateModel). row.state)
      (get_candidate 1 (
        complete_failure candidate run
          (hours 1001)
          "OSError"
          "timeout"
          (some (hours 1002))
          false
          (hours 1001)
          processed_db))
    ≡ some UrlCandidateState.retry
unfolding complete_failure failed_row processed_row
stale_worker_test = refl

-- The failure of a worker whose row was processed since.
complete_failure-IsReleased_example :
    let row = processed_row 5 (hours 1000) (waiting_row 1) in
    let db' =
      after_failure candidate run
        (hours 1001)
        "OSError"
        "timeout"
        (some (hours 1002))
        false
        (hours 1001)
        processed_db in
    (row' : UrlCandidateModel) × (get_candidate 1 db' ≡ some row')
    × IsReleased row'
    × (row'.state ≡ UrlCandidateState.retry)
    × ((later : Instant) → is_due later row' ≡ leb (hours 1002) later)
    × (row'.normalized_url ≡ row.normalized_url)
    × (row'.article_id ≡ row.article_id)
    × (row'.attempt_count ≡ row.attempt_count)
    × (keep (is_other 1) db'.candidates ≡ keep (is_other 1) processed_db.candidates)
    × (db'.articles ≡ processed_db.articles)
    × (db'.versions ≡ processed_db.versions)
unfolding processed_row
complete_failure-IsReleased_example =
    complete_failure-IsReleased candidate run (hours 1001) "OSError" "timeout" (some (hours 1002))
      false (hours 1001) processed_db (processed_row 5 (hours 1000) (waiting_row 1)) refl

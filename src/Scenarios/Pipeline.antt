-- ===== src/Scenarios/Pipeline.antt =====
-- One candidate on its way through the article pipeline: an admitted URL whose page is fetched and
-- stored, and a rejected one.
use newzyfy.Prelude.{
  ◌+◌, ◌≤◌, ◌≡◌, refl, Bool, true, false, none, some, [], ◌∷◌, map, arith, elem, length, All, IsKey,
  inl,
}
use newzyfy.Time.{Instant, seconds, hours}
use newzyfy.Backoff.{ahead}
use newzyfy.Outbox.{Uuid}
use newzyfy.Articles.Types.{
  UrlCandidateState, ArticleProcessingStage, LeasedUrlCandidate, FetchResult, ExtractedArticle,
  Error, job_rejected,
}
use newzyfy.Articles.Rows.{UrlCandidateModel, Database, candidate_key, get_candidate}
use newzyfy.Articles.Persist.{Analysis}
use newzyfy.Articles.Leases.{lease_due_candidates, select_due, is_due, lease_row}
use newzyfy.Articles.Leasing.{
  IsGranted, result, granted_ids, lease_due_candidates_grants, lease_due_candidates_spares,
  lease_due_candidates_exclusive,
}
use newzyfy.Articles.World.{returned, raised, World, Settings}
use newzyfy.Articles.Process.{process}
use newzyfy.Articles.Settled.{IsReleased, IsSettled}
use newzyfy.Articles.Outcome.{process_settles, process_rejects}
use newzyfy.Filter.{should_admit_article_url}

abbrev now : Instant
now = hours 1000

-- A URL that waits to be fetched.
abbrev pub waiting_row : Uuid → UrlCandidateModel
waiting_row id = record {
  id = id;
  publisher_id = 1;
  normalized_url = "https://example.org/2026/11/story";
  url_fingerprint = "f1";
  state = UrlCandidateState.ready;
  processing_stage = ArticleProcessingStage.queued;
  priority_score = 6400;
  priority_policy_version = "frontier-v1";
  next_fetch_at = hours 999;
  published_at = some (hours 998);
  first_discovered_at = some (hours 999);
  lease_owner = none;
  lease_expires_at = none;
  current_worker = none;
  attempt_count = 0;
  article_id = none;
  last_fetch_at = none;
  last_error = none;
  last_failure_code = none;
  last_failure_message = none;
  content_type = none;
  processing_started_at = none;
  processing_completed_at = none;
  processing_duration_ms = none;
  stage_timestamps = [];
  created_at = hours 999;
  updated_at = hours 999;
}

abbrev later_row : Uuid → UrlCandidateModel
later_row id = record (waiting_row id) { next_fetch_at = hours 1001 }

abbrev pub two_rows : Database
two_rows = record {
  candidates = waiting_row 1 ∷ later_row 2 ∷ [];
  fetch_runs = [];
  events = [];
  articles = [];
  versions = [];
  assignments = [];
  claims = [];
  evidence = [];
  verifications = [];
  outbox = [];
  next_id = 10;
}

abbrev free : Uuid → Bool
free _ = false

two_rows-IsKey : IsKey candidate_key two_rows.candidates
two_rows-IsKey = ((omega arith, tt), (tt, tt))

-- The URL that is due is leased; the other is not.
granted_test :
    map (λ (c : LeasedUrlCandidate). c.id) (lease_due_candidates free "worker" 5 60 now two_rows).1
    ≡ 1 ∷ []
unfolding lease_due_candidates select_due is_due lease_row
granted_test = refl

lease_due_candidates_grants_example :
    (length (result free "worker" 5 60 now two_rows two_rows-IsKey).1 ≤ 5)
    × All
        (IsGranted free "worker" 5 60 now two_rows two_rows-IsKey)
        (result free "worker" 5 60 now two_rows two_rows-IsKey).1
lease_due_candidates_grants_example =
    lease_due_candidates_grants free "worker" 5 60 now two_rows two_rows-IsKey

lease_due_candidates_spares_example :
    (elem 2 (granted_ids free "worker" 5 60 now two_rows two_rows-IsKey) ≡ false)
    × (get_candidate 2 (result free "worker" 5 60 now two_rows two_rows-IsKey).0
        ≡ some (later_row 2))
unfolding is_due
lease_due_candidates_spares_example =
    lease_due_candidates_spares free "worker" 5 60 now two_rows two_rows-IsKey 2 (later_row 2) refl
      (inl refl)

lease_due_candidates_exclusive_example :
    let (db', first) = lease_due_candidates free "one" 5 60 now two_rows in
    let second = (lease_due_candidates free "two" 5 60 (now + seconds 30) db').1 in
    All
      (λ (c : LeasedUrlCandidate).
        elem c.id (map (λ (d : LeasedUrlCandidate). d.id) second) ≡ false)
      first
lease_due_candidates_exclusive_example =
    lease_due_candidates_exclusive free free "one" "two" 5 5 60 60 now (now + seconds 30) two_rows
      two_rows-IsKey (omega arith)

abbrev pub page : FetchResult
page = record {
  requested_url = "https://example.org/2026/11/story";
  final_url = "https://example.org/2026/11/story";
  status_code = 200;
  content_type = some "text/html";
  etag = none;
  last_modified = none;
  body = "<p>text</p>";
  body_length = 11;
  body_sha256 = "b1";
  retrieved_at = now + seconds 2;
  redirect_chain = [];
}

abbrev pub story : ExtractedArticle
story = record {
  title = some "Story";
  byline = none;
  published_at = some (hours 998);
  modified_at = none;
  language = some "en";
  canonical_url = none;
  text_content = "text";
  content_sha256 = "c1";
  extraction_method = "trafilatura";
  metadata = [];
  warnings = [];
}

abbrev pub analysis : Analysis
analysis = record {
  event_candidates = λ db title body published at. [];
  extract_claims = λ body. ("claim", "d0", 0) ∷ [];
}

-- Everything outside works, and every URL outside the excluded ones looks like an article.
abbrev pub world : World
world = record {
  clock = λ call. now + seconds 3;
  trace_id = 99;
  database_error = λ call. none;
  uniform = ahead;
  url_tests = record { has_excluded_segment = λ url. false; looks_like_article_url = λ url. true };
  fetch = λ url. returned page;
  save_raw_html = none;
  extract = λ body url. returned story;
  analysis = analysis;
  describe_status = λ text status. text;
  describe_rejection = λ article warnings. "rejected";
}

abbrev settings : Settings
settings = record {
  max_attempts = 5;
  retry_base_seconds = 30;
  retry_max_seconds = 3600;
  retry_jitter_permille = 200;
  recent_article_window_hours = 72;
}

abbrev pub candidate : LeasedUrlCandidate
candidate = record {
  id = 1;
  publisher_id = 1;
  normalized_url = "https://example.org/2026/11/story";
  attempt_count = 1;
  published_at = some (hours 998);
  first_discovered_at = some (hours 999);
}

abbrev old_candidate : LeasedUrlCandidate
old_candidate = record candidate { published_at = some (hours 900) }

process_settles_example :
    let (r, db') = process world settings candidate "worker" two_rows in
    IsSettled world settings candidate r db'
unfolding should_admit_article_url
process_settles_example =
    process_settles world settings candidate refl (omega arith) "worker" two_rows (waiting_row 1)
      refl refl refl

process_rejects_example :
    let (r, db') = process world settings old_candidate "worker" two_rows in
    ((e : Error) × (r ≡ raised e) × (e.class ≡ job_rejected))
    × ((row' : UrlCandidateModel) × (get_candidate 1 db' ≡ some row')
        × IsReleased row'
        × (row'.state ≡ UrlCandidateState.rejected))
unfolding should_admit_article_url
process_rejects_example =
    process_rejects world settings old_candidate "worker" two_rows (waiting_row 1) refl refl refl

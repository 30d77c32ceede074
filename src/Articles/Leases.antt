-- ===== src/Articles/Leases.antt =====
-- lease_due_candidates of
-- backend/src/newsintel/infrastructure/db/article_processing_repository.py.
use newzyfy.Prelude.{
  ℕ, ◌+◌, String, Bool, true, false, not, ◌&&◌, ◌||◌, Option, none, some, List, map, ltb, leb,
  if◌then◌else◌, elem, keep, sort_by, take, update_where,
}
use newzyfy.Time.{Instant, seconds}
use newzyfy.Outbox.{Uuid}
use newzyfy.Articles.Types.{
  UrlCandidateState, ready, leased, retry, ArticleProcessingStage, LeasedUrlCandidate,
}
use newzyfy.Articles.Rows.{UrlCandidateModel, Database, set_timestamp, candidate_key}

abbrev is_waiting : UrlCandidateState → Bool
is_waiting ready = true
is_waiting retry = true
is_waiting _ = false

abbrev is_leased : UrlCandidateState → Bool
is_leased leased = true
is_leased _ = false

abbrev expired : Instant → Option Instant → Bool
expired now none = false
expired now (some t) = ltb t now

-- The WHERE of lease_due_candidates.
unfoldable pub is_due : Instant → UrlCandidateModel → Bool
is_due now row =
    is_waiting row.state && leb row.next_fetch_at now
    || is_leased row.state && expired now row.lease_expires_at

-- nullslast(desc(a)): `some true` or `some false` where the column decides.
abbrev newer_first : Option Instant → Option Instant → Option Bool
newer_first none none = none
newer_first none (some _) = some false
newer_first (some _) none = some true
newer_first (some a) (some b) = if ltb b a then some true else if ltb a b then some false else none

abbrev decide_by : Option Bool → Bool → Bool
decide_by none rest = rest
decide_by (some b) rest = b

-- The ORDER BY of lease_due_candidates; ties keep the order of the table.
unfoldable pub leased_before : UrlCandidateModel → UrlCandidateModel → Bool
leased_before a b = decide_by (newer_first a.published_at b.published_at) (
    decide_by (newer_first a.first_discovered_at b.first_discovered_at) (
      decide_by (newer_first (some a.priority_score) (some b.priority_score))
        (ltb a.next_fetch_at b.next_fetch_at)))

-- The rows that the SELECT returns: SKIP LOCKED leaves out what other transactions hold.
unfoldable pub select_due : (Uuid → Bool) → ℕ → Instant → Database → List UrlCandidateModel
select_due locked limit now db =
    take limit
      (sort_by leased_before (keep (λ row. is_due now row && not (locked row.id)) db.candidates))

-- The body of the `for` loop.
unfoldable pub lease_row : String → Instant → Instant → UrlCandidateModel → UrlCandidateModel
lease_row worker_id now lease_expires_at row = record row {
  state = leased;
  processing_stage = ArticleProcessingStage.leased;
  lease_owner = some worker_id;
  lease_expires_at = some lease_expires_at;
  current_worker = some worker_id;
  attempt_count = row.attempt_count + 1;
  processing_started_at = some now;
  processing_completed_at = none;
  processing_duration_ms = none;
  last_failure_code = none;
  last_failure_message = none;
  stage_timestamps = set_timestamp ArticleProcessingStage.leased now row.stage_timestamps;
  updated_at = now;
}

abbrev pub leased_candidate : UrlCandidateModel → LeasedUrlCandidate
leased_candidate row = record {
  id = row.id;
  publisher_id = row.publisher_id;
  normalized_url = row.normalized_url;
  attempt_count = row.attempt_count;
  published_at = row.published_at;
  first_discovered_at = row.first_discovered_at;
}

unfoldable pub lease_due_candidates :
    (Uuid → Bool) → String → ℕ → ℕ → Instant → Database → Database × List LeasedUrlCandidate
lease_due_candidates locked worker_id limit lease_seconds now db =
    let rows = select_due locked limit now db in
    let lease = lease_row worker_id now (now + seconds lease_seconds) in
    (
      record db {
        candidates = update_where (λ row. elem row.id (map candidate_key rows)) lease db.candidates;
      },
      map (λ row. leased_candidate (lease row)) rows,
    )

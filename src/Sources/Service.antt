-- ===== src/Sources/Service.antt =====
-- SourceService of backend/src/newsintel/application/sources/service.py. A transaction that raises leaves
-- the tables as they were. The fetcher, normalize_domain and the clock are parameters. What is logged
-- is left out.
use newzyfy.Prelude.{
  ℕ, suc, String, Bool, true, false, ◌&&◌, Option, none, some, List, [], ◌∷◌, ◌++◌, length, keep,
  map, elem, update_where, sort_by, ◌==◌, is_none, find_key, if◌then◌else◌,
}
use newzyfy.Time.{Instant}
use newzyfy.Outbox.{Uuid, Json, IntegrationEvent, uuid, uuids, json_option, add_outbox}
use newzyfy.Text.{concat}
use newzyfy.Articles.Types.{Error, other}
use newzyfy.Articles.World.{Result, returned, raised}
use newzyfy.Acquisition.Rows.{DiscoveryChannel}
use newzyfy.Sources.{
  FetchFrequency, manual, every_15_minutes, hourly, every_6_hours, daily, PublisherModel,
  FetchJobModel, Tables, publisher_key, get_publisher,
}
use newzyfy.Sources.Views.{PublisherSourceView, FetchJobView, publisher_source_view, fetch_job_view}

pub record FrequencyPolicy : Type 0 where
  pub next_poll_at : Option Instant
  pub poll_min_seconds : ℕ
  pub poll_max_seconds : ℕ
  pub current_poll_seconds : ℕ

abbrev frequency_seconds : FetchFrequency → ℕ
frequency_seconds manual = 3600
frequency_seconds every_15_minutes = 900
frequency_seconds hourly = 3600
frequency_seconds every_6_hours = 21600
frequency_seconds daily = 86400

abbrev first_poll : FetchFrequency → Instant → Option Instant
first_poll manual now = none
first_poll _ now = some now

unfoldable pub frequency_policy : FetchFrequency → Instant → FrequencyPolicy
frequency_policy frequency now = record {
  next_poll_at = first_poll frequency now;
  poll_min_seconds = frequency_seconds frequency;
  poll_max_seconds = frequency_seconds frequency;
  current_poll_seconds = frequency_seconds frequency;
}

abbrev pub frequency_value : FetchFrequency → String
frequency_value manual = "manual"
frequency_value every_15_minutes = "every_15_minutes"
frequency_value hourly = "hourly"
frequency_value every_6_hours = "every_6_hours"
frequency_value daily = "daily"

abbrev pub source_event :
    String → String → Uuid → List (String × Json) → Instant → Uuid → IntegrationEvent
source_event event_type aggregate_type aggregate_id payload clock event_id = record {
  event_id = event_id;
  event_type = event_type;
  event_version = 1;
  aggregate_type = aggregate_type;
  aggregate_id = aggregate_id;
  payload = payload;
  occurred_at = clock;
  producer = "source-api";
  correlation_id = none;
  causation_id = none;
  traceparent = none;
  idempotency_key = record { prefix = event_type; ids = aggregate_id ∷ [] };
}

-- _add_outbox; writing an event draws its identifier.
abbrev pub emit_source : (Uuid → IntegrationEvent) → Tables → Tables
emit_source event t = record t {
  outbox = add_outbox (event t.next_id) t.outbox;
  next_id = suc t.next_id;
}

abbrev pub error : String → String → Error
error class message = record { class = other class; message = message }

-- _fetch_target_publishers; the order of the rows is that of the table.
unfoldable pub fetch_target_publishers : Option Uuid → Tables → List Uuid
fetch_target_publishers none t =
    map publisher_key (keep (λ (p : PublisherModel). p.active) t.publishers)
fetch_target_publishers (some id) t =
    map publisher_key (keep (λ (p : PublisherModel). p.active && p.id == id) t.publishers)

abbrev new_fetch_job : Uuid → Option Uuid → List Uuid → Instant → FetchJobModel
new_fetch_job id publisher_id publisher_ids now = record {
  id = id;
  publisher_id = publisher_id;
  job_type = if is_none publisher_id then "all" else "publisher";
  status = "scheduled";
  publishers_total = length publisher_ids;
  publishers_processed = 0;
  urls_discovered = 0;
  articles_queued = 0;
  articles_extracted = 0;
  duplicates_skipped = 0;
  failed_articles = 0;
  message =
      some "Discovery channels scheduled. Poller and article worker will process asynchronously.";
  publisher_ids = publisher_ids;
  created_at = now;
  started_at = some now;
  completed_at = none;
  updated_at = now;
}

-- The statements of create_fetch_job for the publishers that it finds.
unfoldable pub schedule_fetch : Option Uuid → List Uuid → Instant → Tables → Tables × FetchJobModel
schedule_fetch publisher_id publisher_ids now t =
    let job = new_fetch_job t.next_id publisher_id publisher_ids now in
    (
      emit_source
          (source_event "fetch.job_scheduled" "fetch_job" job.id
            (("job_id", uuid job.id)
              ∷ ("publisher_id", json_option uuid publisher_id)
              ∷ ("publisher_ids", uuids publisher_ids)
              ∷ [])
            now)
          (record t {
            fetch_jobs = t.fetch_jobs ++ job ∷ [];
            channels =
                update_where
                  (λ (c : DiscoveryChannel). elem c.publisher_id publisher_ids && c.active)
                  (λ (c : DiscoveryChannel). record c { next_poll_at = some now; updated_at = now })
                  t.channels;
            publishers =
                update_where (λ (p : PublisherModel). elem p.id publisher_ids)
                  (λ (p : PublisherModel). record p {
                    last_fetched_at = some now;
                    updated_at = now;
                  })
                  t.publishers;
            next_id = suc t.next_id;
          }),
      job,
    )

abbrev pub no_target : (Uuid → String) → Option Uuid → Error
no_target describe none = error "PublisherNotFoundError" "no active publishers are configured"
no_target describe (some id) =
    error "PublisherNotFoundError" (concat "publisher not found: " (describe id))

unfoldable pub create_fetch_job :
    (Uuid → String) → Option Uuid → Instant → Tables → Result FetchJobView × Tables
create_fetch_job describe publisher_id now t = elim (fetch_target_publishers publisher_id t) [
  | [] ↦ (raised (no_target describe publisher_id), t)
  | id ∷ ids ↦
      let (t', job) = schedule_fetch publisher_id (id ∷ ids) now t in
      (returned (fetch_job_view t' job), t')
]

unfoldable pub get_fetch_job : Uuid → Tables → Option FetchJobView
get_fetch_job id t = elim (find_key (λ (j : FetchJobModel). j.id) id t.fetch_jobs) [
  | none ↦ none
  | some job ↦ some (fetch_job_view t job)
]

unfoldable pub delete_publisher : Uuid → Instant → Tables → Bool × Tables
delete_publisher publisher_id now t = elim (get_publisher publisher_id t) [
  | none ↦ (false, t)
  | some row ↦ (
    true,
    record t {
      publishers =
          update_where (λ (p : PublisherModel). p.id == publisher_id)
            (λ (p : PublisherModel). record p { active = false; updated_at = now }) t.publishers;
      channels =
          update_where (λ (c : DiscoveryChannel). c.publisher_id == publisher_id)
            (λ (c : DiscoveryChannel). record c { active = false; updated_at = now }) t.channels;
    },
  )
]

-- `before` is the order of names in the database.
unfoldable list_publishers : (String → String → Bool) → Tables → List PublisherSourceView
list_publishers before t = map (publisher_source_view t) (
    sort_by (λ (p q : PublisherModel). before p.name q.name)
      (keep (λ (p : PublisherModel). p.active) t.publishers))

-- ===== src/Polling/Poll.antt =====
-- ChannelPollService.poll and _finish of
-- backend/src/newsintel/application/acquisition/polling.py. Their own transactions (start_run and
-- complete) are taken to succeed.
use newzyfy.Prelude.{
  ℕ, ◌+◌, String, Bool, true, false, ◌||◌, Option, none, some, ltb, leb, if◌then◌else◌,
}
use newzyfy.Time.{Instant, seconds}
use newzyfy.Text.{clip, text_or_option}
use newzyfy.Outbox.{Uuid}
use newzyfy.Articles.Types.{ErrorClass, other, Error, type_name, FetchResult}
use newzyfy.Articles.Types
use newzyfy.Articles.World.{Result, returned, raised}
use newzyfy.Acquisition.Rows.{
  DiscoveryChannel, PollRunStatus, succeeded, not_modified, failed, Store,
}
use newzyfy.Polling.Interval.{next_interval_seconds}
use newzyfy.Polling.Channels.{PollRun, start_run, PollCompletion, complete}
use newzyfy.Polling.Payload.{Sources, PollSettings, Counts}
use newzyfy.Polling.Service.{process_payload}

-- What `_finish` is told of the poll.
pub record Report : Type 0 where
  pub status : PollRunStatus
  pub http_status : Option ℕ
  pub was_not_modified : Bool
  pub counts : Counts
  pub response_bytes : ℕ
  pub etag : Option String
  pub last_modified : Option String
  pub error_type : Option String
  pub error_message : Option String

pub record PollResult : Type 0 where
  pub channel_id : Uuid
  pub run_id : Uuid
  pub status : PollRunStatus
  pub discovered_count : ℕ
  pub admitted_count : ℕ
  pub observation_count : ℕ
  pub next_poll_at : Instant

abbrev no_counts : Counts
no_counts = record { discovered = 0; admitted = 0; observations = 0 }

abbrev pub failed_report : Error → Report
failed_report e = record {
  status = failed;
  http_status = none;
  was_not_modified = false;
  counts = no_counts;
  response_bytes = 0;
  etag = none;
  last_modified = none;
  error_type = some (type_name e.class);
  error_message = some (clip 2000 e.message);
}

abbrev pub not_modified_report : DiscoveryChannel → FetchResult → Report
not_modified_report channel page = record {
  status = not_modified;
  http_status = some page.status_code;
  was_not_modified = true;
  counts = no_counts;
  response_bytes = page.body_length;
  etag = text_or_option page.etag channel.etag;
  last_modified = text_or_option page.last_modified channel.last_modified;
  error_type = none;
  error_message = none;
}

abbrev pub succeeded_report : FetchResult → Counts → Report
succeeded_report page counts = record {
  status = succeeded;
  http_status = some page.status_code;
  was_not_modified = false;
  counts = counts;
  response_bytes = page.body_length;
  etag = page.etag;
  last_modified = page.last_modified;
  error_type = none;
  error_message = none;
}

module _ (sources : Sources) (channel : DiscoveryChannel) where
  abbrev pub completion : PollRun → Report → PollCompletion
  completion run report =
      let interval = next_interval_seconds channel report.status report.counts.observations in
      record {
        run_id = run.id;
        channel_id = channel.id;
        trace_id = run.trace_id;
        status = report.status;
        completed_at = sources.completed_at;
        next_poll_at = sources.completed_at + seconds interval;
        current_poll_seconds = interval;
        http_status = report.http_status;
        was_not_modified = report.was_not_modified;
        discovered_count = report.counts.discovered;
        admitted_count = report.counts.admitted;
        observation_count = report.counts.observations;
        response_bytes = report.response_bytes;
        etag = report.etag;
        last_modified = report.last_modified;
        error_type = report.error_type;
        error_message = report.error_message;
      }

  -- _finish
  unfoldable pub finish : PollRun → Report → Store → PollResult × Store
  finish run report s = (
    record {
      channel_id = channel.id;
      run_id = run.id;
      status = report.status;
      discovered_count = report.counts.discovered;
      admitted_count = report.counts.admitted;
      observation_count = report.counts.observations;
      next_poll_at = (completion run report).next_poll_at;
    },
    complete (completion run report) sources.completed_at s,
  )

  -- The `try` block of poll, with the page and the counters.
  unfoldable pub fetch_payload :
      PollSettings → Result FetchResult → Store → Result (FetchResult × Counts) × Store
  fetch_payload settings (raised e) s = (raised e, s)
  fetch_payload settings (returned page) s =
      if newzyfy.Articles.Types.not_modified page
      then (returned (page, no_counts), s)
      else if ltb page.status_code 200 || leb 300 page.status_code
      then (
        raised (record {
          class = other "RuntimeError";
          message = sources.describe_status page.status_code;
        }),
        s,
      )
      else (let (result, s') = process_payload sources settings channel page s in
          elim result [
            | raised e ↦ (raised e, s')
            | returned counts ↦ (returned (page, counts), s')
          ])

  -- What follows the `try` block.
  unfoldable pub conclude :
      PollRun → Result (FetchResult × Counts) → Store → Result PollResult × Store
  conclude run (raised e) s = (raised e, (finish run (failed_report e) s).1)
  conclude run (returned (page, counts)) s =
      let report =
        if newzyfy.Articles.Types.not_modified page
        then not_modified_report channel page
        else succeeded_report page counts in
      let (result, s') = finish run report s in (returned result, s')

  unfoldable pub poll : PollSettings → String → Store → Result PollResult × Store
  poll settings worker_id s =
      let (s1, run) = start_run channel.id worker_id sources.trace_id sources.started_at s in
      let (fetched, s2) =
        fetch_payload settings
          (sources.fetch channel.endpoint_url channel.etag channel.last_modified) s1 in
      conclude run fetched s2

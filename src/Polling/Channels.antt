-- ===== src/Polling/Channels.antt =====
-- The transactions of backend/src/newsintel/infrastructure/db/polling_repository.py on the channels and
-- the poll runs.
use newzyfy.Prelude.{
  ℕ, suc, ◌+◌, String, Bool, true, false, not, ◌&&◌, Option, none, some, List, [], ◌∷◌, ◌++◌, map,
  ltb, leb, ◌==◌, if◌then◌else◌, elem, keep, sort_by, take, update_where, is_none, find_row,
  or_option,
}
use newzyfy.Time.{Instant, seconds}
use newzyfy.Outbox.{Uuid, IntegrationEvent, json_option, uuid, text, number, flag, instant}
use newzyfy.Acquisition.Rows.{
  DiscoveryChannel, PollRunStatus, running, succeeded, not_modified, failed, ChannelPollRunModel,
  Store, channel_key, emit,
}

abbrev due_by : Instant → Option Instant → Bool
due_by now none = false
due_by now (some t) = leb t now

abbrev lease_ended : Instant → Option Instant → Bool
lease_ended now none = true
lease_ended now (some t) = ltb t now

-- The WHERE of lease_due_channels.
unfoldable pub is_due_channel : Instant → DiscoveryChannel → Bool
is_due_channel now row =
    row.active && due_by now row.next_poll_at && lease_ended now row.lease_expires_at

abbrev polled_before : Option Instant → Option Instant → Bool
polled_before (some a) (some b) = ltb a b
polled_before _ _ = false

unfoldable pub select_due_channels :
    (Uuid → Bool) → ℕ → Instant → List DiscoveryChannel → List DiscoveryChannel
select_due_channels locked limit now channels = take limit (
    sort_by (λ (a b : DiscoveryChannel). polled_before a.next_poll_at b.next_poll_at)
      (keep (λ row. is_due_channel now row && not (locked row.id)) channels))

unfoldable pub lease_channel : String → Instant → DiscoveryChannel → DiscoveryChannel
lease_channel worker_id lease_expires_at row = record row {
  lease_owner = some worker_id;
  lease_expires_at = some lease_expires_at;
}

unfoldable pub lease_due_channels :
    (Uuid → Bool) → String → ℕ → ℕ → Instant → Store → Store × List DiscoveryChannel
lease_due_channels locked worker_id limit lease_seconds now s =
    let rows = select_due_channels locked limit now s.channels in
    let lease = lease_channel worker_id (now + seconds lease_seconds) in
    (
      record s {
        channels =
            update_where (λ row. elem (channel_key row) (map channel_key rows)) lease s.channels;
      },
      map lease rows,
    )

unfoldable scheduled_channel : Instant → DiscoveryChannel → DiscoveryChannel
scheduled_channel now row = record row { next_poll_at = some now; updated_at = now }

-- The flag says whether an active channel was updated.
unfoldable schedule_now : Uuid → Instant → Store → Store × Bool
schedule_now channel_id now s =
    let chosen = λ (row : DiscoveryChannel). row.id == channel_id && row.active in
    (
      record s { channels = update_where chosen (scheduled_channel now) s.channels },
      not (is_none (find_row chosen s.channels)),
    )

pub record PollRun : Type 0 where
  pub id : Uuid
  pub channel_id : Uuid
  pub worker_id : String
  pub trace_id : Uuid
  pub started_at : Instant

unfoldable pub start_run : Uuid → String → Uuid → Instant → Store → Store × PollRun
start_run channel_id worker_id trace_id started_at s = (
  record s {
    poll_runs =
        s.poll_runs
        ++ record {
          id = s.next_id;
          channel_id = channel_id;
          worker_id = worker_id;
          status = running;
          started_at = started_at;
          completed_at = none;
          http_status = none;
          was_not_modified = false;
          discovered_count = 0;
          admitted_count = 0;
          observation_count = 0;
          response_bytes = 0;
          error_type = none;
          error_message = none;
          trace_id = trace_id;
        }
          ∷ [];
    next_id = suc s.next_id;
  },
  record {
    id = s.next_id;
    channel_id = channel_id;
    worker_id = worker_id;
    trace_id = trace_id;
    started_at = started_at;
  },
)

-- `was_not_modified` is the field not_modified.
pub record PollCompletion : Type 0 where
  pub run_id : Uuid
  pub channel_id : Uuid
  pub trace_id : Uuid
  pub status : PollRunStatus
  pub completed_at : Instant
  pub next_poll_at : Instant
  pub current_poll_seconds : ℕ
  pub http_status : Option ℕ
  pub was_not_modified : Bool
  pub discovered_count : ℕ
  pub admitted_count : ℕ
  pub observation_count : ℕ
  pub response_bytes : ℕ
  pub etag : Option String
  pub last_modified : Option String
  pub error_type : Option String
  pub error_message : Option String

abbrev has_succeeded : PollRunStatus → Bool
has_succeeded succeeded = true
has_succeeded not_modified = true
has_succeeded _ = false

abbrev status_value : PollRunStatus → String
status_value running = "running"
status_value succeeded = "succeeded"
status_value not_modified = "not_modified"
status_value failed = "failed"

unfoldable pub completed_run : PollCompletion → ChannelPollRunModel → ChannelPollRunModel
completed_run c run = record run {
  status = c.status;
  completed_at = some c.completed_at;
  http_status = c.http_status;
  was_not_modified = c.was_not_modified;
  discovered_count = c.discovered_count;
  admitted_count = c.admitted_count;
  observation_count = c.observation_count;
  response_bytes = c.response_bytes;
  error_type = c.error_type;
  error_message = c.error_message;
}

-- The values that every completion writes to the channel.
abbrev released_channel : PollCompletion → DiscoveryChannel → DiscoveryChannel
released_channel c row = record row {
  next_poll_at = some c.next_poll_at;
  current_poll_seconds = c.current_poll_seconds;
  last_polled_at = some c.completed_at;
  lease_owner = none;
  lease_expires_at = none;
  updated_at = c.completed_at;
}

unfoldable pub completed_channel : PollCompletion → DiscoveryChannel → DiscoveryChannel
completed_channel c row =
    if has_succeeded c.status
    then record (released_channel c row) {
      last_success_at = some c.completed_at;
      consecutive_failures = 0;
      etag = or_option c.etag row.etag;
      last_modified = or_option c.last_modified row.last_modified;
    }
    else record (released_channel c row) { consecutive_failures = suc row.consecutive_failures }

abbrev poll_event : PollCompletion → Instant → Uuid → IntegrationEvent
poll_event c clock event_id =
    let event_type =
      if has_succeeded c.status then "source.poll.completed" else "source.poll.failed" in
    record {
      event_id = event_id;
      event_type = event_type;
      event_version = 1;
      aggregate_type = "discovery_channel";
      aggregate_id = c.channel_id;
      payload =
          ("poll_run_id", uuid c.run_id)
          ∷ ("channel_id", uuid c.channel_id)
          ∷ ("status", text (status_value c.status))
          ∷ ("http_status", json_option number c.http_status)
          ∷ ("not_modified", flag c.was_not_modified)
          ∷ ("discovered_count", number c.discovered_count)
          ∷ ("admitted_count", number c.admitted_count)
          ∷ ("observation_count", number c.observation_count)
          ∷ ("response_bytes", number c.response_bytes)
          ∷ ("next_poll_at", instant c.next_poll_at)
          ∷ ("error_type", json_option text c.error_type)
          ∷ [];
      occurred_at = clock;
      producer = "acquisition-poller";
      correlation_id = some c.trace_id;
      causation_id = none;
      traceparent = none;
      idempotency_key = record { prefix = event_type; ids = c.run_id ∷ [] };
    }

unfoldable pub complete : PollCompletion → Instant → Store → Store
complete c clock s = emit (poll_event c clock) (record s {
  poll_runs =
      update_where (λ (run : ChannelPollRunModel). run.id == c.run_id) (completed_run c)
        s.poll_runs;
  channels = update_where (λ row. channel_key row == c.channel_id) (completed_channel c) s.channels;
})

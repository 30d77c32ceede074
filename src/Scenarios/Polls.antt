-- ===== src/Scenarios/Polls.antt =====
-- A feed with two entries that is leased and polled.
use newzyfy.Prelude.{
  ℕ, ◌+◌, ◌≤◌, ◌≡◌, ◌≢◌, ◌⊎◌, refl, Bool, true, false, none, some, [], ◌∷◌, arith, All, IsKey,
  length,
}
use newzyfy.Time.{seconds, hours}
use newzyfy.Outbox.{Uuid}
use newzyfy.Articles.World.{returned}
use newzyfy.Acquisition.Rows.{failed, succeeded, channel_key}
use newzyfy.Polling.Interval.{next_interval_seconds, next_interval_seconds_range}
use newzyfy.Polling.Channels.{lease_due_channels}
use newzyfy.Polling.Leasing.{IsLeased, lease_due_channels_grants}
use newzyfy.Polling.Payload.{FeedItem, Sources, PollSettings, Item}
use newzyfy.Polling.Admitted.{poll-IsWithin}
use newzyfy.Polling.Poll.{poll}
use newzyfy.Polling.Outcome.{IsPolled, poll-IsPolled}
use newzyfy.Scenarios.Discovery.{channel, empty_frontier, canonicalize}
use newzyfy.Scenarios.Pipeline.{page}

next_interval_seconds_range_example :
    let interval = next_interval_seconds channel succeeded 0 in
    (60 ≤ interval)
    × (interval ≤ 3600)
    × (((1 ≤ 0) × (succeeded ≢ failed) × (interval ≡ 60))
        ⊎ (((◌≡◌ {A = ℕ} 0 0) ⊎ (succeeded ≡ failed)) × (300 ≤ interval)))
next_interval_seconds_range_example =
    next_interval_seconds_range channel succeeded 0 (omega arith) (omega arith)

abbrev free : Uuid → Bool
free _ = false

one_channel-IsKey : IsKey channel_key empty_frontier.channels
one_channel-IsKey = (tt, tt)

lease_due_channels_grants_example :
    let (s', channels) = lease_due_channels free "poller" 5 120 (hours 1000) empty_frontier in
    (length channels ≤ 5)
    × All (IsLeased free "poller" 5 120 (hours 1000) empty_frontier one_channel-IsKey s') channels
lease_due_channels_grants_example =
    lease_due_channels_grants free "poller" 5 120 (hours 1000) empty_frontier one_channel-IsKey

abbrev entry : FeedItem
entry = record {
  url = "https://example.org/2026/11/story";
  external_id = none;
  title = some "Story";
  published_at_raw = some "today";
}

abbrev sources : Sources
sources = record {
  started_at = hours 1000;
  clock = hours 1000;
  completed_at = hours 1000 + seconds 5;
  trace_id = 98;
  fetch = λ url etag modified. returned page;
  parse_feed = λ body url. returned (entry ∷ entry ∷ []);
  parse_feed_datetime = λ raw. some (hours 998);
  parse_sitemap = λ body. returned (record { is_index = false; entries = [] });
  discover_links = λ body url. returned [];
  canonicalize = canonicalize;
  canonicalize_endpoint = canonicalize;
  url_tests = record { has_excluded_segment = λ url. false; looks_like_article_url = λ url. true };
  describe = λ e. "refused";
  describe_status = λ n. "status";
}

abbrev settings : PollSettings
settings = record { recent_article_window_hours = 48; max_new_urls_per_channel_poll = 1 }

abbrev item : Item
item = record {
  url = "https://example.org/2026/11/story";
  external_id = none;
  title = none;
  published_at = some (hours 998);
  published_at_raw = none;
}

poll-IsWithin_example :
    let (r, s') = poll sources channel settings "poller" empty_frontier in
    (0 ≤ length s'.candidates) × (length s'.candidates ≤ 0 + settings.max_new_urls_per_channel_poll)
poll-IsWithin_example = poll-IsWithin sources settings channel "poller" empty_frontier

poll-IsPolled_example :
    let (r, s') = poll sources channel settings "poller" empty_frontier in
    IsPolled sources settings channel channel r s'
poll-IsPolled_example = poll-IsPolled sources settings channel channel "poller" empty_frontier refl

-- ===== src/Scenarios/Discovery.antt =====
-- A feed item that is observed for the first time, and then again.
use newzyfy.Prelude.{◌≡◌, refl, String, true, Option, none, some, [], ◌∷◌}
use newzyfy.Time.{hours}
use newzyfy.Acquisition.Frontier.{rss}
use newzyfy.Acquisition.Rows.{DiscoveryChannel, Store}
use newzyfy.Acquisition.Service.{ok, CanonicalUrl}
use newzyfy.Acquisition.Observation.{
  ObserveDiscoveryCommand, DiscoveryObservationResult, record_observation, observe_discovery,
}
use newzyfy.Acquisition.Repeats.{IsRepeat, observe_discovery_again}

abbrev pub channel : DiscoveryChannel
channel = record {
  id = 2;
  publisher_id = 1;
  channel_type = rss;
  endpoint_url = "https://example.org/feed";
  strategy_version = "bootstrap-v1";
  active = true;
  next_poll_at = some (hours 999);
  poll_min_seconds = 60;
  poll_max_seconds = 3600;
  current_poll_seconds = 300;
  etag = none;
  last_modified = none;
  last_polled_at = none;
  last_success_at = none;
  lease_owner = none;
  lease_expires_at = none;
  consecutive_failures = 0;
  created_at = hours 900;
  updated_at = hours 900;
}

abbrev pub empty_frontier : Store
empty_frontier = record {
  publishers = [];
  channels = channel ∷ [];
  candidates = [];
  discoveries = [];
  poll_runs = [];
  outbox = [];
  next_id = 10;
}

abbrev item : ObserveDiscoveryCommand
item = record {
  channel_id = 2;
  url = "https://example.org/2026/11/story?utm_source=feed";
  external_id = none;
  title = some "Story";
  published_at = some (hours 998);
  published_at_raw = none;
  discovered_at = none;
  channel_position = some 0;
  payload_sha256 = none;
}

abbrev pub canonicalize : String → Option CanonicalUrl
canonicalize url =
    some (record { normalized = "https://example.org/2026/11/story"; fingerprint = "f1" })

abbrev observed : Store × DiscoveryObservationResult
observed =
    record_observation channel
      (record { normalized = "https://example.org/2026/11/story"; fingerprint = "f1" }) item none
      none (hours 1000) (hours 1000) empty_frontier

observe_discovery_again_example :
    (s2 : Store) × (r' : DiscoveryObservationResult) × (observe_discovery canonicalize item none
        none
        (hours 1001)
        observed.0
      ≡ ok (s2, r'))
    × IsRepeat observed.1.candidate_id observed.0 s2 r'
unfolding observe_discovery
observe_discovery_again_example =
    observe_discovery_again canonicalize item none none (hours 1000) (hours 1001) empty_frontier
      observed.0 observed.1 refl

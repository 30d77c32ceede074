-- ===== src/Polling/Leasing.antt =====
-- What lease_due_channels and complete do to the channels.
use mathlib.Core.Option
use newzyfy.Prelude.{
  ℕ, ◌+◌, ◌≤◌, ◌≡◌, refl, ◌∙◌, length, length-map, length-take_le, String, Bool, true, false, not,
  ◌&&◌, some, List, map, arith, elem, keep, ◌==◌, ==_refl, All, All-map, All-take, All-keep,
  All-sort_by, All-image, All-zip, elem-map-key, IsKey, find_key-IsKey, find_key-update_where,
}
use newzyfy.Time.{Instant, seconds}
use newzyfy.Outbox.{Uuid}
use newzyfy.Acquisition.Rows.{DiscoveryChannel, Store, channel_key, get_channel}
use newzyfy.Polling.Channels.{
  is_due_channel, select_due_channels, lease_channel, lease_due_channels, PollCompletion,
  completed_channel, complete,
}

module _ (locked : Uuid → Bool) (worker_id : String) (limit lease_seconds : ℕ) (now : Instant)
    (s : Store) (key : IsKey channel_key s.channels) where
  abbrev rows : List DiscoveryChannel
  rows = select_due_channels locked limit now s.channels

  abbrev lease : DiscoveryChannel → DiscoveryChannel
  lease = lease_channel worker_id (now + seconds lease_seconds)

  -- The row is stored, due and free.
  abbrev IsFree : DiscoveryChannel → Type 0
  IsFree row =
      (get_channel row.id s ≡ some row) × (is_due_channel now row ≡ true) × (locked row.id ≡ false)

  rows-IsFree : All IsFree rows
  unfolding select_due_channels
  rows-IsFree = All-take IsFree limit _ (
      All-sort_by IsFree _ _ (
        All-map _ IsFree (λ r p. (p.0, ground arith, ground arith))
          (keep (λ row. is_due_channel now row && not (locked row.id)) s.channels)
          (All-keep (λ r. get_channel r.id s ≡ some r) _ s.channels
            (find_key-IsKey channel_key s.channels key))))

  -- A channel that a worker is given: the stored channel with this identifier was due and free, and
  -- differs from it in the lease only, which is the worker's; it is stored now as it was given.
  abbrev pub IsLeased : Store → DiscoveryChannel → Type 0
  IsLeased s' channel =
      (row : DiscoveryChannel) × (get_channel channel.id s ≡ some row)
      × (is_due_channel now row ≡ true)
      × (locked channel.id ≡ false)
      × (channel.lease_owner ≡ some worker_id)
      × (channel.lease_expires_at ≡ some (now + seconds lease_seconds))
      × (record channel { lease_owner = row.lease_owner; lease_expires_at = row.lease_expires_at }
          ≡ row)
      × (get_channel channel.id s' ≡ some channel)

  row-IsLeased :
      (row : DiscoveryChannel)
      → elem row.id (map channel_key rows) ≡ true
      → IsFree row
      → IsLeased (lease_due_channels locked worker_id limit lease_seconds now s).0 (lease row)
  unfolding lease_due_channels lease_channel
  row-IsLeased row listed (stored, due, free) = (
    row,
    stored,
    due,
    free,
    refl,
    refl,
    refl,
    find_key-update_where channel_key lease (λ k. elem k (map channel_key rows)) row.id (λ _. refl)
          s.channels
        ∙ rw (listed, stored) refl,
  )

  -- Where identifiers are a key of the channels, a worker is given at most `limit` channels. Each was
  -- stored, due and not locked, and is stored now as it was given: its lease is the worker's and ends
  -- the given seconds from now, and all else is as it was.
  pub lease_due_channels_grants :
      let (s', channels) = lease_due_channels locked worker_id limit lease_seconds now s in
      (length channels ≤ limit) × All (IsLeased s') channels
  unfolding lease_due_channels
  lease_due_channels_grants = (
    rw (length-map lease rows) selected-length,
    All-image (IsLeased (lease_due_channels locked worker_id limit lease_seconds now s).0) lease
        rows
        (All-zip (λ row. elem row.id (map channel_key rows) ≡ true) IsFree
          (λ row.
            IsLeased (lease_due_channels locked worker_id limit lease_seconds now s).0 (lease row))
          row-IsLeased rows (elem-map-key channel_key rows) rows-IsFree),
  )
    where
      selected-length : length rows ≤ limit
      selected-length = unfold select_due_channels in length-take_le limit _

channel_key-completed_channel :
    (c : PollCompletion) (row : DiscoveryChannel)
    → channel_key (completed_channel c row) ≡ channel_key row
unfolding completed_channel
channel_key-completed_channel c row = ground arith

-- The channel of a completion after it.
pub get_channel-complete :
    (c : PollCompletion) (clock : Instant) (s : Store)
    → get_channel c.channel_id (complete c clock s)
      ≡ Option.map (completed_channel c) (get_channel c.channel_id s)
unfolding complete
get_channel-complete c clock s =
    rw
      (
        find_key-update_where channel_key (completed_channel c) (λ k. k == c.channel_id)
            c.channel_id (channel_key-completed_channel c) s.channels,
        ==_refl c.channel_id,
      )
      refl

-- ===== src/Outbox/Relay.antt =====
-- publish_pending_outbox_once of backend/src/newsintel/workers/outbox.py: one transaction that hands
-- the oldest unpublished events to the consumer's inbox and marks them as published.
use newzyfy.Prelude.{
  ℕ, suc, String, Bool, ◌&&◌, not, List, [], ◌∷◌, ◌++◌, some, str_eq, ltb, ◌==◌, if◌then◌else◌,
  find_row, update_where, keep, sort_by, take, length, is_none,
}
use newzyfy.Time.{Instant}
use newzyfy.Outbox.{Uuid, OutboxEventModel, ConsumerInboxModel}

abbrev consumer_name : String
consumer_name = "local-outbox-relay"

abbrev handler_version : String
handler_version = "local-outbox-relay-v1"

-- The two tables, and the next fresh identifier.
pub record State : Type 0 where
  pub outbox : List OutboxEventModel
  pub inbox : List ConsumerInboxModel
  pub next_id : Uuid

-- WHERE published_at IS NULL, without the rows that other transactions have locked.
abbrev pub is_pending : (Uuid → Bool) → OutboxEventModel → Bool
is_pending locked row = is_none row.published_at && not (locked row.event.event_id)

unfoldable pub select_pending : (Uuid → Bool) → ℕ → List OutboxEventModel → List OutboxEventModel
select_pending locked batch_size outbox =
    take batch_size (
      sort_by (λ a b. ltb a.event.occurred_at b.event.occurred_at)
        (keep (is_pending locked) outbox))

abbrev pub is_delivery : Uuid → ConsumerInboxModel → Bool
is_delivery event_id row = str_eq row.consumer_name consumer_name && row.event_id == event_id

abbrev pub inbox_entry : Instant → Uuid → OutboxEventModel → ConsumerInboxModel
inbox_entry now id row = record {
  id = id;
  consumer_name = consumer_name;
  event_id = row.event.event_id;
  event_type = row.event.event_type;
  processed_at = now;
  handler_version = handler_version;
}

-- INSERT … ON CONFLICT DO NOTHING on (consumer_name, event_id).
unfoldable pub add_inbox : Instant → OutboxEventModel → State → State
add_inbox now row s =
    if is_none (find_row (is_delivery row.event.event_id) s.inbox)
    then record s { inbox = s.inbox ++ inbox_entry now s.next_id row ∷ []; next_id = suc s.next_id }
    else record s { next_id = suc s.next_id }

unfoldable pub mark_published : Instant → Uuid → List OutboxEventModel → List OutboxEventModel
mark_published now event_id outbox =
    update_where (λ row. row.event.event_id == event_id)
      (λ row. record row { published_at = some now }) outbox

-- The body of the `for` loop.
unfoldable pub publish_event : Instant → OutboxEventModel → State → State
publish_event now row s =
    let s' = add_inbox now row s in
    record s' { outbox = mark_published now row.event.event_id s'.outbox }

unfoldable pub publish_events : Instant → List OutboxEventModel → State → State
publish_events now [] s = s
publish_events now (row ∷ rows) s = publish_events now rows (publish_event now row s)

-- The count that the worker sees is the number of rows selected.
unfoldable pub publish_pending_outbox_once : (Uuid → Bool) → ℕ → Instant → State → State × ℕ
publish_pending_outbox_once locked batch_size now s =
    let events = select_pending locked batch_size s.outbox in
    (publish_events now events s, length events)

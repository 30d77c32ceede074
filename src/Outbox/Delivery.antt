-- ===== src/Outbox/Delivery.antt =====
-- What the outbox relay guarantees, one run after another: exactly one delivery for each published
-- event, and progress of a run by its batch.
use newzyfy.Prelude.{
  ℕ, ◌≤◌, ◌≡◌, refl, ◌≢◌, inl, inr, Bool, none, some, List, [], ◌∷◌, arith, ◌==◌, ==_iff,
  if◌then◌else◌, Bool-cases, find_row, keep, length, All, All-update_where, is_none,
  length-keep-append,
}
use newzyfy.Time.{Instant}
use newzyfy.Outbox.{Uuid, OutboxEventModel, ConsumerInboxModel}
use newzyfy.Outbox.Relay.{
  State, select_pending, is_delivery, inbox_entry, add_inbox, mark_published, publish_event,
  publish_events, publish_pending_outbox_once,
}

-- How often the consumer's inbox holds an event.
abbrev deliveries : Uuid → List ConsumerInboxModel → ℕ
deliveries event_id inbox = length (keep (is_delivery event_id) inbox)

-- A published event stands in the inbox, and no event stands there twice.
pub record IsDelivered (s : State) : Type 0 where
  pub once : (event_id : Uuid) → deliveries event_id s.inbox ≤ 1
  pub delivered :
      All (λ row. row.published_at ≢ none → deliveries row.event.event_id s.inbox ≡ 1) s.outbox

module _ (event_id : Uuid) where
  find_row-deliveries :
      (inbox : List ConsumerInboxModel)
      → is_none (find_row (is_delivery event_id) inbox) ≡ (deliveries event_id inbox == 0)
  find_row-deliveries [] = refl
  find_row-deliveries (row ∷ inbox) = elim (Bool-cases (is_delivery event_id row)) [
    | inl e ↦ rw e (ground arith)
    | inr e ↦ rw e (find_row-deliveries inbox)
  ]

-- After the insert the event stands in the inbox once, and the other events as often as before.
deliveries-add_inbox :
    (now : Instant) (row : OutboxEventModel) (s : State) (event_id : Uuid)
    → deliveries event_id s.inbox ≤ 1
    → deliveries event_id (add_inbox now row s).inbox
      ≡ (if row.event.event_id == event_id then 1 else deliveries event_id s.inbox)
unfolding add_inbox
deliveries-add_inbox now row s event_id h =
    let entry : ConsumerInboxModel = inbox_entry now s.next_id row in
    let grown = length-keep-append (is_delivery event_id) s.inbox (entry ∷ []) in
    let found = find_row-deliveries row.event.event_id s.inbox in
    elim (Bool-cases (row.event.event_id == event_id)) [
      | inl same ↦
          let e : row.event.event_id ≡ event_id = (==_iff row.event.event_id event_id).0 same in
          ground (arith, grown, found, e)
      | inr other ↦ ground (arith, grown, found)
    ]

pub outbox-add_inbox :
    (now : Instant) (row : OutboxEventModel) (s : State) → (add_inbox now row s).outbox ≡ s.outbox
unfolding add_inbox
outbox-add_inbox now row s = ground arith

publish_event-IsDelivered :
    (now : Instant) (row : OutboxEventModel) (s : State)
    → IsDelivered s
    → IsDelivered (publish_event now row s)
unfolding publish_event mark_published
publish_event-IsDelivered now row s d = record {
  once = λ e. ground (arith, deliveries-add_inbox now row s e (d.once e), d.once e);
  delivered =
      All-update_where (λ r. r.published_at ≢ none → deliveries r.event.event_id s.inbox ≡ 1)
        (λ r. r.published_at ≢ none → deliveries r.event.event_id (add_inbox now row s).inbox ≡ 1)
        (λ r. r.event.event_id == row.event.event_id) (λ r. record r { published_at = some now })
        (λ r e k p. ground (arith, deliveries-add_inbox now row s r.event.event_id (d.once _)))
        (λ r e k p. ground (arith, deliveries-add_inbox now row s r.event.event_id (d.once _), k p))
        (add_inbox now row s).outbox (rw (outbox-add_inbox now row s) d.delivered);
}

publish_events-IsDelivered :
    (now : Instant) (rows : List OutboxEventModel) (s : State)
    → IsDelivered s
    → IsDelivered (publish_events now rows s)
unfolding publish_events
publish_events-IsDelivered now [] s d = d
publish_events-IsDelivered now (row ∷ rows) s d =
    publish_events-IsDelivered now rows (publish_event now row s)
      (publish_event-IsDelivered now row s d)

-- A run of the relay, with any rows locked by others and any batch size, keeps this: each published
-- event stands in the consumer's inbox exactly once, and no event stands there twice.
pub publish_pending_outbox_once-IsDelivered :
    (locked : Uuid → Bool) (batch_size : ℕ) (now : Instant) (s : State)
    → IsDelivered s
    → IsDelivered (publish_pending_outbox_once locked batch_size now s).0
unfolding publish_pending_outbox_once
publish_pending_outbox_once-IsDelivered locked batch_size now s d =
    publish_events-IsDelivered now (select_pending locked batch_size s.outbox) s d

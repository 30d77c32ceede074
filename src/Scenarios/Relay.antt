-- ===== src/Scenarios/Relay.antt =====
-- Two events and a relay that has delivered the first of them.
use newzyfy.Prelude.{◌+◌, ◌≡◌, refl, min, Bool, false, none, some, [], ◌∷◌, arith, IsKey}
use newzyfy.Outbox.{Uuid, IntegrationEvent, OutboxEventModel}
use newzyfy.Outbox.Relay.{State, inbox_entry, publish_pending_outbox_once, select_pending}
use newzyfy.Outbox.Delivery.{IsDelivered, publish_pending_outbox_once-IsDelivered}
use newzyfy.Outbox.Progress.{
  event_key, nothing_locked, pending_count, publish_pending_outbox_once_progress,
}

abbrev event_of : Uuid → IntegrationEvent
event_of id = record {
  event_id = id;
  event_type = "article.ingested";
  event_version = 1;
  aggregate_type = "article";
  aggregate_id = 5;
  payload = [];
  occurred_at = id;
  producer = "article-processor";
  correlation_id = none;
  causation_id = none;
  traceparent = none;
  idempotency_key = record { prefix = "article.ingested"; ids = id ∷ [] };
}

abbrev delivered_row : OutboxEventModel
delivered_row = record { event = event_of 1; published_at = some 10 }

abbrev pending_row : OutboxEventModel
pending_row = record { event = event_of 2; published_at = none }

abbrev one_delivered : State
one_delivered = record {
  outbox = delivered_row ∷ pending_row ∷ [];
  inbox = inbox_entry 10 20 delivered_row ∷ [];
  next_id = 21;
}

abbrev free : Uuid → Bool
free _ = false

-- A run with room for three takes the one event that is left.
relay_test : (publish_pending_outbox_once free 3 30 one_delivered).1 ≡ 1
unfolding publish_pending_outbox_once select_pending
relay_test = refl

one_delivered-IsDelivered : IsDelivered one_delivered
one_delivered-IsDelivered = record {
  once = λ e. ground arith;
  delivered = ((λ p. refl), ((λ p. absurd (p refl)), tt));
}

publish_pending_outbox_once-IsDelivered_example :
    IsDelivered (publish_pending_outbox_once free 3 30 one_delivered).0
publish_pending_outbox_once-IsDelivered_example =
    publish_pending_outbox_once-IsDelivered free 3 30 one_delivered one_delivered-IsDelivered

one_delivered-IsKey : IsKey event_key one_delivered.outbox
one_delivered-IsKey = ((omega arith, tt), (tt, tt))

publish_pending_outbox_once_progress_example :
    let (after, count) = publish_pending_outbox_once nothing_locked 3 30 one_delivered in
    (count ≡ min 3 (pending_count one_delivered.outbox))
    × (pending_count after.outbox + count ≡ pending_count one_delivered.outbox)
publish_pending_outbox_once_progress_example =
    publish_pending_outbox_once_progress 30 3 one_delivered one_delivered-IsKey

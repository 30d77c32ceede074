-- ===== src/Outbox.antt =====
-- Integration events and the transactional outbox: backend/src/newsintel/contracts/events.py,
-- OutboxEventModel and ConsumerInboxModel of backend/src/newsintel/infrastructure/db/models.py, the
-- insert with ON CONFLICT DO NOTHING that every repository makes, and the relay of
-- backend/src/newsintel/workers/outbox.py.
-- A UUID is a number. An idempotency key is kept as its text prefix and the identifiers behind it.
pub mod Relay
pub mod Delivery
pub mod Progress
use newzyfy.Prelude.{
  ℕ, zero, suc, String, Bool, true, false, ◌&&◌, Option, none, some, List, [], ◌∷◌, ◌++◌, str_eq,
  ◌==◌, if◌then◌else◌, find_row, is_none,
}
use newzyfy.Time.{Instant}

abbrev pub Uuid : Type 0
Uuid = ℕ

-- The JSON values that the payloads hold.
pub data Json : Type 0 where
  null : Json
  flag : Bool → Json
  number : ℕ → Json
  text : String → Json
  uuid : Uuid → Json
  instant : Instant → Json
  uuids : List Uuid → Json
  texts : List String → Json

abbrev pub json_option {ℓ} : {A : Type ℓ} → (A → Json) → Option A → Json
json_option f none = null
json_option f (some a) = f a

pub record IdempotencyKey : Type 0 where
  pub prefix : String
  pub ids : List Uuid

abbrev uuids_eq : List Uuid → List Uuid → Bool
uuids_eq [] [] = true
uuids_eq (x ∷ xs) (y ∷ ys) = x == y && uuids_eq xs ys
uuids_eq _ _ = false

abbrev key_eq : IdempotencyKey → IdempotencyKey → Bool
key_eq a b = str_eq a.prefix b.prefix && uuids_eq a.ids b.ids

pub record IntegrationEvent : Type 0 where
  pub event_id : Uuid
  pub event_type : String
  pub event_version : ℕ
  pub aggregate_type : String
  pub aggregate_id : Uuid
  pub payload : List (String × Json)
  pub occurred_at : Instant
  pub producer : String
  pub correlation_id : Option Uuid
  pub causation_id : Option Uuid
  pub traceparent : Option String
  pub idempotency_key : IdempotencyKey

pub record OutboxEventModel : Type 0 where
  pub event : IntegrationEvent
  pub published_at : Option Instant

pub record ConsumerInboxModel : Type 0 where
  pub id : Uuid
  pub consumer_name : String
  pub event_id : Uuid
  pub event_type : String
  pub processed_at : Instant
  pub handler_version : String

-- INSERT … ON CONFLICT DO NOTHING on the unique idempotency key.
unfoldable pub add_outbox : IntegrationEvent → List OutboxEventModel → List OutboxEventModel
add_outbox event outbox =
    if is_none (find_row (λ row. key_eq row.event.idempotency_key event.idempotency_key) outbox)
    then outbox ++ record { event = event; published_at = none } ∷ []
    else outbox

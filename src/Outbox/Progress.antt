-- ===== src/Outbox/Progress.antt =====
-- A run of the outbox relay takes its batch off the backlog.
use newzyfy.Prelude.{
  ℕ, ◌+◌, ◌≡◌, refl, subst, ap, ◌≢◌, inl, inr, Bool, false, none, some, List, [], ◌∷◌, min, arith,
  ◌==◌, ==_iff, Bool-cases, find_key, keep, length, All, All-map, All-zip, All-keep, All-sort_by,
  All-take, IsKey, find_key-IsKey, find_key-update_where, update_where_absent, IsKey-keep,
  IsKey-sort_by, IsKey-take, IsKey-update_where, length-take, length-sort_by,
}
use newzyfy.Time.{Instant}
use newzyfy.Outbox.{Uuid, OutboxEventModel}
use newzyfy.Outbox.Delivery.{outbox-add_inbox}
use newzyfy.Outbox.Relay.{
  State, is_pending, select_pending, mark_published, publish_event, publish_events,
  publish_pending_outbox_once,
}

abbrev pub event_key : OutboxEventModel → ℕ
event_key row = row.event.event_id

abbrev pub nothing_locked : Uuid → Bool
nothing_locked _ = false

-- The number of events still to be published.
abbrev pub pending_count : List OutboxEventModel → ℕ
pending_count outbox = length (keep (is_pending nothing_locked) outbox)

-- Marking one pending row takes it off the count.
pending_count-mark_published :
    (now : Instant) (row : OutboxEventModel) (outbox : List OutboxEventModel)
    → IsKey event_key outbox
    → find_key event_key (event_key row) outbox ≡ some row
    → row.published_at ≡ none
    → pending_count (mark_published now (event_key row) outbox) + 1 ≡ pending_count outbox
unfolding mark_published
pending_count-mark_published now row [] key found h = cc
pending_count-mark_published now row (x ∷ xs) key found h =
    elim (Bool-cases (event_key x == event_key row)) [
      | inl e ↦
          let x_row : x ≡ row = ground arith in
          let ids : event_key x ≡ event_key row = (==_iff _ _).0 e in
          let same =
            update_where_absent event_key
              (λ (r : OutboxEventModel). record r { published_at = some now }) (event_key row) xs
              (subst (λ k. All (λ r. event_key r ≢ k) xs) ids key.0) in
          rw (e, same) (ground arith)
      | inr e ↦ ground (arith, pending_count-mark_published now row xs key.1)
    ]

-- The row is the one stored under its key, and is still to be published.
abbrev IsWaiting : List OutboxEventModel → OutboxEventModel → Type 0
IsWaiting outbox row =
    (find_key event_key (event_key row) outbox ≡ some row) × (row.published_at ≡ none)

module _ (now : Instant) where
  outbox-publish_event :
      (row : OutboxEventModel) (s : State)
      → (publish_event now row s).outbox ≡ mark_published now (event_key row) s.outbox
  unfolding publish_event
  outbox-publish_event row s = rw (outbox-add_inbox now row s)

  IsWaiting-mark_published :
      (row r : OutboxEventModel) (outbox : List OutboxEventModel)
      → event_key r ≢ event_key row
      → IsWaiting outbox r
      → IsWaiting (mark_published now (event_key row) outbox) r
  unfolding mark_published
  IsWaiting-mark_published row r outbox other (found, waiting) = (
    ground (
      arith,
      find_key-update_where event_key
          (λ (x : OutboxEventModel). record x { published_at = some now }) (λ k. k == event_key row)
          (event_key r) (λ x. refl) outbox,
    ),
    waiting,
  )

  IsKey-mark_published :
      (row : OutboxEventModel) (outbox : List OutboxEventModel)
      → IsKey event_key outbox
      → IsKey event_key (mark_published now (event_key row) outbox)
  unfolding mark_published
  IsKey-mark_published row outbox = IsKey-update_where event_key _ _ (λ x. refl) outbox

  pending_count-publish_events :
      (rows : List OutboxEventModel) (s : State)
      → IsKey event_key s.outbox
      → IsKey event_key rows
      → All (IsWaiting s.outbox) rows
      → pending_count (publish_events now rows s).outbox + length rows ≡ pending_count s.outbox
  unfolding publish_events
  pending_count-publish_events [] s key keys h = omega arith
  pending_count-publish_events (row ∷ rows) s key keys (first, rest) =
      let after = mark_published now (event_key row) s.outbox in
      let e = outbox-publish_event row s in
      let waiting : All (IsWaiting after) rows =
        All-zip (λ r. event_key r ≢ event_key row) (IsWaiting s.outbox) (IsWaiting after)
          (λ r other w. IsWaiting-mark_published row r s.outbox other w) rows keys.0 rest in
      let step = pending_count-mark_published now row s.outbox key first.0 first.1 in
      let later =
        pending_count-publish_events rows (publish_event now row s)
          (rw e (IsKey-mark_published row s.outbox key)) keys.1 (rw e waiting) in
      omega (arith, step, later, ap pending_count e)

module _ (now : Instant) (batch_size : ℕ) (s : State) (key : IsKey event_key s.outbox) where
  abbrev selected : List OutboxEventModel
  selected = select_pending nothing_locked batch_size s.outbox

  selected-length : length selected ≡ min batch_size (pending_count s.outbox)
  unfolding select_pending
  selected-length = rw (length-take, length-sort_by)

  selected_keys : IsKey event_key selected
  unfolding select_pending
  selected_keys =
      IsKey-take event_key batch_size _
        (IsKey-sort_by event_key _ _ (IsKey-keep event_key _ s.outbox key))

  selected-IsWaiting : All (IsWaiting s.outbox) selected
  unfolding select_pending
  selected-IsWaiting = All-take (IsWaiting s.outbox) batch_size _ (
      All-sort_by (IsWaiting s.outbox) _ _ (
        All-map _ (IsWaiting s.outbox) (λ r p. (p.0, ground (arith, p.1)))
          (keep (is_pending nothing_locked) s.outbox)
          (All-keep (λ r. find_key event_key (event_key r) s.outbox ≡ some r) _ s.outbox
            (find_key-IsKey event_key s.outbox key))))

  -- Where event identifiers are unique and no row is locked, a run publishes as many events as its
  -- batch holds, or all of them if they are fewer, and takes just that number off the backlog.
  pub publish_pending_outbox_once_progress :
      let (after, count) = publish_pending_outbox_once nothing_locked batch_size now s in
      (count ≡ min batch_size (pending_count s.outbox))
      × (pending_count after.outbox + count ≡ pending_count s.outbox)
  unfolding publish_pending_outbox_once
  publish_pending_outbox_once_progress = (
    selected-length,
    pending_count-publish_events now selected s key selected_keys selected-IsWaiting,
  )

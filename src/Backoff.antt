-- ===== src/Backoff.antt =====
-- How long the workers wait before they try again: retry_at_for_attempt of
-- backend/src/newsintel/application/articles/processing.py and database_retry_delay of
-- backend/src/newsintel/workers/outbox.py.
pub mod Bounds
use newzyfy.Prelude.{
  ℕ, ◌+◌, ◌-◌, ◌*◌, ◌/◌, ◌^◌, min, max, Option, none, some, Bool, ltb, if◌then◌else◌, or_else,
}
use newzyfy.Time.{Instant, seconds}

-- What random.uniform(-j, j) drew: a signed number of microseconds.
pub data Draw : Type 0 where
  ahead : ℕ → Draw
  behind : ℕ → Draw

abbrev pub draw_size : Draw → ℕ
draw_size (ahead k) = k
draw_size (behind k) = k

-- A sum below 0 counts as 0 here; the caller takes the larger of it and one second.
abbrev add_draw : ℕ → Draw → ℕ
add_draw delay (ahead k) = delay + k
add_draw delay (behind k) = delay - k

-- The delay in seconds, before the jitter.
unfoldable pub base_delay : ℕ → ℕ → ℕ → ℕ
base_delay attempt_count base_seconds max_seconds =
    min max_seconds (base_seconds * 2 ^ min (attempt_count - 1) 10)

-- The jitter ratio is given in thousandths, and `uniform j` is the number drawn from [-j, j].
unfoldable pub jittered : (ℕ → Draw) → ℕ → ℕ → ℕ
jittered uniform delay jitter_permille =
    if ltb 0 jitter_permille
    then max (seconds 1) (add_draw delay (uniform (delay * min jitter_permille 1000 / 1000)))
    else delay

-- `none` is the ValueError.
unfoldable pub retry_at_for_attempt :
    (ℕ → Draw) → ℕ → ℕ → ℕ → ℕ → Option Instant → Instant → Option Instant
unfolding base_delay jittered
retry_at_for_attempt uniform attempt_count base_seconds max_seconds jitter_permille now clock =
    if ltb attempt_count 1
    then none
    else some (
        or_else now clock
        + jittered uniform (seconds (base_delay attempt_count base_seconds max_seconds))
            jitter_permille)

-- The maximum is a float in the source, and microseconds here.
unfoldable database_retry_delay : ℕ → ℕ → ℕ
database_retry_delay attempt maximum = min maximum (seconds (2 ^ min attempt 10))

-- ===== src/Time.antt =====
-- Instants and rounding, as the modules of backend/src/newsintel use datetime and round().
-- An instant is a count of microseconds, the resolution of datetime. The ends of datetime's range
-- (the years 1 and 9999) are not modelled.
use newzyfy.Prelude.{ℕ, ◌+◌, ◌-◌, ◌*◌, ◌/◌, ◌%◌, Option, none, some, ltb, ◌==◌, if◌then◌else◌}

abbrev pub Instant : Type 0
Instant = ℕ

abbrev pub seconds : ℕ → ℕ
seconds n = n * 1000000

abbrev pub hours : ℕ → ℕ
hours n = n * 3600000000

abbrev pub days : ℕ → ℕ
days n = n * 86400000000

-- A datetime without a zone shows a wall clock; one with a zone stands for an instant of UTC.
pub data Datetime : Type 0 where
  naive : ℕ → Datetime
  aware : Instant → Datetime

-- `value.replace(tzinfo=UTC)` or `value.astimezone(UTC)`, and `None` stays `None`.
unfoldable pub normalize_datetime : Option Datetime → Option Instant
normalize_datetime none = none
normalize_datetime (some (naive t)) = some t
normalize_datetime (some (aware t)) = some t

-- Python's round() on the fraction n / d: to the nearest whole number, a half to the even one.
unfoldable pub round_half_even : ℕ → ℕ → ℕ
round_half_even n d =
    let q = n / d in
    let twice = n % d * 2 in
    if ltb twice d then q else if ltb d twice then q + 1 else if q % 2 == 0 then q else q + 1

-- `max(0, round((completed_at - started_at).total_seconds() * 1_000))`: a negative difference
-- counts as 0, which is where the subtraction of natural numbers stops.
unfoldable pub duration_ms : Instant → Instant → ℕ
unfolding round_half_even
duration_ms started_at completed_at = round_half_even (completed_at - started_at) 1000

-- ===== src/Backoff/Bounds.antt =====
-- The delays of retry_at_for_attempt and database_retry_delay stay in their range and grow.
use native.Mathlib.Nat.{pow-suc, mul-le-mul_left}
use newzyfy.Prelude.{
  ℕ, zero, suc, ◌+◌, ◌-◌, ◌*◌, ◌/◌, ◌^◌, ◌≤◌, ◌<◌, ◌≡◌, min, Option, some, arith, ltb, or_else,
  if◌then◌else◌, Bool-cases, inl, inr, ltb→lt,
}
use newzyfy.Time.{Instant, seconds}
use newzyfy.Backoff.{Draw, draw_size, base_delay, jittered, retry_at_for_attempt}

pow2-le : (a b : ℕ) → a ≤ b → 2 ^ a ≤ 2 ^ b
pow2-le zero zero h = omega arith
pow2-le zero (suc b) h = rw pow-suc (omega (arith, pow2-le zero b))
pow2-le (suc a) zero h = absurd (omega arith)
pow2-le (suc a) (suc b) h = rw (pow-suc 2 a, pow-suc 2 b) (omega (arith, pow2-le a b))

one-le-pow2 : (n : ℕ) → 1 ≤ 2 ^ n
one-le-pow2 n = pow2-le 0 n (omega arith)

base_delay-ge_one :
    (n base_seconds max_seconds : ℕ)
    → 1 ≤ base_seconds
    → 1 ≤ max_seconds
    → 1 ≤ base_delay n base_seconds max_seconds
unfolding base_delay
base_delay-ge_one n b m hb hm =
    let h : 1 ≤ b * 2 ^ min (n - 1) 10 = grind (arith, one-le-pow2 (min (n - 1) 10)) in omega arith

base_delay-le :
    (n base_seconds max_seconds : ℕ) → base_delay n base_seconds max_seconds ≤ max_seconds
unfolding base_delay
base_delay-le n b m = omega arith

jitter-le : (d r : ℕ) → d * min r 1000 / 1000 ≤ d
jitter-le d r = let h : d * min r 1000 ≤ d * 1000 = mul-le-mul_left d (omega arith) in omega arith

jittered_range :
    (uniform : ℕ → Draw) (d r : ℕ)
    → ((j : ℕ) → draw_size (uniform j) ≤ j)
    → seconds 1 ≤ d
    → (seconds 1 ≤ jittered uniform d r) × (jittered uniform d r ≤ d * 2)
unfolding jittered
jittered_range uniform d r bound h = ground (arith, jitter-le d r, bound (d * min r 1000 / 1000))

-- For a positive attempt count, a positive base and a positive maximum, and a draw from the range
-- that random.uniform is given, the retry is at least one second and at most twice the maximum
-- after the start, whatever the jitter ratio.
pub retry_at_for_attempt_range :
    (uniform : ℕ → Draw) (attempt_count base_seconds max_seconds jitter_permille : ℕ)
    (now : Option Instant) (clock : Instant)
    → ((j : ℕ) → draw_size (uniform j) ≤ j)
    → 1 ≤ attempt_count
    → 1 ≤ base_seconds
    → 1 ≤ max_seconds
    → (t : Instant) × (retry_at_for_attempt uniform attempt_count base_seconds max_seconds
          jitter_permille now clock
        ≡ some t)
      × (or_else now clock + seconds 1 ≤ t)
      × (t ≤ or_else now clock + seconds max_seconds * 2)
unfolding retry_at_for_attempt
retry_at_for_attempt_range uniform n b m r now clock bound hn hb hm =
    let d : ℕ = seconds (base_delay n b m) in
    let (low, high) =
      jittered_range uniform d r bound (omega (arith, base_delay-ge_one n b m hb hm)) in
    (
      or_else now clock + jittered uniform d r,
      ground arith,
      omega arith,
      omega (arith, base_delay-le n b m),
    )

-- The delay before the jitter doubles from one attempt to the next, up to the maximum, over the
-- first eleven attempts, and stays what it is from then on.
base_delay-suc :
    (n base_seconds max_seconds : ℕ)
    → base_delay (suc (suc n)) base_seconds max_seconds ≡ (
        if ltb n 10
        then min max_seconds (base_delay (suc n) base_seconds max_seconds * 2)
        else base_delay (suc n) base_seconds max_seconds)
unfolding base_delay
base_delay-suc n b m = elim (Bool-cases (ltb n 10)) [
  | inl e ↦ rw e (doubled (ltb→lt n 10 e))
  | inr e ↦ rw e (capped (ground arith))
]
  where
    doubled :
        n < 10
        → min m (b * 2 ^ min (suc (suc n) - 1) 10) ≡ min m (min m (b * 2 ^ min (suc n - 1) 10) * 2)
    doubled h =
        let e : min (suc (suc n) - 1) 10 ≡ suc n = omega arith in
        let f : min (suc n - 1) 10 ≡ n = omega arith in rw (e, f, pow-suc 2 n) (omega arith)

    capped : 10 ≤ n → min m (b * 2 ^ min (suc (suc n) - 1) 10) ≡ min m (b * 2 ^ min (suc n - 1) 10)
    capped h =
        let e : min (suc (suc n) - 1) 10 ≡ 10 = omega arith in
        let f : min (suc n - 1) 10 ≡ 10 = omega arith in rw (e, f)

-- An attempt that has been counted has a retry.
pub retry_at_for_attempt_lem :
    (uniform : ℕ → Draw) (attempt_count base_seconds max_seconds jitter_permille : ℕ)
    (now : Option Instant) (clock : Instant)
    → 1 ≤ attempt_count
    → (t : Instant) × (retry_at_for_attempt uniform attempt_count base_seconds max_seconds
          jitter_permille now clock
        ≡ some t)
unfolding retry_at_for_attempt
retry_at_for_attempt_lem uniform n b m r now clock h =
    (or_else now clock + jittered uniform (seconds (base_delay n b m)) r, ground arith)

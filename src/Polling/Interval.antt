-- ===== src/Polling/Interval.antt =====
-- next_interval_seconds of backend/src/newsintel/application/acquisition/polling.py: how long a channel
-- waits for its next poll.
use newzyfy.Prelude.{
  ℕ, ◌*◌, ◌/◌, ◌≤◌, ◌≡◌, min, max, arith, ltb, if◌then◌else◌, Bool-cases, inl, inr, refl, ◌⊎◌, ◌≢◌,
}
use newzyfy.Time.{round_half_even}
use newzyfy.Acquisition.Rows.{
  DiscoveryChannel, PollRunStatus, running, succeeded, not_modified, failed,
}

-- round(current * 1.5) and round(current * 1.25) are exact as fractions.
abbrev proposed_seconds : ℕ → PollRunStatus → ℕ → ℕ → ℕ
proposed_seconds current failed poll_min_seconds observation_count = current * 2
proposed_seconds current not_modified poll_min_seconds observation_count =
    if ltb 0 observation_count then poll_min_seconds else round_half_even (current * 3) 2
proposed_seconds current _ poll_min_seconds observation_count =
    if ltb 0 observation_count then poll_min_seconds else round_half_even (current * 5) 4

unfoldable pub next_interval_seconds : DiscoveryChannel → PollRunStatus → ℕ → ℕ
next_interval_seconds channel status observation_count = max channel.poll_min_seconds (
    min channel.poll_max_seconds (
      proposed_seconds channel.current_poll_seconds status channel.poll_min_seconds
        observation_count))

round_half_even-ge : (n d k : ℕ) → k ≤ n / d → k ≤ round_half_even n d
unfolding round_half_even
round_half_even-ge n d k h = ground arith

five_quarters-le : (n : ℕ) → n ≤ round_half_even (n * 5) 4
five_quarters-le n = round_half_even-ge (n * 5) 4 n (omega arith)

three_halves-le : (n : ℕ) → n ≤ round_half_even (n * 3) 2
three_halves-le n = round_half_even-ge (n * 3) 2 n (omega arith)

-- What the minimum or a grown interval becomes within the channel's bounds.
clamped :
    (channel : DiscoveryChannel) (status : PollRunStatus) (observation_count grown : ℕ)
    → status ≢ failed
    → channel.poll_min_seconds ≤ channel.poll_max_seconds
    → channel.current_poll_seconds ≤ channel.poll_max_seconds
    → channel.current_poll_seconds ≤ grown
    → let interval = max channel.poll_min_seconds (
        min channel.poll_max_seconds
          (if ltb 0 observation_count then channel.poll_min_seconds else grown)) in
      (channel.poll_min_seconds ≤ interval)
      × (interval ≤ channel.poll_max_seconds)
      × (((1 ≤ observation_count) × (status ≢ failed) × (interval ≡ channel.poll_min_seconds))
          ⊎ (((observation_count ≡ 0) ⊎ (status ≡ failed))
              × (channel.current_poll_seconds ≤ interval)))
clamped channel status n grown other h k g = elim (Bool-cases (ltb 0 n)) [
  | inl e ↦ rw e (omega arith, omega arith, inl (ground arith, other, omega arith))
  | inr e ↦ rw e (omega arith, omega arith, inr (inl (ground arith), omega arith))
]

-- For a channel whose minimum is at most its maximum, the next interval lies between them; where new
-- observations were made and the poll did not fail, it is the minimum; and else it is not below the
-- current interval, if that is at most the maximum.
pub next_interval_seconds_range :
    (channel : DiscoveryChannel) (status : PollRunStatus) (observation_count : ℕ)
    → channel.poll_min_seconds ≤ channel.poll_max_seconds
    → channel.current_poll_seconds ≤ channel.poll_max_seconds
    → let interval = next_interval_seconds channel status observation_count in
      (channel.poll_min_seconds ≤ interval)
      × (interval ≤ channel.poll_max_seconds)
      × (((1 ≤ observation_count) × (status ≢ failed) × (interval ≡ channel.poll_min_seconds))
          ⊎ (((observation_count ≡ 0) ⊎ (status ≡ failed))
              × (channel.current_poll_seconds ≤ interval)))
unfolding next_interval_seconds
next_interval_seconds_range channel failed n h k =
    (omega arith, omega arith, inr (inr refl, omega arith))
next_interval_seconds_range channel running n h k =
    clamped channel running n _ (λ e. cc) h k (five_quarters-le channel.current_poll_seconds)
next_interval_seconds_range channel succeeded n h k =
    clamped channel succeeded n _ (λ e. cc) h k (five_quarters-le channel.current_poll_seconds)
next_interval_seconds_range channel not_modified n h k =
    clamped channel not_modified n _ (λ e. cc) h k (three_halves-le channel.current_poll_seconds)

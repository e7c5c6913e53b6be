-- ===== src/Format/Time.antt =====
-- frontend/src/lib/stellar.ts: the parts that the remaining time is split into.
use stellar_urithi_bidz.Prelude.{ℕ, ◌+◌, ◌-◌, ◌*◌, ◌/◌, ◌%◌, ◌<◌, ◌≡◌, arith}
use stellar_urithi_bidz.Format.{TimeParts, time_parts, parts_text, format_time_remaining}

-- A split of a time in seconds into days, hours, minutes and seconds.
pub record IsSplit (diff : ℕ) (t : TimeParts) : Type 0 where
  pub sum : 86400 * t.days + 3600 * t.hours + 60 * t.minutes + t.seconds ≡ diff
  pub hours_below : t.hours < 24
  pub minutes_below : t.minutes < 60
  pub seconds_below : t.seconds < 60

time_parts-IsSplit : (diff : ℕ) → IsSplit diff (time_parts diff)
unfolding time_parts
time_parts-IsSplit diff = record {
  sum = omega arith;
  hours_below = omega arith;
  minutes_below = omega arith;
  seconds_below = omega arith;
}

split_unique : (diff : ℕ) (t : TimeParts) → IsSplit diff t → t ≡ time_parts diff
unfolding time_parts
split_unique diff t s =
    let days : t.days ≡ diff / 86400 = omega arith in
    let hours : t.hours ≡ diff % 86400 / 3600 = omega arith in
    let minutes : t.minutes ≡ diff % 3600 / 60 = omega arith in
    let seconds : t.seconds ≡ diff % 60 = omega arith in
    λ i. record { days = days i; hours = hours i; minutes = minutes i; seconds = seconds i }

-- While an auction runs, the text is made of the one split of the seconds left, from the clock's
-- last whole second, into days, hours below 24, and minutes and seconds below 60.
pub format_time_remaining_lem :
    (now_ms end_time : ℕ)
    → now_ms / 1000 < end_time
    → (t : TimeParts) × IsSplit (end_time - now_ms / 1000) t
      × (format_time_remaining now_ms end_time ≡ parts_text t)
      × ((u : TimeParts) → IsSplit (end_time - now_ms / 1000) u → u ≡ t)
unfolding format_time_remaining
format_time_remaining_lem now_ms end_time later =
    let diff = end_time - now_ms / 1000 in
    (time_parts diff, time_parts-IsSplit diff, ground arith, split_unique diff)

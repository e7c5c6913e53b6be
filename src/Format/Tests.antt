-- ===== src/Format/Tests.antt =====
-- frontend/src/lib/stellar.ts: concrete times left.
use stellar_urithi_bidz.Prelude.{◌-◌, ◌/◌, ◌≡◌, refl, arith, some}
use stellar_urithi_bidz.Values.{decimal}
use stellar_urithi_bidz.Format.{
  TimeParts, time_parts, parts_text, format_time_remaining, format_stroops, pad_start, trim_zeros,
  bps_to_percentage,
}
use stellar_urithi_bidz.Format.Amounts.{read_amount, read_amount-format_stroops}
use stellar_urithi_bidz.Format.Time.{IsSplit, format_time_remaining_lem}

two_days : format_time_remaining 5900 183845 ≡ "2d 3h 4m"
unfolding format_time_remaining time_parts parts_text decimal
two_days = refl

over : format_time_remaining 9000 9 ≡ "Ended"
unfolding format_time_remaining
over = refl

format_time_remaining_lem_run :
    (t : TimeParts) × IsSplit (183845 - 5900 / 1000) t
    × (format_time_remaining 5900 183845 ≡ parts_text t)
    × ((u : TimeParts) → IsSplit (183845 - 5900 / 1000) u → u ≡ t)
format_time_remaining_lem_run = format_time_remaining_lem 5900 183845 (omega arith)

read_amount-format_stroops_example : read_amount 0 (format_stroops 12500000) ≡ some 12500000
read_amount-format_stroops_example = read_amount-format_stroops 12500000

one_stroop : format_stroops 10000001 ≡ "1.0000001"
unfolding format_stroops decimal pad_start trim_zeros
one_stroop = refl

whole : format_stroops 1200000000 ≡ "120"
unfolding format_stroops decimal pad_start trim_zeros
whole = refl

fee : bps_to_percentage 205 ≡ "2.05%"
unfolding bps_to_percentage decimal pad_start
fee = refl

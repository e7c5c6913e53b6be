-- ===== src/Format.antt =====
-- frontend/src/lib/stellar.ts: the time left of an auction, amounts, addresses and percentages as
-- texts. The clock is an argument; amounts are not negative.
pub mod Amounts
pub mod Time
mod Tests
use Prim.Native.Char.{code}
use Prim.Native.String.{[], ◌∷◌}
use stellar_urithi_bidz.Prelude.{
  zero, suc, ◌+◌, ◌==◌, ◌&&◌, Bool, true, false, ℕ, ◌-◌, ◌/◌, ◌%◌, String, ltb, leb, str_append,
  if◌then◌else◌,
}
use stellar_urithi_bidz.Values.{decimal}

pub record TimeParts : Type 0 where
  pub days : ℕ
  pub hours : ℕ
  pub minutes : ℕ
  pub seconds : ℕ

-- The four parts of a positive difference in seconds.
unfoldable pub time_parts : ℕ → TimeParts
time_parts diff = record {
  days = diff / 86400;
  hours = diff % 86400 / 3600;
  minutes = diff % 3600 / 60;
  seconds = diff % 60;
}

-- `${n}${unit}${rest}`
abbrev with_unit : ℕ → String → String → String
with_unit n unit rest = str_append (decimal n) (str_append unit rest)

unfoldable pub parts_text : TimeParts → String
parts_text t =
    if ltb 0 t.days
    then with_unit t.days "d " (with_unit t.hours "h " (with_unit t.minutes "m" ""))
    else if ltb 0 t.hours
    then with_unit t.hours "h " (with_unit t.minutes "m " (with_unit t.seconds "s" ""))
    else if ltb 0 t.minutes
    then with_unit t.minutes "m " (with_unit t.seconds "s" "")
    else with_unit t.seconds "s" ""

-- `diff <= 0` is `end_time <= now`.
unfoldable pub format_time_remaining : ℕ → ℕ → String
unfolding time_parts parts_text
format_time_remaining now_ms end_time =
    let now = now_ms / 1000 in
    if leb end_time now then "Ended" else parts_text (time_parts (end_time - now))

abbrev pub str_length : String → ℕ
str_length [] = 0
str_length (c ∷ s) = suc (str_length s)

abbrev pub zeros : ℕ → String → String
zeros zero s = s
zeros (suc n) s = "0" ∷ zeros n s

-- `s.padStart(width, "0")`
unfoldable pub pad_start : ℕ → String → String
pad_start width s = zeros (width - str_length s) s

abbrev is_empty : String → Bool
is_empty [] = true
is_empty (c ∷ s) = false

-- `s.replace(/0+$/, "")`
unfoldable pub trim_zeros : String → String
trim_zeros [] = []
trim_zeros (c ∷ s) =
    let rest = trim_zeros s in if (code c == b'0') && is_empty rest then [] else c ∷ rest

-- `trimmed ? `${whole}.${trimmed}` : whole.toString()`
abbrev pub with_point : String → String → String
with_point whole [] = whole
with_point whole (c ∷ s) = str_append whole (str_append "." (c ∷ s))

-- `formatStroops` of the number that `BigInt` gives
unfoldable pub format_stroops : ℕ → String
format_stroops num =
    with_point (decimal (num / 10000000)) (trim_zeros (pad_start 7 (decimal (num % 10000000))))

abbrev pub take : ℕ → String → String
take zero s = []
take (suc n) [] = []
take (suc n) (c ∷ s) = c ∷ take n s

abbrev drop : ℕ → String → String
drop zero s = s
drop (suc n) [] = []
drop (suc n) (c ∷ s) = drop n s

-- `formatAddress` of ASCII text, for a number of characters that is not 0
unfoldable pub format_address : String → ℕ → String
format_address addr chars =
    if is_empty addr
    then ""
    else str_append (take (chars + 2) addr) (str_append "..." (drop (str_length addr - chars) addr))

-- `bpsToPercentage`
unfoldable pub bps_to_percentage : ℕ → String
bps_to_percentage bps =
    str_append (decimal (bps / 100))
      (str_append "." (str_append (pad_start 2 (decimal (bps % 100))) "%"))

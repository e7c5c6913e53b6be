-- ===== src/Format/Amounts.antt =====
-- frontend/src/lib/stellar.ts: what `formatStroops` tells of an amount.
use Prim.Native.Char.{Char, code}
use Prim.Native.String.{[], ◌∷◌}
use text.Mathlib.TextLemmas.{nil-append, append-nil, cons-append, append_assoc}
use native.Mathlib.Nat.{pow-suc, pow-succ', mul_assoc}
use stellar_urithi_bidz.Prelude.{
  ℕ, zero, suc, ◌+◌, ◌-◌, ◌*◌, ◌/◌, ◌%◌, ◌^◌, ◌<◌, ◌≤◌, String, true, Option, none, some, ◌≡◌, refl,
  sym, arith, str_append, ltb, ap, ◌∙◌, ltb→lt, Bool-cases, inl, inr, ◌==◌, ◌&&◌, if◌then◌else◌,
}
use stellar_urithi_bidz.Text.{is_digit, decimal_from, parse_digits}
use stellar_urithi_bidz.Values.{digit, digits_from, decimal}
use stellar_urithi_bidz.Values.Decimal.{digit-char, parse_digits-decimal}
use stellar_urithi_bidz.Format.{
  str_length, zeros, pad_start, is_empty, trim_zeros, with_point, format_stroops,
}

abbrev with_fraction : ℕ → Option ℕ → Option ℕ
with_fraction n none = none
with_fraction n (some f) = some (n * 10000000 + f)

-- The digits of a fraction, of which `places` may follow
abbrev pub read_fraction : ℕ → ℕ → String → Option ℕ
read_fraction places n [] = some (n * 10 ^ places)
read_fraction zero n (c ∷ s) = none
read_fraction (suc places) n (c ∷ s) =
    let rest = read_fraction places (n * 10 + (code c - b'0')) s in
    if is_digit (code c) then rest else none

-- An amount as a reader takes it: digits, and up to seven more behind a point.
abbrev pub read_amount : ℕ → String → Option ℕ
read_amount n [] = some (n * 10000000)
read_amount n (c ∷ s) =
    let rest = read_amount (n * 10 + (code c - b'0')) s in
    if is_digit (code c)
    then rest
    else if code c == b'.'
    then with_fraction n (read_fraction 7 0 s)
    else none

place :
    (c : Char) (k n : ℕ) (rest : String)
    → is_digit (code c) ≡ true
    → code c - b'0' ≡ k
    → read_amount n (str_append (c ∷ []) rest) ≡ read_amount (n * 10 + k) rest
place c k n rest is_one value = rw (cons-append, nil-append, is_one, value) refl

read_amount-digit :
    (d n : ℕ) (rest : String)
    → d < 10
    → read_amount n (str_append (digit d) rest) ≡ read_amount (n * 10 + d) rest
read_amount-digit d n rest small =
    let (c, e, is_one, value) = digit-char d small in rw e (place c d n rest is_one value)

read_amount-digits_from :
    (fuel n : ℕ) (rest : String)
    → n < fuel
    → read_amount 0 (digits_from fuel n rest) ≡ read_amount n rest
unfolding digits_from
read_amount-digits_from zero n rest enough = absurd (omega (arith, enough))
read_amount-digits_from (suc fuel) n rest enough = elim (Bool-cases (ltb n 10)) [
  | inl one ↦
      rw one
        (read_amount-digit n 0 rest (ltb→lt n 10 one) ∙ ap (λ m. read_amount m rest) (omega arith))
  | inr more ↦
      let shorter =
        read_amount-digits_from fuel (n / 10) (str_append (digit (n % 10)) rest)
          (ground (arith, more, enough)) in
      rw more (
        shorter
        ∙ read_amount-digit (n % 10) (n / 10) rest (omega arith)
        ∙ ap (λ m. read_amount m rest) (omega arith))
]

digits_from-append :
    (fuel n : ℕ) (rest more : String)
    → str_append (digits_from fuel n rest) more ≡ digits_from fuel n (str_append rest more)
unfolding digits_from
digits_from-append zero n rest more = refl
digits_from-append (suc fuel) n rest more = elim (Bool-cases (ltb n 10)) [
  | inl one ↦ rw one (append_assoc (digit n) rest more)
  | inr more_ ↦ rw more_ (
      digits_from-append fuel (n / 10) (str_append (digit (n % 10)) rest) more
      ∙ ap (digits_from fuel (n / 10)) (append_assoc (digit (n % 10)) rest more))
]

is_empty-nil : (s : String) → is_empty s ≡ true → s ≡ ""
is_empty-nil [] h = refl
is_empty-nil (c ∷ s) h = absurd (ground arith)

zero_place : (n d places : ℕ) → d ≡ 0 → (n * 10 + d) * 10 ^ places ≡ n * 10 ^ suc places
zero_place n d places h =
    let shifted : n * 10 + d ≡ n * 10 = omega (arith, h) in
    rw (shifted, pow-succ' 10 places) (mul_assoc n 10 (10 ^ places))

-- Zeros at the end of a fraction do not count.
read_fraction-trim_zeros :
    (places n : ℕ) (s : String)
    → str_length s ≤ places
    → read_fraction places n (trim_zeros s) ≡ read_fraction places n s
unfolding trim_zeros
read_fraction-trim_zeros places n [] h = refl
read_fraction-trim_zeros zero n (c ∷ s) h = absurd (omega (arith, h))
read_fraction-trim_zeros (suc places) n (c ∷ s) h =
    let deeper = read_fraction-trim_zeros places (n * 10 + (code c - b'0')) s (omega (arith, h)) in
    elim (Bool-cases ((code c == b'0') && is_empty (trim_zeros s))) [
      | inl cut ↦
          let none_left : trim_zeros s ≡ "" = is_empty-nil (trim_zeros s) (ground (arith, cut)) in
          let is_zero : is_digit (code c) ≡ true = ground (arith, cut) in
          rw (cut, is_zero)
            (ap some (sym (zero_place n (code c - b'0') places (ground (arith, cut))))
              ∙ (rw none_left at deeper))
      | inr kept ↦ rw (kept, deeper) refl
    ]

read_fraction-full :
    (places n : ℕ) (s : String)
    → str_length s ≡ places
    → read_fraction places n s ≡ decimal_from n s
unfolding decimal_from
read_fraction-full zero n [] h = ap some (omega arith)
read_fraction-full (suc places) n [] h = absurd (omega (arith, h))
read_fraction-full zero n (c ∷ s) h = absurd (omega (arith, h))
read_fraction-full (suc places) n (c ∷ s) h =
    ground (arith, read_fraction-full places (n * 10 + (code c - b'0')) s (omega (arith, h)))

length-digit :
    (d : ℕ) (rest : String)
    → d < 10
    → str_length (str_append (digit d) rest) ≡ suc (str_length rest)
length-digit d rest small =
    let (c, e, is_one, value) = digit-char d small in rw (e, cons-append, nil-append) refl

length-digits_from :
    (fuel n k : ℕ) (rest : String)
    → n < fuel
    → n < 10 ^ suc k
    → str_length (digits_from fuel n rest) ≤ suc k + str_length rest
unfolding digits_from
length-digits_from zero n k rest enough small = absurd (omega (arith, enough))
length-digits_from (suc fuel) n zero rest enough small =
    let one : ltb n 10 ≡ true = ground (arith, small) in
    rw one (omega (arith, length-digit n rest (ltb→lt n 10 one)))
length-digits_from (suc fuel) n (suc k) rest enough small = elim (Bool-cases (ltb n 10)) [
  | inl one ↦ rw one (omega (arith, length-digit n rest (ltb→lt n 10 one)))
  | inr more ↦
      let ten_times : 10 ^ suc (suc k) ≡ 10 ^ suc k * 10 = pow-suc 10 (suc k) in
      let shorter =
        length-digits_from fuel (n / 10) k (str_append (digit (n % 10)) rest)
          (ground (arith, more, enough)) (omega (arith, small, ten_times)) in
      rw more (omega (arith, shorter, length-digit (n % 10) rest (omega arith)))
]

length-decimal : (n : ℕ) → n < 10000000 → str_length (decimal n) ≤ 7
unfolding decimal
length-decimal n small = length-digits_from (suc n) n 6 "" (omega arith) small

length-zeros : (n : ℕ) (s : String) → str_length (zeros n s) ≡ n + str_length s
length-zeros zero s = omega arith
length-zeros (suc n) s = omega (arith, length-zeros n s)

decimal_from-zeros : (n : ℕ) (s : String) → decimal_from 0 (zeros n s) ≡ decimal_from 0 s
unfolding decimal_from
decimal_from-zeros zero s = refl
decimal_from-zeros (suc n) s = decimal_from-zeros n s

decimal_from-parsed : (s : String) {n : ℕ} → parse_digits s ≡ some n → decimal_from 0 s ≡ some n
unfolding parse_digits
decimal_from-parsed [] h = absurd (ground arith)
decimal_from-parsed (c ∷ s) h = h

-- What `format_stroops` leaves behind the point is read as the fraction.
read_fraction-trimmed :
    (r : ℕ) → r < 10000000 → read_fraction 7 0 (trim_zeros (pad_start 7 (decimal r))) ≡ some r
unfolding pad_start
read_fraction-trimmed r small =
    let short : str_length (decimal r) ≤ 7 = length-decimal r small in
    let padded = zeros (7 - str_length (decimal r)) (decimal r) in
    let full : str_length padded ≡ 7 =
      omega (arith, short, length-zeros (7 - str_length (decimal r)) (decimal r)) in
    read_fraction-trim_zeros 7 0 padded (omega (arith, full))
    ∙ read_fraction-full 7 0 padded full
    ∙ decimal_from-zeros (7 - str_length (decimal r)) (decimal r)
    ∙ decimal_from-parsed (decimal r) (parse_digits-decimal r)

-- The digits of a whole number with a text behind them
read_amount-decimal :
    (n : ℕ) (rest : String) → read_amount 0 (str_append (decimal n) rest) ≡ read_amount n rest
unfolding decimal
read_amount-decimal n rest =
    ap (read_amount 0) (digits_from-append (suc n) n "" rest)
    ∙ read_amount-digits_from (suc n) n (str_append "" rest) (omega arith)
    ∙ ap (read_amount n) (nil-append rest)

point :
    (n : ℕ) (rest : String)
    → read_amount n (str_append "." rest) ≡ with_fraction n (read_fraction 7 0 rest)
point n rest = rw (cons-append, nil-append) refl

read_amount-with_point :
    (whole fraction : ℕ) (trimmed : String)
    → read_fraction 7 0 trimmed ≡ some fraction
    → read_amount 0 (with_point (decimal whole) trimmed) ≡ some (whole * 10000000 + fraction)
read_amount-with_point whole fraction [] h =
    rw (← append-nil (decimal whole)) (read_amount-decimal whole "" ∙ ap some (ground (arith, h)))
read_amount-with_point whole fraction (c ∷ s) h =
    read_amount-decimal whole (str_append "." (c ∷ s))
    ∙ point whole (c ∷ s)
    ∙ ap (with_fraction whole) h

-- The text of every amount is read back as the amount: no two amounts have the same text.
pub read_amount-format_stroops : (num : ℕ) → read_amount 0 (format_stroops num) ≡ some num
unfolding format_stroops
read_amount-format_stroops num =
    read_amount-with_point (num / 10000000) (num % 10000000)
      (trim_zeros (pad_start 7 (decimal (num % 10000000))))
      (read_fraction-trimmed (num % 10000000) (omega arith))
    ∙ ap some (omega arith)

-- ===== src/Values/Decimal.antt =====
-- `n.toString()` and what `/^\d+$/` with `Number` or `BigInt` reads back from it.
use Prim.Native.Char.{Char, code}
use Prim.Native.String.{[], ◌∷◌}
use text.Mathlib.TextLemmas.{nil-append, cons-append}
use stellar_urithi_bidz.Prelude.{
  ℕ, zero, suc, ◌+◌, ◌-◌, ◌*◌, ◌/◌, ◌%◌, ◌<◌, String, true, some, ◌≡◌, refl, arith, str_append, ltb,
  ap, ◌∙◌, ltb→lt, Bool-cases, inl, inr, all_below,
}
use stellar_urithi_bidz.Text.{is_digit, decimal_from, parse_digits}
use stellar_urithi_bidz.Values.{digit, digits_from, decimal}

-- The one character of a digit
pub digit-char :
    (d : ℕ)
    → d < 10
    → (c : Char) × (digit d ≡ c ∷ []) × (is_digit (code c) ≡ true) × (code c - b'0' ≡ d)
unfolding digit
digit-char d small =
    all_below
      (λ k. (c : Char) × (digit k ≡ c ∷ []) × (is_digit (code c) ≡ true) × (code c - b'0' ≡ k)) 10 d
      (
        ("9", refl, refl, refl),
        (
          ("8", refl, refl, refl),
          (
            ("7", refl, refl, refl),
            (
              ("6", refl, refl, refl),
              (
                ("5", refl, refl, refl),
                (
                  ("4", refl, refl, refl),
                  (
                    ("3", refl, refl, refl),
                    (
                      ("2", refl, refl, refl),
                      (("1", refl, refl, refl), (("0", refl, refl, refl), tt)),
                    ),
                  ),
                ),
              ),
            ),
          ),
        ),
      )
      small

place :
    (c : Char) (k n : ℕ) (rest : String)
    → is_digit (code c) ≡ true
    → code c - b'0' ≡ k
    → decimal_from n (str_append (c ∷ []) rest) ≡ decimal_from (n * 10 + k) rest
unfolding decimal_from
place c k n rest is_one value = rw (cons-append, nil-append, is_one, value) refl

-- A digit in front is read as one more place.
decimal_from-digit :
    (d n : ℕ) (rest : String)
    → d < 10
    → decimal_from n (str_append (digit d) rest) ≡ decimal_from (n * 10 + d) rest
decimal_from-digit d n rest small =
    let (c, e, is_one, value) = digit-char d small in rw e (place c d n rest is_one value)

first_place :
    (c : Char) (k : ℕ) (rest : String)
    → is_digit (code c) ≡ true
    → code c - b'0' ≡ k
    → parse_digits (str_append (c ∷ []) rest) ≡ decimal_from k rest
unfolding parse_digits decimal_from
first_place c k rest is_one value =
    rw (cons-append, nil-append, is_one, value) (ap (λ m. decimal_from m rest) (omega arith))

parse_digits-digit :
    (d : ℕ) (rest : String)
    → d < 10
    → parse_digits (str_append (digit d) rest) ≡ decimal_from d rest
parse_digits-digit d rest small =
    let (c, e, is_one, value) = digit-char d small in rw e (first_place c d rest is_one value)

-- The digits of `n` in front are read as `n`.
parse_digits-digits_from :
    (fuel n : ℕ) (rest : String)
    → n < fuel
    → parse_digits (digits_from fuel n rest) ≡ decimal_from n rest
unfolding digits_from
parse_digits-digits_from zero n rest enough = absurd (omega (arith, enough))
parse_digits-digits_from (suc fuel) n rest enough = elim (Bool-cases (ltb n 10)) [
  | inl one ↦ rw one (parse_digits-digit n rest (ltb→lt n 10 one))
  | inr more ↦
      let shorter =
        parse_digits-digits_from fuel (n / 10) (str_append (digit (n % 10)) rest)
          (ground (arith, more, enough)) in
      rw more (
        shorter
        ∙ decimal_from-digit (n % 10) (n / 10) rest (omega arith)
        ∙ ap (λ m. decimal_from m rest) (omega arith))
]

-- Every number is read back from its digits.
pub parse_digits-decimal : (n : ℕ) → parse_digits (decimal n) ≡ some n
unfolding decimal decimal_from
parse_digits-decimal n = parse_digits-digits_from (suc n) n "" (omega arith)

-- ===== src/Values.antt =====
-- JavaScript values of the types that the event data hold: what `||` and `String(…)` make of them.
-- A bigint is a number here; numbers are natural.
pub mod Decimal
use stellar_urithi_bidz.Prelude.{
  ℕ, zero, suc, ◌/◌, ◌%◌, String, Bool, false, str_eq, str_append, ltb, ◌==◌, not, ◌≡◌, refl,
  if◌then◌else◌,
}

pub data Value : Type 0 where
  undefined : Value
  text : String → Value
  number : ℕ → Value
  truth : Bool → Value

abbrev pub is_truthy : Value → Bool
is_truthy undefined = false
is_truthy (text s) = not (str_eq s "")
is_truthy (number n) = not (n == 0)
is_truthy (truth b) = b

infixl 30 ◌or_else◌
abbrev pub ◌or_else◌ : Value → Value → Value
a or_else b = if is_truthy a then a else b

unfoldable pub digit : ℕ → String
digit n =
    if n == 0
    then "0"
    else if n == 1
    then "1"
    else if n == 2
    then "2"
    else if n == 3
    then "3"
    else if n == 4
    then "4"
    else if n == 5
    then "5"
    else if n == 6
    then "6"
    else if n == 7
    then "7"
    else if n == 8
    then "8"
    else "9"

-- The digits of `n` before `rest`; the fuel `n + 1` is more than its digits.
unfoldable pub digits_from : ℕ → ℕ → String → String
digits_from zero n rest = rest
digits_from (suc fuel) n rest =
    let longer = digits_from fuel (n / 10) (str_append (digit (n % 10)) rest) in
    if ltb n 10 then str_append (digit n) rest else longer

-- `n.toString()`
unfoldable pub decimal : ℕ → String
unfolding digit digits_from
decimal n = digits_from (suc n) n ""

-- `String(v)`
unfoldable pub to_text : Value → String
unfolding decimal
to_text undefined = "undefined"
to_text (text s) = s
to_text (number n) = decimal n
to_text (truth b) = if b then "true" else "false"

decimal_of_amount : decimal 10203000405 ≡ "10203000405"
unfolding decimal
decimal_of_amount = refl

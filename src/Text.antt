-- ===== src/Text.antt =====
-- The string methods of JavaScript that the sources call: `startsWith` with `slice`, `trim`,
-- `split(sep)[0]`, `/^\d+$/.test` and `parseInt(…, 10)` on digits.
use Prim.Native.Char.{code}
use Prim.Native.String.{[], ◌∷◌}
use text.Mathlib.TextEquality.{Char-path}
use text.Mathlib.TextLemmas.{nil-append, cons-append}
use stellar_urithi_bidz.Prelude.{
  ℕ, ◌+◌, ◌-◌, ◌*◌, String, Bool, true, false, ◌&&◌, ◌||◌, Option, none, some, ◌≡◌, refl, arith,
  inl, inr, Bool-cases, str_append, ap, leb, ◌==◌, if◌then◌else◌,
}

-- `s.startsWith(prefix) ? s.slice(prefix.length) : undefined`
unfoldable pub strip_prefix : String → String → Option String
strip_prefix [] s = some s
strip_prefix (p ∷ ps) [] = none
strip_prefix (p ∷ ps) (c ∷ s) = if code p == code c then strip_prefix ps s else none

-- The white space and line terminators of ECMAScript.
abbrev pub is_space : ℕ → Bool
is_space c =
    (leb 9 c && leb c 13)
    || (c == 0x20)
    || (c == 0xa0)
    || (c == 0x1680)
    || (leb 0x2000 c && leb c 0x200a)
    || (c == 0x2028)
    || (c == 0x2029)
    || (c == 0x202f)
    || (c == 0x205f)
    || (c == 0x3000)
    || (c == 0xfeff)

unfoldable pub trim_start : String → String
trim_start [] = []
trim_start (c ∷ s) = if is_space (code c) then trim_start s else c ∷ s

abbrev is_empty : String → Bool
is_empty [] = true
is_empty (c ∷ s) = false

trim_end : String → String
trim_end [] = []
trim_end (c ∷ s) =
    let rest = trim_end s in if is_space (code c) && is_empty rest then [] else c ∷ rest

unfoldable pub trim : String → String
unfolding trim_start trim_end
trim s = trim_end (trim_start s)

abbrev is_some {ℓ} : {A : Type ℓ} → Option A → Bool
is_some none = false
is_some (some a) = true

-- `s.split(sep)[0]` for a separator of one character
unfoldable pub before : ℕ → String → String
before sep [] = []
before sep (c ∷ s) = let rest = before sep s in if code c == sep then [] else c ∷ rest

abbrev pub is_digit : ℕ → Bool
is_digit c = leb b'0' c && leb c b'9'

-- `/^\d+$/.test(s)`, and the number that the digits spell
unfoldable pub decimal_from : ℕ → String → Option ℕ
decimal_from n [] = some n
decimal_from n (c ∷ s) =
    if is_digit (code c) then decimal_from (n * 10 + (code c - b'0')) s else none

unfoldable pub parse_digits : String → Option ℕ
unfolding decimal_from
parse_digits [] = none
parse_digits (c ∷ s) = decimal_from 0 (c ∷ s)

-- `parseInt(s, 10)` of a text without a sign: the digits that it begins with after white space;
-- `none` is NaN.
number_from : Option ℕ → String → Option ℕ
number_from n [] = n
number_from none (c ∷ s) =
    let rest = number_from (some (code c - b'0')) s in if is_digit (code c) then rest else none
number_from (some n) (c ∷ s) =
    let rest = number_from (some (n * 10 + (code c - b'0'))) s in
    if is_digit (code c) then rest else some n

unfoldable pub leading_number : String → Option ℕ
unfolding number_from trim_start
leading_number s = number_from none (trim_start s)

-- A whole number with its sign: `minus n` is -n.
pub data Signed : Type 0 where
  plus minus : ℕ → Signed

abbrev signed : (ℕ → Signed) → Option ℕ → Option Signed
signed sign none = none
signed sign (some n) = some (sign n)

-- `parseInt(s, 10)`; `none` is NaN.
unfoldable pub leading_int : String → Option Signed
unfolding number_from trim_start strip_prefix
leading_int s =
    let t = trim_start s in
    elim (strip_prefix "-" t) [
      | some rest ↦ signed minus (number_from none rest)
      | none ↦ elim (strip_prefix "+" t) [
        | some rest ↦ signed plus (number_from none rest)
        | none ↦ signed plus (number_from none t)
      ]
    ]

below_zero : leading_int " -12h" ≡ some (minus 12)
unfolding leading_int
below_zero = refl

hours_and_more : leading_number " 12.5e3" ≡ some 12
unfolding leading_number
hours_and_more = refl

trimmed : trim "  a b\n" ≡ "a b"
unfolding trim
trimmed = refl

first_part : before b':' "17:ab:c" ≡ "17"
unfolding before
first_part = refl

number : parse_digits "0042" ≡ some 42
unfolding parse_digits
number = refl

not_digits : parse_digits "4x" ≡ none
unfolding parse_digits
not_digits = refl

pub strip_prefix-append :
    (prefix rest : String) → strip_prefix prefix (str_append prefix rest) ≡ some rest
unfolding strip_prefix
strip_prefix-append [] rest = rw nil-append refl
strip_prefix-append (p ∷ ps) rest = rw cons-append (ground (arith, strip_prefix-append ps rest))

pub append-strip_prefix :
    (prefix s : String) {rest : String}
    → strip_prefix prefix s ≡ some rest
    → s ≡ str_append prefix rest
unfolding strip_prefix
append-strip_prefix [] s {rest} h = rw nil-append (ground arith)
append-strip_prefix (p ∷ ps) [] h = cc
append-strip_prefix (p ∷ ps) (c ∷ s) {rest} h = elim (Bool-cases (code p == code c)) [
  | inl same ↦
      rw cons-append
        (cc (Char-path p c (ground arith), append-strip_prefix ps s {rest = rest} (ground arith)))
  | inr other ↦ absurd (ground arith)
]

-- `s.includes(part)`
unfoldable pub contains : String → String → Bool
unfolding strip_prefix
contains part [] = is_some (strip_prefix part [])
contains part (c ∷ s) = is_some (strip_prefix part (c ∷ s)) || contains part s

pub contains-append :
    (part before_ s : String) → contains part s ≡ true → contains part (str_append before_ s) ≡ true
unfolding contains
contains-append part [] s h = rw nil-append h
contains-append part (c ∷ t) s h = rw cons-append (ground (arith, contains-append part t s h))

digit_plain : (c : ℕ) → is_digit c ≡ true → (is_space c ≡ false) × ((c == b':') ≡ false)
digit_plain c h = ground arith

trim_end-digits : (n : ℕ) (s : String) {m : ℕ} → decimal_from n s ≡ some m → trim_end s ≡ s
unfolding trim_end decimal_from
trim_end-digits n [] h = refl
trim_end-digits n (c ∷ s) {m} h = elim (Bool-cases (is_digit (code c))) [
  | inl digit ↦
      rw ((digit_plain (code c) digit).0)
        (ap (λ t. c ∷ t) (trim_end-digits (n * 10 + (code c - b'0')) s {m = m} (rw digit at h)))
  | inr other ↦ absurd (ground arith)
]

-- White space, and all that is not a digit, is absent from a text that spells a number.
pub trim-digits : (s : String) {m : ℕ} → parse_digits s ≡ some m → trim s ≡ s
unfolding trim trim_start parse_digits decimal_from
trim-digits [] h = absurd (ground arith)
trim-digits (c ∷ s) {m} h = elim (Bool-cases (is_digit (code c))) [
  | inl digit ↦ rw ((digit_plain (code c) digit).0) (trim_end-digits 0 (c ∷ s) {m = m} h)
  | inr other ↦ absurd (ground arith)
]

before-digits : (n : ℕ) (s : String) {m : ℕ} → decimal_from n s ≡ some m → before b':' s ≡ s
unfolding before decimal_from
before-digits n [] h = refl
before-digits n (c ∷ s) {m} h = elim (Bool-cases (is_digit (code c))) [
  | inl digit ↦
      rw ((digit_plain (code c) digit).1)
        (ap (λ t. c ∷ t) (before-digits (n * 10 + (code c - b'0')) s {m = m} (rw digit at h)))
  | inr other ↦ absurd (ground arith)
]

pub before-number : (s : String) {m : ℕ} → parse_digits s ≡ some m → before b':' s ≡ s
unfolding parse_digits
before-number [] h = absurd (ground arith)
before-number (c ∷ s) {m} h = before-digits 0 (c ∷ s) {m = m} h

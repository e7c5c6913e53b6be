-- ===== src/Commitment/Hex.antt =====
-- frontend/src/lib/crypto.ts: a salt as hexadecimal text and back, for texts of characters below
-- U+10000. The random bytes are an argument.
use Prim.Native.Char.{Char, code}
use Prim.Native.String.{[], ◌∷◌}
use stellar_urithi_bidz.Prelude.{
  ℕ, ◌+◌, ◌-◌, ◌*◌, ◌/◌, ◌%◌, ◌<◌, String, List, ◌≡◌, refl, arith, Bool, false, ◌||◌, ◌&&◌, Option,
  none, some, leb, ◌==◌, if◌then◌else◌, ap, all_below,
}
use stellar_urithi_bidz.Text.{is_space}
use mathlib.Core.List.{[] as nil, ◌∷◌ as ◌∷∷◌}

-- A digit of `toString(16)`
abbrev hex_digit : ℕ → Char
hex_digit n =
    if n == 0
    then "0"
    else if n == 1
    then "1"
    else if n == 2
    then "2"
    else if n == 3
    then "3"
    else if n == 4
    then "4"
    else if n == 5
    then "5"
    else if n == 6
    then "6"
    else if n == 7
    then "7"
    else if n == 8
    then "8"
    else if n == 9
    then "9"
    else if n == 10
    then "a"
    else if n == 11
    then "b"
    else if n == 12
    then "c"
    else if n == 13
    then "d"
    else if n == 14
    then "e"
    else "f"

-- The `hex` of `generateSalt`: two digits for each byte
unfoldable pub hex_of : List ℕ → String
hex_of nil = []
hex_of (b ∷∷ bytes) = hex_digit (b / 16) ∷ hex_digit (b % 16) ∷ hex_of bytes

-- What a character is worth to `parseInt(…, 16)`
unfoldable pub hex_value : ℕ → Option ℕ
hex_value c =
    if leb b'0' c && leb c b'9'
    then some (c - b'0')
    else if leb b'a' c && leb c b'f'
    then some (c - b'a' + 10)
    else if leb b'A' c && leb c b'F'
    then some (c - b'A' + 10)
    else none

-- `parseInt(byte, 16)` of one character, as a byte: NaN is 0.
abbrev byte_of_one : ℕ → ℕ
byte_of_one c = elim (hex_value c) [ none ↦ 0 | some n ↦ n ]

-- The same of two: white space and a sign may stand in front, and what is no digit ends the number.
-- A byte keeps the low eight bits of a negative number.
unfoldable pub byte_of_two : ℕ → ℕ → ℕ
unfolding hex_value
byte_of_two c d = elim (hex_value c) [
  | some n ↦ elim (hex_value d) [ none ↦ n | some m ↦ 16 * n + m ]
  | none ↦
      if c == b'-'
      then (256 - byte_of_one d) % 256
      else if (c == b'+') || is_space c
      then byte_of_one d
      else 0
]

-- What `.` does not match
abbrev is_terminator : ℕ → Bool
is_terminator c = (c == 10) || (c == 13) || (c == 0x2028) || (c == 0x2029)

-- `hexToBytes`: the matches of `/.{1,2}/g`, with the character of a match that has begun
unfoldable pub bytes_from : Option ℕ → String → List ℕ
unfolding byte_of_two
bytes_from none [] = nil
bytes_from (some c) [] = byte_of_one c ∷∷ nil
bytes_from none (c ∷ s) =
    let skip = bytes_from none s in
    let begin = bytes_from (some (code c)) s in if is_terminator (code c) then skip else begin
bytes_from (some c) (d ∷ s) =
    let rest = bytes_from none s in
    if is_terminator (code d) then byte_of_one c ∷∷ rest else byte_of_two c (code d) ∷∷ rest

unfoldable pub hex_to_bytes : String → List ℕ
unfolding bytes_from
hex_to_bytes hex = bytes_from none hex

abbrev pub AreBytes : List ℕ → Type 0
AreBytes nil = Unit
AreBytes (b ∷∷ bytes) = (b < 256) × AreBytes bytes

hex_value-hex_digit : (n : ℕ) → n < 16 → hex_value (code (hex_digit n)) ≡ some n
unfolding hex_value
hex_value-hex_digit n small =
    all_below (λ m. hex_value (code (hex_digit m)) ≡ some m) 16 n
      (
        refl,
        (
          refl,
          (
            refl,
            (
              refl,
              (
                refl,
                (
                  refl,
                  (
                    refl,
                    (refl, (refl, (refl, (refl, (refl, (refl, (refl, (refl, (refl, tt))))))))),
                  ),
                ),
              ),
            ),
          ),
        ),
      )
      small

hex_digit_stays : (n : ℕ) → n < 16 → is_terminator (code (hex_digit n)) ≡ false
hex_digit_stays n small =
    all_below (λ m. is_terminator (code (hex_digit m)) ≡ false) 16 n
      (
        refl,
        (
          refl,
          (
            refl,
            (
              refl,
              (
                refl,
                (
                  refl,
                  (
                    refl,
                    (refl, (refl, (refl, (refl, (refl, (refl, (refl, (refl, (refl, tt))))))))),
                  ),
                ),
              ),
            ),
          ),
        ),
      )
      small

byte_back :
    (b : ℕ) → b < 256 → byte_of_two (code (hex_digit (b / 16))) (code (hex_digit (b % 16))) ≡ b
unfolding byte_of_two
byte_back b small =
    rw
      (
        hex_value-hex_digit (b / 16) (omega arith),
        hex_value-hex_digit (b % 16) (omega arith),
        byte_of_two,
      )
      (omega arith)

-- The bytes of a salt come back from its text.
pub hex_to_bytes-hex_of : (bytes : List ℕ) → AreBytes bytes → hex_to_bytes (hex_of bytes) ≡ bytes
unfolding hex_to_bytes hex_of bytes_from
hex_to_bytes-hex_of nil small = refl
hex_to_bytes-hex_of (b ∷∷ bytes) (small, rest) =
    rw
      (
        hex_digit_stays (b / 16) (omega arith),
        hex_digit_stays (b % 16) (omega arith),
        byte_back b small,
      )
      (ap (λ bs. b ∷∷ bs) (hex_to_bytes-hex_of bytes rest))

salt : hex_to_bytes (hex_of (0 ∷∷ 171 ∷∷ 255 ∷∷ nil)) ≡ 0 ∷∷ 171 ∷∷ 255 ∷∷ nil
unfolding hex_to_bytes hex_of bytes_from byte_of_two hex_value
salt = refl

-- ===== src/Schemas/Texts.antt =====
-- backend/src/schemas/auctions.ts: the regular expressions of Stellar addresses.
use Prim.Native.Char.{code}
use Prim.Native.String.{[], ◌∷◌}
use stellar_urithi_bidz.Prelude.{
  ℕ, zero, suc, String, Bool, true, false, ◌&&◌, ◌||◌, ◌==◌, leb, ◌≡◌, refl, arith,
}
use stellar_urithi_bidz.Format.{str_length}

-- `[A-Z2-7]`
abbrev is_key_letter : ℕ → Bool
is_key_letter c = leb b'A' c && leb c b'Z' || leb b'2' c && leb c b'7'

unfoldable pub base32 : ℕ → String → Bool
base32 zero [] = true
base32 zero (c ∷ s) = false
base32 (suc n) [] = false
base32 (suc n) (c ∷ s) = is_key_letter (code c) && base32 n s

-- `/^G[A-Z2-7]{55}$/` and `/^C[A-Z2-7]{55}$/`
unfoldable pub starts : ℕ → String → Bool
unfolding base32
starts letter [] = false
starts letter (c ∷ s) = (code c == letter) && base32 55 s

base32-length : (n : ℕ) (s : String) → base32 n s ≡ true → str_length s ≡ n
unfolding base32
base32-length zero [] h = refl
base32-length zero (c ∷ s) h = absurd (ground (arith, h))
base32-length (suc n) [] h = absurd (ground (arith, h))
base32-length (suc n) (c ∷ s) h = ground (arith, base32-length n s)

pub starts-length : (letter : ℕ) (s : String) → starts letter s ≡ true → str_length s ≡ 56
unfolding starts
starts-length letter [] h = absurd (ground (arith, h))
starts-length letter (c ∷ s) h = ground (arith, base32-length 55 s)

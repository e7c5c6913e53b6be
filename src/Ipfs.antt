-- ===== src/Ipfs.antt =====
-- frontend/src/lib/pinata.ts and frontend/src/lib/shared-ipfs.ts: CIDs and the URIs made of them. The
-- uploads of these files are calls of the upload route.
pub mod Uris
mod Tests
use Prim.Native.Char.{code}
use Prim.Native.String.{[], ◌∷◌}
use stellar_urithi_bidz.Prelude.{
  ℕ, zero, suc, String, Bool, true, false, ◌&&◌, ◌||◌, Option, none, some, leb, ◌==◌, str_eq,
  str_append, if◌then◌else◌,
}
use stellar_urithi_bidz.Text.{strip_prefix}

-- `` `ipfs://${cid}` ``
unfoldable pub cid_to_ipfs_uri : String → String
cid_to_ipfs_uri cid = str_append "ipfs://" cid

-- `ipfsUri.replace(/^ipfs:\/\//, "")`
unfoldable pub extract_cid : String → String
extract_cid uri = elim (strip_prefix "ipfs://" uri) [ none ↦ uri | some cid ↦ cid ]

-- `gateway || GATEWAY`, the latter from the environment
unfoldable pub ipfs_uri_to_gateway : String → String → Option String → String
unfolding extract_cid
ipfs_uri_to_gateway default uri none = str_append default (str_append "/ipfs/" (extract_cid uri))
ipfs_uri_to_gateway default uri (some gateway) =
    str_append (if str_eq gateway "" then default else gateway)
      (str_append "/ipfs/" (extract_cid uri))

abbrev between : ℕ → ℕ → ℕ → Bool
between low high c = leb low c && leb c high

-- `[1-9A-HJ-NP-Za-km-z]`
abbrev is_base58 : ℕ → Bool
is_base58 c =
    between b'1' b'9' c
    || between b'A' b'H' c
    || between b'J' b'N' c
    || between b'P' b'Z' c
    || between b'a' b'k' c
    || between b'm' b'z' c

-- `[a-z2-7]`
abbrev is_base32 : ℕ → Bool
is_base32 c = between b'a' b'z' c || between b'2' b'7' c

-- `[…]{count}$`
unfoldable pub exactly : (ℕ → Bool) → ℕ → String → Bool
exactly p zero [] = true
exactly p zero (c ∷ s) = false
exactly p (suc count) [] = false
exactly p (suc count) (c ∷ s) = p (code c) && exactly p count s

-- `[…]{count,}$`
unfoldable pub at_least : (ℕ → Bool) → ℕ → String → Bool
at_least p zero [] = true
at_least p (suc count) [] = false
at_least p zero (c ∷ s) = p (code c) && at_least p zero s
at_least p (suc count) (c ∷ s) = p (code c) && at_least p count s

abbrev after_prefix : String → (String → Bool) → String → Bool
after_prefix prefix rest s = elim (strip_prefix prefix s) [ none ↦ false | some r ↦ rest r ]

-- `/^(Qm[1-9A-HJ-NP-Za-km-z]{44}|b[a-z2-7]{58,})$/.test(cid)`
unfoldable pub matches_cid : String → Bool
matches_cid cid =
    after_prefix "Qm" (exactly is_base58 44) cid || after_prefix "b" (at_least is_base32 58) cid

unfoldable pub is_valid_cid : String → Bool
unfolding extract_cid matches_cid
is_valid_cid s = matches_cid (extract_cid s)

-- ===== src/Commitment.antt =====
-- frontend/src/lib/crypto.ts and contracts/auction/src/sealed_bid.rs: the messages under the HMAC
-- of a sealed bid, as the browser and the contract build them. Addresses are ASCII texts, so a
-- character is a byte. The HMAC and its key are left out: both sides apply it to these bytes.
pub mod Hex
pub mod Mismatch
mod Tests
use Prim.Native.Char.{code}
use Prim.Native.String.{[] as nil, ◌∷◌ as ◌∷∷◌}
use stellar_urithi_bidz.Prelude.{
  ℕ, zero, suc, ◌-◌, ◌/◌, ◌%◌, ◌^◌, String, List, [], ◌∷◌, ◌++◌, length, str_append,
}

-- The low `count` bytes of `n`, the highest first: `setBigUint64(…, false)` and `to_be_bytes` of a
-- number that is not negative.
unfoldable pub be_bytes : ℕ → ℕ → List ℕ
be_bytes zero n = []
be_bytes (suc count) n = (n / 256 ^ count % 256) ∷ be_bytes count n

unfoldable pub encode : String → List ℕ
encode nil = []
encode (c ∷∷ s) = code c ∷ encode s

abbrev take : ℕ → List ℕ → List ℕ
take zero bytes = []
take (suc n) [] = []
take (suc n) (b ∷ bytes) = b ∷ take n bytes

abbrev replicate : ℕ → ℕ → List ℕ
replicate zero b = []
replicate (suc n) b = b ∷ replicate n b

-- `enc.encode(bidderAddress.padEnd(56, " ")).subarray(0, 56)`
unfoldable pub padded_address : String → List ℕ
unfolding encode
padded_address address =
    let bytes = encode address in take 56 (bytes ++ replicate (56 - length bytes) 0x20)

-- `msgBuffer` of `computeCommitment`: 8, 56, 8 and 8 bytes
unfoldable pub commitment_message : ℕ → String → ℕ → List ℕ
unfolding be_bytes padded_address
commitment_message auction_id address amount =
    be_bytes 8 auction_id ++ padded_address address ++ be_bytes 8 0 ++ be_bytes 8 amount

-- `build_commitment_message` of the contract, for an amount that is not negative
unfoldable pub build_commitment_message : ℕ → ℕ → String → List ℕ
unfolding be_bytes encode
build_commitment_message amount auction_id bidder =
    be_bytes 16 amount ++ be_bytes 8 auction_id ++ take 64 (encode bidder)

-- ===== src/Commitment/Mismatch.antt =====
-- frontend/src/lib/crypto.ts: the bytes of `computeCommitment` against those of the contract.
use stellar_urithi_bidz.Prelude.{ℕ, ◌+◌, ◌^◌, ◌<◌, ◌≡◌, ◌≢◌, String, arith, ap, ◌++◌}
use stellar_urithi_bidz.Commitment.{
  be_bytes, commitment_message, build_commitment_message, padded_address,
}

-- The bytes that the browser commits to, for an auction whose id is neither zero nor 2^64 or more,
-- are never the ones that the contract computes at the reveal of an amount below 2^64 for the
-- auction, whichever addresses and amount were committed.
pub commitment_message-never :
    (auction_id amount revealed : ℕ) (address bidder : String)
    → 0 < auction_id
    → auction_id < 2 ^ 64
    → revealed < 2 ^ 64
    → commitment_message auction_id address amount
      ≢ build_commitment_message revealed auction_id bidder
unfolding commitment_message build_commitment_message be_bytes
commitment_message-never auction_id amount revealed address bidder positive small_id small same =
    absurd (ground arith)

be_bytes_wraps : (n : ℕ) → be_bytes 8 (n + 2 ^ 64) ≡ be_bytes 8 n
unfolding be_bytes
be_bytes_wraps n = ground arith

-- The amount of a commitment of the browser is read modulo 2^64: amounts that differ by 2^64 have
-- the same bytes.
pub commitment_message_wraps :
    (auction_id amount : ℕ) (address : String)
    → commitment_message auction_id address (amount + 2 ^ 64)
      ≡ commitment_message auction_id address amount
unfolding commitment_message
commitment_message_wraps auction_id amount address =
    ap (λ low. be_bytes 8 auction_id ++ padded_address address ++ be_bytes 8 0 ++ low)
      (be_bytes_wraps amount)

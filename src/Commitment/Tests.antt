-- ===== src/Commitment/Tests.antt =====
-- frontend/src/lib/crypto.ts: the bytes of a concrete commitment.
use stellar_urithi_bidz.Prelude.{◌+◌, ◌^◌, ◌≡◌, ◌≢◌, refl, arith, length}
use stellar_urithi_bidz.Commitment.{
  be_bytes, padded_address, encode, commitment_message, build_commitment_message,
}
use stellar_urithi_bidz.Commitment.Mismatch.{commitment_message-never, commitment_message_wraps}

message_size : length (commitment_message 1 "GABC" 500) ≡ 80
unfolding commitment_message be_bytes padded_address encode
message_size = refl

contract_size : length (build_commitment_message 500 1 "GABC") ≡ 28
unfolding build_commitment_message be_bytes encode
contract_size = refl

commitment_message-never_example :
    commitment_message 1 "GABC" 500 ≢ build_commitment_message 500 1 "GABC"
commitment_message-never_example =
    commitment_message-never 1 500 500 "GABC" "GABC" (omega arith) (omega arith) (omega arith)

commitment_message_wraps_example :
    commitment_message 1 "GABC" (500 + 2 ^ 64) ≡ commitment_message 1 "GABC" 500
commitment_message_wraps_example = commitment_message_wraps 1 500 "GABC"

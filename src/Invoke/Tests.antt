-- ===== src/Invoke/Tests.antt =====
-- frontend/src/lib/stellar.ts: runs of `invokeContract` on concrete answers.
use stellar_urithi_bidz.Prelude.{
  ℕ, ◌<◌, none, ◌≡◌, ◌↔◌, refl, arith, eq_iff, ltb, if◌then◌else◌, fail, pass,
}
use stellar_urithi_bidz.Text.{contains, strip_prefix}
use stellar_urithi_bidz.Invoke.{
  Outside, Poll, SendResponse, confirmed, submitted, invoke_contract, submitted_as, poll_status,
  after_poll, caught, failed_message, sign,
}
use stellar_urithi_bidz.Invoke.Decisions.{IsUndecided, submitted_as_iff, submitted_as_unfound}

abbrev sent : SendResponse
sent = record { error_result_xdr = none; hash = "abc"; status = "PENDING" }

abbrev outside : (ℕ → Poll) → Outside
outside polls = record {
  account = pass tt;
  simulation = pass none;
  assembled = pass "tx";
  freighter = λ xdr. pass "signed";
  injected = none;
  send = λ signed. pass sent;
  polls = polls;
}

-- Two rounds without a decision, then success.
abbrev slow : ℕ → Poll
slow k = if ltb k 2 then (if ltb k 1 then fail none else pass "PENDING") else pass "SUCCESS"

found_late : invoke_contract (outside slow) ≡ pass ("abc", confirmed)
unfolding invoke_contract sign submitted_as poll_status after_poll caught
found_late = refl

submitted_as_iff_example :
    (submitted_as (outside slow) sent ≡ pass ("abc", confirmed))
    ↔ ((j : ℕ) × (j < 15) × ((k : ℕ) → k < j → IsUndecided (slow k)) × (slow j ≡ pass "SUCCESS"))
submitted_as_iff_example =
    submitted_as_iff (outside slow) sent (refl, ground (arith, eq_iff "abc" ""), refl)

abbrev not_found : ℕ → Poll
not_found k = pass "NOT_FOUND"

submitted_as_unfound_run : submitted_as (outside not_found) sent ≡ pass ("abc", submitted)
submitted_as_unfound_run =
    submitted_as_unfound (outside not_found) sent 0 "NOT_FOUND"
      (refl, ground (arith, eq_iff "abc" ""), refl) (omega arith)
      (λ k low high. absurd (omega (arith, high))) refl refl refl refl

failed : invoke_contract (outside (λ k. pass "FAILED")) ≡ fail "Transaction abc failed on-chain"
unfolding invoke_contract sign submitted_as poll_status after_poll caught failed_message contains
    strip_prefix
failed = refl

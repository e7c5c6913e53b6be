-- ===== src/Invoke/Decisions.antt =====
-- frontend/src/lib/stellar.ts: how a submission that the node accepts as pending ends.
use stellar_urithi_bidz.Prelude.{
  ℕ, ◌<◌, ◌⊎◌, inl, inr, ap, String, false, some, str_append, true, false, none, ◌≡◌, ◌≢◌, ◌↔◌,
  refl, sym, ◌∙◌, arith, str_eq, eq_iff, fail, pass, ◌>>=◌, bind-eq-pass,
}
use stellar_urithi_bidz.Text.{contains, contains-append, strip_prefix}
use stellar_urithi_bidz.Invoke.{
  Outside, Poll, SendResponse, confirmed, submitted, stop, go, caught, after_poll, failed_message,
  poll_status, max_attempts, submitted_as,
}
use stellar_urithi_bidz.Invoke.Polling.{
  Finds-poll_status, Waits, leaves_at, poll_status-Finds, stops_at,
}

-- An accepted submission: no error, a hash that is not empty, and the status "PENDING".
abbrev IsPending : SendResponse → Type 0
IsPending response =
    (response.error_result_xdr ≡ none) × (response.hash ≢ "") × (response.status ≡ "PENDING")

submitted_as-pending :
    (outside : Outside) (response : SendResponse)
    → IsPending response
    → submitted_as outside response ≡ (
        poll_status response.hash outside.polls max_attempts 0 "PENDING"
        >>= (λ outcome. pass (response.hash, outcome)))
unfolding submitted_as
submitted_as-pending outside response (no_error, has_hash, pending) =
    let not_empty : str_eq response.hash "" ≡ false = ground (arith, eq_iff response.hash "") in
    rw (no_error, not_empty, pending, submitted_as) refl

-- What a poll does that decides nothing: it answers "PENDING", throws something without a message, or
-- throws a message that does not contain "failed on-chain".
abbrev pub IsUndecided : Poll → Type 0
IsUndecided poll =
    (poll ≡ pass "PENDING")
    ⊎ ((poll ≡ fail none)
        ⊎ ((message : String) × (poll ≡ fail (some message))
            × (contains "failed on-chain" message ≡ false)))

IsUndecided-waits :
    (tx_hash : String) (poll : Poll)
    → IsUndecided poll
    → after_poll tx_hash "PENDING" poll ≡ go "PENDING"
unfolding after_poll caught
IsUndecided-waits tx_hash poll (inl pending) = rw (pending, after_poll) refl
IsUndecided-waits tx_hash poll (inr (inl thrown)) = rw (thrown, after_poll, caught) refl
IsUndecided-waits tx_hash poll (inr (inr (message, thrown, other))) =
    rw (thrown, other, after_poll, caught) refl

waits-IsUndecided :
    (tx_hash : String) (poll : Poll)
    → after_poll tx_hash "PENDING" poll ≡ go "PENDING"
    → IsUndecided poll
unfolding after_poll caught
waits-IsUndecided tx_hash (fail none) h = inr (inl refl)
waits-IsUndecided tx_hash (fail (some message)) h = inr (inr (message, refl, ground arith))
waits-IsUndecided tx_hash (pass found) h = inl (ap pass (ground arith))

-- A transaction that the node accepts as pending is returned as found on the chain exactly if one of
-- the first fifteen polls answers "SUCCESS", and each poll before it answers "PENDING", throws
-- something without a message, or throws a message that does not contain "failed on-chain".
pub submitted_as_iff :
    (outside : Outside) (response : SendResponse)
    → IsPending response
    → (submitted_as outside response ≡ pass (response.hash, confirmed)) ↔ (
        (j : ℕ) × (j < 15)
        × ((k : ℕ) → k < j → IsUndecided (outside.polls k))
        × (outside.polls j ≡ pass "SUCCESS"))
submitted_as_iff outside response pending = (
  (λ h.
      let chained = sym (submitted_as-pending outside response pending) ∙ h in
      let (outcome, e, same) =
        bind-eq-pass (poll_status response.hash outside.polls max_attempts 0 "PENDING") _ chained in
      let (j, _, soon, waits, found) =
        poll_status-Finds response.hash outside.polls max_attempts 0 (e ∙ ground (arith, same)) in
      (
        j,
        omega (arith, soon),
        (λ k sooner.
            waits-IsUndecided response.hash (outside.polls k) (waits k (omega arith) sooner)),
        found,
      )),
  (λ (j, soon, undecided, found).
      submitted_as-pending outside response pending
      ∙ rw
          (Finds-poll_status response.hash outside.polls max_attempts 0 (
            j,
            omega arith,
            omega (arith, soon),
            (λ k _ sooner. IsUndecided-waits response.hash (outside.polls k) (undecided k sooner)),
            found,
          ))
          refl),
)

-- If, before any other decision, one of the first fifteen polls answers a status other than
-- "PENDING", "SUCCESS" and "FAILED", such as "NOT_FOUND", the polling ends and the hash is returned
-- without an error, although the transaction was not found.
pub submitted_as_unfound :
    (outside : Outside) (response : SendResponse) (j : ℕ) (status : String)
    → IsPending response
    → j < max_attempts
    → Waits response.hash outside.polls 0 j
    → outside.polls j ≡ pass status
    → str_eq status "PENDING" ≡ false
    → str_eq status "SUCCESS" ≡ false
    → str_eq status "FAILED" ≡ false
    → submitted_as outside response ≡ pass (response.hash, submitted)
unfolding after_poll
submitted_as_unfound outside response j status pending soon w answer not_p not_s not_f =
    let leaves : after_poll response.hash "PENDING" (outside.polls j) ≡ go status =
      rw (answer, not_s, not_f, after_poll) refl in
    submitted_as-pending outside response pending
    ∙ rw
        (leaves_at response.hash outside.polls max_attempts 0 j status (omega arith)
          (omega (arith, soon)) w leaves not_p)
        refl

suffix : contains "failed on-chain" " failed on-chain" ≡ true
unfolding contains strip_prefix
suffix = refl

-- If the first poll that decides answers "FAILED", the failure is thrown: the loop's own `catch`
-- knows the message again, whatever the hash.
submitted_as_failed :
    (outside : Outside) (response : SendResponse) (j : ℕ)
    → IsPending response
    → j < max_attempts
    → Waits response.hash outside.polls 0 j
    → outside.polls j ≡ pass "FAILED"
    → submitted_as outside response ≡ fail (failed_message response.hash)
unfolding after_poll caught failed_message
submitted_as_failed outside response j pending soon w answer =
    let known : contains "failed on-chain" (failed_message response.hash) ≡ true =
      contains-append "failed on-chain" "Transaction " (str_append response.hash " failed on-chain")
        (contains-append "failed on-chain" response.hash " failed on-chain" suffix) in
    let stops : after_poll response.hash "PENDING" (outside.polls j)
        ≡ stop (fail (failed_message response.hash)) =
      rw (answer, known, after_poll, caught) refl in
    submitted_as-pending outside response pending
    ∙ rw
        (stops_at response.hash outside.polls max_attempts 0 j (fail (failed_message response.hash))
          (omega arith) (omega (arith, soon)) w stops)
        refl

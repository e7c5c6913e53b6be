-- ===== src/Invoke.antt =====
-- frontend/src/lib/stellar.ts: `invokeContract`, which simulates, signs, submits and polls. The RPC
-- node, the transaction builder of the SDK and the wallet are arguments: what each call returns, or
-- the message that it throws. The two seconds between polls are left out.
pub mod Decisions
pub mod Polling
mod Tests
use stellar_urithi_bidz.Prelude.{
  ℕ, zero, suc, String, List, Bool, true, false, Option, none, some, str_eq, str_append,
  if◌then◌else◌, Result, fail, pass, ◌>>=◌, require,
}
use stellar_urithi_bidz.Text.{contains}

-- The arguments of a call of the contract, before they are encoded.
pub data Arg : Type 0 where
  u64 i128 : ℕ → Arg
  address string : String → Arg
  bytes_n : List ℕ → Arg
  none_option : Arg

pub record SendResponse : Type 0 where
  pub error_result_xdr : Option String
  pub hash : String
  pub status : String

-- What `getTransaction` does: a status, or an exception with its message, if it has one.
abbrev pub Poll : Type 0
Poll = Result (Option String) String

-- The calls that one run makes, in their order: `fail` is an exception with its message.
pub record Outside : Type 0 where
  pub account : Result String (Unit {0})
  -- `none`, or the text of the error that the simulation reports
  pub simulation : Result String (Option String)
  -- the assembled transaction as XDR
  pub assembled : Result String String
  pub freighter : String → Result String String
  -- `window.freighter.signTransaction`, where it exists
  pub injected : Option (String → Result String String)
  pub send : String → Result String SendResponse
  pub polls : ℕ → Poll

-- `result`: the transaction that a poll found, or else the answer to the submission.
pub data Outcome : Type 0 where
  confirmed submitted : Outcome

-- What follows a poll: a return or an exception, or the loop's next test with a status.
pub data AfterPoll : Type 0 where
  stop : Result String Outcome → AfterPoll
  go : String → AfterPoll

unfoldable pub failed_message : String → String
failed_message tx_hash = str_append "Transaction " (str_append tx_hash " failed on-chain")

-- The `catch` of the loop: it throws the exception again only for a failure on the chain.
unfoldable pub caught : Option String → String → AfterPoll
unfolding contains
caught none status = go status
caught (some message) status =
    if contains "failed on-chain" message then stop (fail message) else go status

-- One round, after the two seconds; the exception of a failed transaction is caught as well.
unfoldable pub after_poll : String → String → Poll → AfterPoll
unfolding caught failed_message
after_poll tx_hash status (fail message) = caught message status
after_poll tx_hash status (pass found) =
    if str_eq found "SUCCESS"
    then stop (pass confirmed)
    else if str_eq found "FAILED"
    then caught (some (failed_message tx_hash)) found
    else go found

-- The `while` loop with the attempts that are left; the polls are numbered from `attempts`.
unfoldable pub poll_status : String → (ℕ → Poll) → ℕ → ℕ → String → Result String Outcome
unfolding after_poll
poll_status tx_hash polls zero attempts status = pass submitted
poll_status tx_hash polls (suc left) attempts status = elim (str_eq status "PENDING") [
  | false ↦ pass submitted
  | true ↦ elim (after_poll tx_hash status (polls attempts)) [
    | stop result ↦ result
    | go next ↦ poll_status tx_hash polls left (suc attempts) next
  ]
]

abbrev pub max_attempts : ℕ
max_attempts = 15

-- Freighter, and the injected wallet where that throws.
unfoldable pub sign : Outside → String → Result String String
sign outside xdr = elim (outside.freighter xdr) [
  | pass signed ↦ pass signed
  | fail message ↦ elim outside.injected [
    | some sign_transaction ↦ sign_transaction xdr
    | none ↦ fail (str_append "Freighter signing failed: " message)
  ]
]

abbrev simulated : Option String → Result String (Unit {0})
simulated none = pass tt
simulated (some error) =
    if str_eq error "" then pass tt else fail (str_append "Simulation failed: " error)

abbrev pub rejected : SendResponse → Result String (Unit {0})
rejected response = elim response.error_result_xdr [
  | none ↦ pass tt
  | some xdr ↦ if str_eq xdr "" then pass tt else fail (str_append "Transaction failed: " xdr)
]

abbrev pub no_hash : String
no_hash = "Transaction submission returned unexpected response"

-- From the answer to the submission on.
unfoldable pub submitted_as : Outside → SendResponse → Result String (String × Outcome)
unfolding poll_status
submitted_as outside response = rejected response >>= (λ _.
    if str_eq response.hash ""
    then fail no_hash
    else poll_status response.hash outside.polls max_attempts 0 response.status
      >>= (λ outcome. pass (response.hash, outcome)))

-- `invokeContract`, for a call that the SDK has encoded
unfoldable pub invoke_contract : Outside → Result String (String × Outcome)
unfolding sign submitted_as
invoke_contract outside =
    outside.account
    >>= (λ _. outside.simulation)
    >>= simulated
    >>= (λ _. outside.assembled)
    >>= sign outside
    >>= outside.send
    >>= submitted_as outside

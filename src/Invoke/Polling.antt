-- ===== src/Invoke/Polling.antt =====
-- frontend/src/lib/stellar.ts: what the polls of a submitted transaction decide.
use stellar_urithi_bidz.Prelude.{
  ℕ, zero, suc, ◌+◌, ◌<◌, ◌≤◌, String, false, none, some, ◌≡◌, ◌⊎◌, refl, sym, ap, ◌∙◌, ◌==◌, arith,
  str_eq, eq_iff, Bool-cases, eqb-eq, inl, inr, Result, fail, pass,
}
use stellar_urithi_bidz.Invoke.{
  Poll, Outcome, confirmed, submitted, AfterPoll, stop, go, caught, after_poll, poll_status,
}

-- Every poll from `first` up to `last` leaves the transaction pending.
abbrev pub Waits : String → (ℕ → Poll) → ℕ → ℕ → Type 0
Waits tx_hash polls first last =
    (k : ℕ) → first ≤ k → k < last → after_poll tx_hash "PENDING" (polls k) ≡ go "PENDING"

AfterPoll-cases :
    (a : AfterPoll)
    → ((result : Result String Outcome) × (a ≡ stop result)) ⊎ ((status : String) × (a ≡ go status))
AfterPoll-cases (stop result) = inl (result, refl)
AfterPoll-cases (go status) = inr (status, refl)

after_poll-confirmed :
    (tx_hash : String) (poll : Poll)
    → after_poll tx_hash "PENDING" poll ≡ stop (pass confirmed)
    → poll ≡ pass "SUCCESS"
unfolding after_poll caught
after_poll-confirmed tx_hash (fail none) h = cc
after_poll-confirmed tx_hash (fail (some message)) h = ground arith
after_poll-confirmed tx_hash (pass found) h = ground (arith, eq_iff found "SUCCESS")

-- A status other than "PENDING" ends the loop.
poll_status-ends :
    (tx_hash : String) (polls : ℕ → Poll) (left k : ℕ) (status : String)
    → str_eq status "PENDING" ≡ false
    → poll_status tx_hash polls left k status ≡ pass submitted
unfolding poll_status
poll_status-ends tx_hash polls zero k status other = refl
poll_status-ends tx_hash polls (suc left) k status other = rw (other, poll_status) refl

-- What the first poll that does not leave the transaction pending decides.
pub stops_at :
    (tx_hash : String) (polls : ℕ → Poll) (left k j : ℕ) (result : Result String Outcome)
    → k ≤ j
    → j < k + left
    → Waits tx_hash polls k j
    → after_poll tx_hash "PENDING" (polls j) ≡ stop result
    → poll_status tx_hash polls left k "PENDING" ≡ result
unfolding poll_status
stops_at tx_hash polls zero k j result low high w e = absurd (omega (arith, low, high))
stops_at tx_hash polls (suc left) k j result low high w e = elim (Bool-cases (k == j)) [
  | inl here ↦
      let same : k ≡ j = ground (arith, here) in
      rw (ap (λ i. after_poll tx_hash "PENDING" (polls i)) same ∙ e, poll_status) refl
  | inr there ↦
      let first = w k (omega arith) (ground (arith, there, low)) in
      rw (first, poll_status)
        (stops_at tx_hash polls left (suc k) j result (ground (arith, there, low))
          (omega (arith, high)) (λ i from to. w i (omega (arith, from)) to) e)
]

pub leaves_at :
    (tx_hash : String) (polls : ℕ → Poll) (left k j : ℕ) (status : String)
    → k ≤ j
    → j < k + left
    → Waits tx_hash polls k j
    → after_poll tx_hash "PENDING" (polls j) ≡ go status
    → str_eq status "PENDING" ≡ false
    → poll_status tx_hash polls left k "PENDING" ≡ pass submitted
unfolding poll_status
leaves_at tx_hash polls zero k j status low high w e other = absurd (omega (arith, low, high))
leaves_at tx_hash polls (suc left) k j status low high w e other = elim (Bool-cases (k == j)) [
  | inl here ↦
      let same : k ≡ j = ground (arith, here) in
      rw (ap (λ i. after_poll tx_hash "PENDING" (polls i)) same ∙ e, poll_status)
        (poll_status-ends tx_hash polls left (suc k) status other)
  | inr there ↦
      let first = w k (omega arith) (ground (arith, there, low)) in
      rw (first, poll_status)
        (leaves_at tx_hash polls left (suc k) j status (ground (arith, there, low))
          (omega (arith, high)) (λ i from to. w i (omega (arith, from)) to) e other)
]

abbrev pub Finds : String → (ℕ → Poll) → ℕ → ℕ → Type 0
Finds tx_hash polls left k =
    (j : ℕ) × (k ≤ j) × (j < k + left) × Waits tx_hash polls k j × (polls j ≡ pass "SUCCESS")

Finds-later :
    (tx_hash : String) (polls : ℕ → Poll) (left k : ℕ)
    → after_poll tx_hash "PENDING" (polls k) ≡ go "PENDING"
    → Finds tx_hash polls left (suc k)
    → Finds tx_hash polls (suc left) k
Finds-later tx_hash polls left k e (j, low, high, w, found) = (
  j,
  omega (arith, low),
  omega (arith, high),
  (λ i from to. elim (Bool-cases (k == i)) [
    | inl here ↦ rw (sym (eqb-eq k i here)) e
    | inr there ↦ w i (ground (arith, there, from)) to
  ]),
  found,
)

pub poll_status-Finds :
    (tx_hash : String) (polls : ℕ → Poll) (left k : ℕ)
    → poll_status tx_hash polls left k "PENDING" ≡ pass confirmed
    → Finds tx_hash polls left k
unfolding poll_status
poll_status-Finds tx_hash polls zero k h = cc
poll_status-Finds tx_hash polls (suc left) k h =
    elim (AfterPoll-cases (after_poll tx_hash "PENDING" (polls k))) [
      | inl (result, e) ↦
          let found : result ≡ pass confirmed = rw (e, poll_status) at h in
          (
            k,
            omega arith,
            omega arith,
            (λ i from to. absurd (omega (arith, from, to))),
            after_poll-confirmed tx_hash (polls k) (e ∙ ap stop found),
          )
      | inr (status, e) ↦
          let later : poll_status tx_hash polls left (suc k) status ≡ pass confirmed =
            rw (e, poll_status) at h in
          elim (Bool-cases (str_eq status "PENDING")) [
            | inl waits ↦
                let same : status ≡ "PENDING" = (eq_iff status "PENDING").0 waits in
                Finds-later tx_hash polls left k (e ∙ ap go same)
                  (poll_status-Finds tx_hash polls left (suc k) (rw same at later))
            | inr other ↦
                absurd (cc (later, poll_status-ends tx_hash polls left (suc k) status other))
          ]
    ]

pub Finds-poll_status :
    (tx_hash : String) (polls : ℕ → Poll) (left k : ℕ)
    → Finds tx_hash polls left k
    → poll_status tx_hash polls left k "PENDING" ≡ pass confirmed
unfolding after_poll
Finds-poll_status tx_hash polls left k (j, low, high, w, found) =
    stops_at tx_hash polls left k j (pass confirmed) low high w (rw (found, after_poll) refl)

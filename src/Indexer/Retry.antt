-- ===== src/Indexer/Retry.antt =====
-- backend/src/indexer/event_indexer.ts: `withRetry`. The function that is retried is its outcome at
-- each attempt, `none` for a throw; the delays between attempts are returned beside the result.
use stellar_urithi_bidz.Prelude.{
  ℕ, zero, suc, ◌+◌, ◌-◌, ◌*◌, ◌^◌, ◌≤◌, ◌<◌, true, List, [], ◌∷◌, Option, none, some, ◌==◌, leb,
  length, if◌then◌else◌, ◌≡◌, refl, inl, inr, arith, Bool-cases, All,
}

-- `Math.min(1000 * Math.pow(2, attempt - 1), 30000)`
pub delay_before_next : ℕ → ℕ
delay_before_next attempt =
    let delay = 1000 * 2 ^ (attempt - 1) in if leb delay 30000 then delay else 30000

-- The attempts from number `attempt` on, with `left` of them to go.
unfoldable pub attempts {ℓ} : {A : Type ℓ} → (ℕ → Option A) → ℕ → ℕ → Option A × List ℕ
attempts fn zero attempt = (none, [])
attempts fn (suc left) attempt =
    let (result, delays) = attempts fn left (suc attempt) in
    elim (fn attempt) [
      | some value ↦ (some value, [])
      | none ↦ (result, if leb 1 left then delay_before_next attempt ∷ delays else [])
    ]

-- `none` is the throw of the last error.
unfoldable pub with_retry {ℓ} : {A : Type ℓ} → (ℕ → Option A) → ℕ → Option A × List ℕ
with_retry fn max_retries = attempts fn max_retries 1

module _ {A : Type 0} (fn : ℕ → Option A) where
  attempts_fail :
      (left attempt : ℕ)
      → ((k : ℕ) → attempt ≤ k → k < attempt + left → fn k ≡ none)
      → ((attempts fn left attempt).0 ≡ none) × (length (attempts fn left attempt).1 ≡ left - 1)
  unfolding attempts
  attempts_fail zero attempt h = (refl, omega arith)
  attempts_fail (suc left) attempt h = ground (
    arith,
    h attempt (omega arith) (omega arith),
    attempts_fail left (suc attempt) (λ k l m. h k (omega arith) (omega arith)),
  )

  attempts_succeed :
      (left attempt s : ℕ) (value : A)
      → attempt ≤ s
      → s < attempt + left
      → ((k : ℕ) → attempt ≤ k → k < s → fn k ≡ none)
      → fn s ≡ some value
      → ((attempts fn left attempt).0 ≡ some value)
        × (length (attempts fn left attempt).1 ≡ s - attempt)
  unfolding attempts
  attempts_succeed zero attempt s value from fits before now = absurd (omega arith)
  attempts_succeed (suc left) attempt s value from fits before now =
      elim (Bool-cases (attempt == s)) [
        | inl same ↦ let here : attempt ≡ s = ground arith in rw here (ground arith)
        | inr other ↦
            let later : attempt < s = ground arith in
            let room : 1 ≤ left = omega arith in
            let more : leb 1 left ≡ true = ground arith in
            ground (
              arith,
              before attempt (omega arith) later,
              attempts_succeed left (suc attempt) s value later (omega arith)
                  (λ k l m. before k (omega arith) m) now,
            )
      ]

  attempts_wait : (left attempt : ℕ) → All (λ delay. delay ≤ 30000) (attempts fn left attempt).1
  unfolding attempts delay_before_next
  attempts_wait zero attempt = tt
  attempts_wait (suc left) attempt = ground (arith, attempts_wait left (suc attempt))

  -- If attempt number `s` is the first that does not throw, and is among the first `max_retries`, its
  -- value is the result, after `s - 1` delays of at most thirty seconds each.
  pub with_retry_first :
      (max_retries s : ℕ) (value : A)
      → 1 ≤ s
      → s ≤ max_retries
      → ((k : ℕ) → 1 ≤ k → k < s → fn k ≡ none)
      → fn s ≡ some value
      → ((with_retry fn max_retries).0 ≡ some value)
        × (length (with_retry fn max_retries).1 ≡ s - 1)
        × All (λ delay. delay ≤ 30000) (with_retry fn max_retries).1
  unfolding with_retry
  with_retry_first max_retries s value from fits before now =
      let (result, delays) = attempts_succeed max_retries 1 s value from (omega arith) before now in
      (result, delays, attempts_wait max_retries 1)

  -- If the first `max_retries` attempts throw, so does `withRetry`, after one delay fewer.
  pub with_retry_throws :
      (max_retries : ℕ)
      → ((k : ℕ) → 1 ≤ k → k ≤ max_retries → fn k ≡ none)
      → ((with_retry fn max_retries).0 ≡ none)
        × (length (with_retry fn max_retries).1 ≡ max_retries - 1)
  unfolding with_retry
  with_retry_throws max_retries h = attempts_fail max_retries 1 (λ k l m. h k l (omega arith))

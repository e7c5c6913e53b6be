-- ===== src/Auth/Replay.antt =====
-- backend/src/middleware/auth.ts: the replay cache over a history of requests and clean-ups.
use stellar_urithi_bidz.Prelude.{
  Result, fail, pass, ℕ, ◌+◌, ◌≤◌, ◌<◌, String, none, some, List, [], ◌∷◌, insert, ◌≡◌, ◌⊎◌, inl,
  inr, refl, arith, str_eq, str_eq_refl, leb, Bool-cases,
}
use stellar_urithi_bidz.Auth.{
  AuthError, Verifier, SeenNonces, AuthRequest, check, stellar_auth_middleware, forget_expired,
  replay_key, auth_nonce_max_age_ms,
}
use stellar_urithi_bidz.Auth.Message.{IsGenuine, genuine-check}

-- What happens to the cache: a request, or the timer.
pub data Op : Type 0 where
  attempt : AuthRequest → ℕ → Op
  forget : ℕ → Op

abbrev pub time_of : Op → ℕ
time_of (attempt req now) = now
time_of (forget now) = now

abbrev pub IsOrdered : ℕ → List Op → Type 0
IsOrdered last [] = Unit {0}
IsOrdered last (op ∷ ops) = (last ≤ time_of op) × IsOrdered (time_of op) ops

-- The time of the last operation.
abbrev pub end_time : ℕ → List Op → ℕ
end_time last [] = last
end_time last (op ∷ ops) = end_time (time_of op) ops

module _ (verify : Verifier) where
  unfoldable pub apply : Op → SeenNonces → SeenNonces
  apply (attempt req now) seen = (stellar_auth_middleware verify req now seen).0
  apply (forget now) seen = forget_expired now seen

  unfoldable pub run : SeenNonces → List Op → SeenNonces
  run seen [] = seen
  run seen (op ∷ ops) = run (apply op seen) ops

  -- The key was marked at `marked` or later, or so long ago that its nonce is too old.
  pub Remembers : String → ℕ → ℕ → SeenNonces → Type 0
  Remembers key marked last seen =
      ((at : ℕ) × (seen key ≡ some at) × (marked ≤ at)) ⊎ (marked + auth_nonce_max_age_ms < last)

  attempt-Remembers :
      (req : AuthRequest) (key : String) (marked last now : ℕ) (seen : SeenNonces)
      → last ≤ now
      → marked ≤ last
      → Remembers key marked last seen
      → Remembers key marked now (stellar_auth_middleware verify req now seen).0
  unfolding Remembers stellar_auth_middleware
  attempt-Remembers req key marked last now seen order later (inr old) = inr (omega arith)
  attempt-Remembers req key marked last now seen order later (inl (at, e, h)) =
      go (check verify req now seen)
    where
      go :
          (r : Result AuthError String)
          → Remembers key marked now
              (elim r as (λ _. SeenNonces × Result AuthError String) [
                | pass k ↦ (insert k now seen, pass k)
                | fail f ↦ (seen, fail f)
              ]).0
      go (pass k) = elim (Bool-cases (str_eq k key)) [
        | inl same ↦ inl (now, ground arith, omega arith)
        | inr other ↦ inl (at, ground arith, h)
      ]
      go (fail f) = inl (at, e, h)

  forget-Remembers :
      (key : String) (marked last now : ℕ) (seen : SeenNonces)
      → last ≤ now
      → Remembers key marked last seen
      → Remembers key marked now (forget_expired now seen)
  unfolding Remembers forget_expired
  forget-Remembers key marked last now seen order (inr old) = inr (omega arith)
  forget-Remembers key marked last now seen order (inl (at, e, h)) =
      elim (Bool-cases (leb now (at + auth_nonce_max_age_ms))) [
        | inl fresh ↦ inl (at, ground arith, h)
        | inr stale ↦ inr (ground arith)
      ]

  run-Remembers :
      (key : String) (marked last : ℕ) (seen : SeenNonces) (ops : List Op)
      → marked ≤ last
      → IsOrdered last ops
      → Remembers key marked last seen
      → Remembers key marked (end_time last ops) (run seen ops)
  unfolding run apply
  run-Remembers key marked last seen [] h _ m = m
  run-Remembers key marked last seen (attempt req now ∷ ops) h (order, rest) m =
      run-Remembers key marked now (stellar_auth_middleware verify req now seen).0 ops (omega arith)
        rest (attempt-Remembers req key marked last now seen order h m)
  run-Remembers key marked last seen (forget now ∷ ops) h (order, rest) m =
      run-Remembers key marked now (forget_expired now seen) ops (omega arith) rest
        (forget-Remembers key marked last now seen order m)

  -- What the middleware leaves after a genuine request.
  marks :
      (req : AuthRequest) (now : ℕ) (seen : SeenNonces) (g : IsGenuine verify req now seen)
      → (stellar_auth_middleware verify req now seen).0
        ≡ insert (replay_key g.address g.nonce) now seen
  unfolding stellar_auth_middleware
  marks req now seen g = ground (arith, genuine-check verify req now seen g)

  -- A nonce that was not ahead of the clock when it was accepted is never accepted again for the
  -- same address, whatever requests and clean-ups come between, as long as the clock does not go
  -- back.
  pub no_replay :
      (req again : AuthRequest) (now later : ℕ) (seen : SeenNonces) (ops : List Op)
      (first : IsGenuine verify req now seen)
      (second : IsGenuine verify again later
        (run (stellar_auth_middleware verify req now seen).0 ops))
      → first.nonce_ms ≤ now
      → IsOrdered now ops
      → end_time now ops ≤ later
      → ¬ ((second.address ≡ first.address) × (second.nonce ≡ first.nonce))
  unfolding Remembers
  no_replay req again now later seen ops first second past order after (same_address, same_nonce) =
      let key = replay_key first.address first.nonce in
      let marked : Remembers key now now (stellar_auth_middleware verify req now seen).0 =
        inl (now, rw (marks req now seen first, str_eq_refl key) refl, omega arith) in
      let unseen = second.unseen in
      let stamped = second.stamped in
      elim (run-Remembers key now now (stellar_auth_middleware verify req now seen).0 ops
        (omega arith) order marked) [
          | inl (at, e, _) ↦ cc
          | inr old ↦ ground (arith, first.stamped, second.stamped, second.not_old)
        ]

  forgotten :
      (key : String) (now cleaned : ℕ) (seen : SeenNonces)
      → now + auth_nonce_max_age_ms < cleaned
      → forget_expired cleaned (insert key now seen) key ≡ none
  unfolding forget_expired
  forgotten key now cleaned seen old = ground (arith, str_eq_refl key)

  genuine_again :
      (req : AuthRequest) (now later : ℕ) (seen seen' : SeenNonces)
      (g : IsGenuine verify req now seen)
      → seen' (replay_key g.address g.nonce) ≡ none
      → now ≤ later
      → later ≤ g.nonce_ms + auth_nonce_max_age_ms
      → check verify req later seen' ≡ pass (replay_key g.address g.nonce)
  genuine_again req now later seen seen' g gone order fresh =
      genuine-check verify req later seen' (record {
        address = g.address;
        signature = g.signature;
        message = g.message;
        nonce = g.nonce;
        nonce_ms = g.nonce_ms;
        claimed = g.claimed;
        signed = g.signed;
        sent = g.sent;
        rest = g.rest;
        prefixed = g.prefixed;
        trimmed = g.trimmed;
        stamped = g.stamped;
        not_old = fresh;
        not_future = omega (arith, g.not_future);
        unseen = gone;
        verified = g.verified;
        has_address = g.has_address;
        has_signature = g.has_signature;
        has_message = g.has_message;
        has_nonce = g.has_nonce;
      })

  -- A nonce that was ahead of the clock when it was accepted is accepted a second time, once the
  -- timer has run more than five minutes after the first time and while the nonce is still fresh.
  pub replay_after_forget :
      (req : AuthRequest) (now cleaned later : ℕ) (seen : SeenNonces)
      (first : IsGenuine verify req now seen)
      → now + auth_nonce_max_age_ms < cleaned
      → cleaned ≤ later
      → later ≤ first.nonce_ms + auth_nonce_max_age_ms
      → (stellar_auth_middleware verify req later
          (forget_expired cleaned (stellar_auth_middleware verify req now seen).0)).1
        ≡ pass (replay_key first.address first.nonce)
  unfolding stellar_auth_middleware
  replay_after_forget req now cleaned later seen first old after fresh =
      let key = replay_key first.address first.nonce in
      rw (
        marks req now seen first,
        stellar_auth_middleware,
        genuine_again req now later seen (forget_expired cleaned (insert key now seen)) first
            (forgotten key now cleaned seen old) (omega arith) fresh,
      )

-- ===== src/RateLimiter/Fairness.antt =====
-- backend/src/middleware/rateLimiter.ts: a refusal is earned by requests that were let through.
use stellar_urithi_bidz.Prelude.{
  ℕ, ◌≤◌, String, true, false, List, [], ◌∷◌, ◌++◌, ◌≡◌, arith, inl, inr, length, length-append,
  empty, str_eq_refl, leb, filter-append, append_assoc, append-nil, Bool-cases, str_eq, eq_iff,
}
use stellar_urithi_bidz.RateLimiter.{
  RateLimitConfig, Store, Op, request, clean, apply, live, in_window, timestamps_of, limit, cleanup,
  is_passed,
}
use stellar_urithi_bidz.RateLimiter.Window.{
  timestamps-limit, timestamps-limit_other, timestamps-cleanup, admitted_by, admitted,
}

-- Every limiter of the history has a limit of at most `most`.
abbrev pub IsWithin : ℕ → List Op → Type 0
IsWithin most [] = Unit {0}
IsWithin most (request config key now ∷ ops) = (config.max_requests ≤ most) × IsWithin most ops
IsWithin most (clean default_window now ∷ ops) = IsWithin most ops

live-live-le :
    (w w' now later : ℕ) (xs : List ℕ)
    → length (live w later (live w' now xs)) ≤ length (live w later xs)
live-live-le w w' now later [] = omega arith
live-live-le w w' now later (x ∷ xs) = ground (arith, live-live-le w w' now later xs)

live-shrink :
    (w w' now later : ℕ) (past xs new : List ℕ)
    → length (live w later xs) ≤ length (live w later past)
    → length (live w later (live w' now xs ++ new)) ≤ length (live w later (past ++ new))
live-shrink w w' now later past xs new h =
    rw
      (
        filter-append (in_window w later) (live w' now xs) new,
        filter-append (in_window w later) past new,
        length-append (live w later (live w' now xs)) (live w later new),
        length-append (live w later past) (live w later new),
      )
      (omega (arith, live-live-le w w' now later xs))

-- The bucket shows no live time but admitted ones.
pub Earned : ℕ → String → List ℕ → Store → Type 0
Earned window key past store =
    (later : ℕ)
    → length (live window later (timestamps_of store key)) ≤ length (live window later past)

module _ (window most : ℕ) (key : String) (past : List ℕ) (store : Store)
    (earned : Earned window key past store) where
  request-Earned :
      (config : RateLimitConfig) (k : String) (now : ℕ)
      → config.max_requests ≤ most
      → Earned window key
          (past ++ admitted_by key most store (request config k now))
          (limit config k now store).0
  unfolding Earned admitted_by
  request-Earned config k now within later = elim (Bool-cases (str_eq k key)) [
    | inl same ↦
        let small : leb config.max_requests most ≡ true = ground arith in
        rw ((eq_iff k key).0 same, timestamps-limit config key now store, str_eq_refl key, small)
          (live-shrink window config.window_ms now later past (timestamps_of store key) _
            (earned later))
    | inr other ↦
        rw (timestamps-limit_other config k key now store other, other, append-nil past)
          (earned later)
  ]

  clean-Earned :
      (dw now : ℕ)
      → Earned window key (past ++ admitted_by key most store (clean dw now)) (cleanup dw now store)
  unfolding Earned admitted_by
  clean-Earned dw now later =
      rw (append-nil past, timestamps-cleanup dw now store key)
        (omega (arith, live-live-le window dw now later (timestamps_of store key), earned later))

-- The store after a history.
unfoldable pub run : Store → List Op → Store
run store [] = store
run store (op ∷ ops) = run (apply op store) ops

run-Earned :
    (window most : ℕ) (key : String) (past : List ℕ) (store : Store) (ops : List Op)
    → Earned window key past store
    → IsWithin most ops
    → Earned window key (past ++ admitted key most store ops) (run store ops)
unfolding admitted run apply
run-Earned window most key past store [] earned _ = rw (append-nil past) earned
run-Earned window most key past store (request config k now ∷ ops) earned (within, rest) =
    rw (← append_assoc past (admitted_by key most store (request config k now)) _) (
      run-Earned window most key (past ++ admitted_by key most store (request config k now))
        (limit config k now store).0 ops
        (request-Earned window most key past store earned config k now within) rest)
run-Earned window most key past store (clean dw now ∷ ops) earned rest =
    rw (← append_assoc past (admitted_by key most store (clean dw now)) _) (
      run-Earned window most key (past ++ admitted_by key most store (clean dw now))
        (cleanup dw now store) ops (clean-Earned window most key past store earned dw now) rest)

limit_refuses :
    (config : RateLimitConfig) (key : String) (now : ℕ) (store : Store)
    → is_passed (limit config key now store).1 ≡ false
    → config.max_requests ≤ length (live config.window_ms now (timestamps_of store key))
unfolding limit
limit_refuses config key now store h = ground arith

-- After any history from an empty store through limiters of at most `most` requests, whatever the
-- clock does: a limiter refuses a request only if requests of the same key that were let through,
-- as many as its limit, are still in its window.
pub refusal_earned :
    (config : RateLimitConfig) (most : ℕ) (key : String) (now : ℕ) (ops : List Op)
    → IsWithin most ops
    → is_passed (limit config key now (run empty ops)).1 ≡ false
    → config.max_requests ≤ length (live config.window_ms now (admitted key most empty ops))
unfolding Earned
refusal_earned config most key now ops within refused = omega (
  arith,
  limit_refuses config key now (run empty ops) refused,
  run-Earned config.window_ms most key [] empty ops (λ later. omega arith) within now,
)

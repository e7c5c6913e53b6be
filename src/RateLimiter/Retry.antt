-- ===== src/RateLimiter/Retry.antt =====
-- backend/src/middleware/rateLimiter.ts: what the `Retry-After` header promises.
use stellar_urithi_bidz.Prelude.{
  ℕ, ◌+◌, ◌*◌, ◌≤◌, ◌<◌, String, true, List, [], ◌∷◌, some, ◌≡◌, arith, length, length-filter-le,
  str_eq_refl, head?,
}
use stellar_urithi_bidz.RateLimiter.{
  RateLimitConfig, Store, refused, live, in_window, timestamps_of, limit, retry_after, is_passed,
}

-- When its oldest entry has left the window, a bucket of at most `most` entries has room.
room_after :
    (window now later most r : ℕ) (xs : List ℕ)
    → retry_after window now (head? xs) ≡ some r
    → now + 1000 * r ≤ later
    → length xs ≤ most
    → length (live window later xs) < most
unfolding retry_after
room_after window now later most r [] e h k = ground arith
room_after window now later most r (t ∷ ts) e h k =
    ground (arith, length-filter-le (in_window window later) ts)

limit_passes :
    (config : RateLimitConfig) (key : String) (now : ℕ) (store : Store)
    → length (live config.window_ms now (timestamps_of store key)) < config.max_requests
    → is_passed (limit config key now store).1 ≡ true
unfolding limit
limit_passes config key now store h = ground arith

-- A refusal leaves the pruned bucket, and its retry time is counted from the oldest entry.
refusal :
    (config : RateLimitConfig) (key : String) (now : ℕ) (store : Store) {r : ℕ} {m : ℕ}
    → (limit config key now store).1 ≡ refused (some r) m
    → (retry_after config.window_ms now
          (head? (live config.window_ms now (timestamps_of store key)))
        ≡ some r)
      × (timestamps_of (limit config key now store).0 key
          ≡ live config.window_ms now (timestamps_of store key))
unfolding limit
refusal config key now store e = ground (arith, str_eq_refl key)

-- A refused client whose bucket holds no more entries than its limiter's limit, and which sends
-- nothing until the announced seconds are over, is let through then.
pub retry_admits :
    (config : RateLimitConfig) (key : String) (now later r m : ℕ) (store : Store)
    → (limit config key now store).1 ≡ refused (some r) m
    → length (live config.window_ms now (timestamps_of store key)) ≤ config.max_requests
    → now + 1000 * r ≤ later
    → is_passed (limit config key later (limit config key now store).0).1 ≡ true
retry_admits config key now later r m store e full waited =
    let (announced, kept) = refusal config key now store e in
    limit_passes config key later (limit config key now store).0 (
      rw kept (room_after config.window_ms now later config.max_requests r _ announced waited full))

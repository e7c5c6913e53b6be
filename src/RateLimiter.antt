-- ===== src/RateLimiter.antt =====
-- backend/src/middleware/rateLimiter.ts: the in-memory sliding-window limiter. Every limiter that
-- `createRateLimiter` makes works on the one `store` of the module. The time of a call is an
-- argument; log lines are left out, and so is `initRedis`, whose client no request reads.
pub mod Window
pub mod Sharing
pub mod Retry
pub mod Fairness
mod Tests
use stellar_urithi_bidz.Prelude.{
  ℕ, ◌+◌, ◌-◌, ◌/◌, String, Bool, List, [], ◌∷◌, ◌++◌, Option, none, some, StrMap, length, filter,
  head?, insert, ltb, leb, if◌then◌else◌,
}
use stellar_urithi_bidz.Text.{before, trim}

-- `RateLimitConfig`; the key generator is applied by the caller.
pub record RateLimitConfig : Type 0 where
  pub max_requests : ℕ
  pub window_ms : ℕ

-- `ClientBucket`
pub record ClientBucket : Type 0 where
  pub timestamps : List ℕ

abbrev pub Store : Type 0
Store = StrMap ClientBucket

-- What a request leaves with: `next()` and its two headers, or status 429 with its three.
pub data Outcome : Type 0 where
  passed : ℕ → ℕ → Outcome
  refused : Option ℕ → ℕ → Outcome

-- `now - t < windowMs`, also where `t` is later than `now`
abbrev pub in_window : ℕ → ℕ → ℕ → Bool
in_window window now t = ltb now (t + window)

abbrev pub live : ℕ → ℕ → List ℕ → List ℕ
live window now = filter (in_window window now)

abbrev pub bucket_of : Option ClientBucket → ClientBucket
bucket_of none = record { timestamps = [] }
bucket_of (some bucket) = bucket

abbrev pub timestamps_of : Store → String → List ℕ
timestamps_of store key = (bucket_of (store key)).timestamps

-- `Math.ceil((windowMs - (now - oldest)) / 1000)`; `none` is NaN, from an empty bucket
unfoldable pub retry_after : ℕ → ℕ → Option ℕ → Option ℕ
retry_after window now none = none
retry_after window now (some oldest) = some ((window + oldest - now + 999) / 1000)

-- The end of the middleware, on the pruned timestamps.
unfoldable pub admit : RateLimitConfig → String → ℕ → Store → List ℕ → Store × Outcome
admit config key now store timestamps =
    if leb config.max_requests (length timestamps)
    then (
      insert key (record { timestamps = timestamps }) store,
      refused (retry_after config.window_ms now (head? timestamps)) config.max_requests,
    )
    else (
      insert key (record { timestamps = timestamps ++ now ∷ [] }) store,
      passed config.max_requests (config.max_requests - length (timestamps ++ now ∷ [])),
    )

-- The middleware of `createRateLimiter(config)`.
unfoldable pub limit : RateLimitConfig → String → ℕ → Store → Store × Outcome
unfolding admit
limit config key now store =
    admit config key now store (live config.window_ms now (timestamps_of store key))

-- The five-minute timer: it prunes by the default window and drops what is empty.
unfoldable pub cleanup : ℕ → ℕ → Store → Store
cleanup default_window now store key = elim (store key) [
  | none ↦ none
  | some bucket ↦ elim (live default_window now bucket.timestamps) [
    | [] ↦ none
    | t ∷ ts ↦ some (record { timestamps = t ∷ ts })
  ]
]

-- The request's parts that the default key generator reads; `forwarded` is `none` where the header
-- is absent or no single text.
pub record Client : Type 0 where
  pub forwarded : Option String
  pub ip : Option String
  pub remote_address : Option String

abbrev or_else {ℓ} : {A : Type ℓ} → Option A → A → A
or_else none a = a
or_else (some b) a = b

unfoldable pub default_key_generator : Client → String
default_key_generator c = elim c.forwarded [
  | some forwarded ↦ trim (before b',' forwarded)
  | none ↦ or_else c.ip (or_else c.remote_address "unknown")
]

-- `defaultRateLimiter` and `strictRateLimiter` with no environment variable set
abbrev pub default_rate_limiter : RateLimitConfig
default_rate_limiter = record { max_requests = 100; window_ms = 60000 }

abbrev pub strict_rate_limiter : RateLimitConfig
strict_rate_limiter = record { max_requests = 20; window_ms = 60000 }

-- What happens to the store: requests through any limiter, and the timer.
pub data Op : Type 0 where
  request : RateLimitConfig → String → ℕ → Op
  clean : ℕ → ℕ → Op

unfoldable pub apply : Op → Store → Store
apply (request config key now) store = (limit config key now store).0
apply (clean default_window now) store = cleanup default_window now store

abbrev pub time_of : Op → ℕ
time_of (request config key now) = now
time_of (clean default_window now) = now

abbrev pub window_of : Op → ℕ
window_of (request config key now) = config.window_ms
window_of (clean default_window now) = default_window

abbrev pub is_passed : Outcome → Bool
is_passed (passed limit remaining) = Bool.true
is_passed (refused retry limit) = Bool.false

-- ===== src/RateLimiter/Sharing.antt =====
-- backend/src/middleware/rateLimiter.ts: two limiters on the one store. A POST of
-- backend/src/routes/auctions.ts passes `defaultRateLimiter`, which backend/src/index.ts puts before
-- all routes, and then `strictRateLimiter`.
use stellar_urithi_bidz.Prelude.{
  ℕ, zero, suc, ◌+◌, ◌≤◌, ◌<◌, String, true, false, List, [], ◌∷◌, ◌++◌, ◌≡◌, refl, arith, length,
  length-append, empty, ltb, if◌then◌else◌, filter-append, append_assoc,
}
use stellar_urithi_bidz.RateLimiter.{
  RateLimitConfig, Store, Outcome, live, in_window, timestamps_of, limit, is_passed,
}
use stellar_urithi_bidz.RateLimiter.Window.{timestamps-limit, live-live}

-- A GET, and a POST whose second limiter runs at `later`, if the first lets it through.
pub get : RateLimitConfig → String → ℕ → Store → Store × Outcome
get default key now store = limit default key now store

unfoldable pub post : RateLimitConfig → RateLimitConfig → String → ℕ → ℕ → Store → Store × Outcome
post default strict key now later store =
    let (store', outcome) = limit default key now store in
    if is_passed outcome then limit strict key later store' else (store', outcome)

-- `n` GETs in the same millisecond
pub gets : RateLimitConfig → ℕ → String → ℕ → Store → Store
gets default zero key now store = store
gets default (suc n) key now store = (get default key now (gets default n key now store)).0

repeat : ℕ → ℕ → List ℕ
repeat zero t = []
repeat (suc n) t = repeat n t ++ t ∷ []

length-repeat : (n t : ℕ) → length (repeat n t) ≡ n
unfolding repeat
length-repeat zero t = refl
length-repeat (suc n) t = omega (arith, length-append (repeat n t) (t ∷ []), length-repeat n t)

live-repeat :
    (window n t later : ℕ) → later < t + window → live window later (repeat n t) ≡ repeat n t
unfolding repeat
live-repeat window zero t later h = refl
live-repeat window (suc n) t later h =
    rw
      (filter-append (in_window window later) (repeat n t) (t ∷ []), live-repeat window n t later h)
      (ground arith)

is_passed-limit :
    (config : RateLimitConfig) (key : String) (now : ℕ) (store : Store)
    → is_passed (limit config key now store).1
      ≡ ltb (length (live config.window_ms now (timestamps_of store key))) config.max_requests
unfolding limit
is_passed-limit config key now store = ground arith

-- The next GET passes, and adds its time.
module _ (default : RateLimitConfig) (n : ℕ) (key : String) (now : ℕ) (store : Store) where
  next_get_passes :
      timestamps_of store key ≡ repeat n now
      → 0 < default.window_ms
      → n < default.max_requests
      → is_passed (limit default key now store).1 ≡ true
  next_get_passes e w h =
      rw
        (
          is_passed-limit default key now store,
          e,
          live-repeat default.window_ms n now now (omega arith),
          length-repeat n now,
        )
        (ground arith)

  next_get_adds :
      timestamps_of store key ≡ repeat n now
      → 0 < default.window_ms
      → n < default.max_requests
      → timestamps_of (limit default key now store).0 key ≡ repeat (suc n) now
  unfolding repeat
  next_get_adds e w h = rw (
    timestamps-limit default key now store,
    next_get_passes e w h,
    e,
    live-repeat default.window_ms n now now (omega arith),
  )

timestamps-gets :
    (default : RateLimitConfig) (n : ℕ) (key : String) (now : ℕ)
    → 0 < default.window_ms
    → n ≤ default.max_requests
    → timestamps_of (gets default n key now empty) key ≡ repeat n now
unfolding gets get repeat
timestamps-gets default zero key now w h = refl
timestamps-gets default (suc n) key now w h =
    next_get_adds default n key now (gets default n key now empty)
      (timestamps-gets default n key now w (omega arith)) w h

used_up_refuses :
    (strict : RateLimitConfig) (n : ℕ) (key : String) (now later : ℕ) (store : Store)
    → timestamps_of store key ≡ repeat n now
    → later < now + strict.window_ms
    → strict.max_requests ≤ n
    → is_passed (limit strict key later store).1 ≡ false
used_up_refuses strict n key now later store e w h =
    rw
      (
        is_passed-limit strict key later store,
        e,
        live-repeat strict.window_ms n now later w,
        length-repeat n now,
      )
      (ground arith)

-- GETs alone use up the strict limit: from an empty store, after `n` GETs within the default limit,
-- a POST within the strict window is refused, although none was made before, once `n + 1` reaches
-- the strict limit.
pub post_refused_after_gets :
    (default strict : RateLimitConfig) (n : ℕ) (key : String) (now later : ℕ)
    → 0 < default.window_ms
    → later < now + strict.window_ms
    → n < default.max_requests
    → strict.max_requests ≤ n + 1
    → is_passed (post default strict key now later (gets default n key now empty)).1 ≡ false
unfolding post
post_refused_after_gets default strict n key now later w v room most =
    let before = timestamps-gets default n key now w (omega arith) in
    let store = gets default n key now empty in
    rw (next_get_passes default n key now store before w room) (
      used_up_refuses strict (suc n) key now later (limit default key now store).0
        (next_get_adds default n key now store before w room) v (omega arith))

-- A POST that both limiters let through, with windows of one length, stands twice in the bucket.
pub timestamps-post :
    (default strict : RateLimitConfig) (key : String) (now later : ℕ) (store : Store)
    → default.window_ms ≡ strict.window_ms
    → now ≤ later
    → later < now + strict.window_ms
    → is_passed (post default strict key now later store).1 ≡ true
    → timestamps_of (post default strict key now later store).0 key
      ≡ live strict.window_ms later (timestamps_of store key) ++ now ∷ later ∷ []
unfolding post
timestamps-post default strict key now later store same order w passes = ground (
  arith,
  timestamps-limit default key now store,
  timestamps-limit strict key later (limit default key now store).0,
  live-live strict.window_ms default.window_ms now later (timestamps_of store key),
  filter-append (in_window strict.window_ms later)
      (live default.window_ms now (timestamps_of store key)) (now ∷ []),
  append_assoc (live strict.window_ms later (timestamps_of store key)) (now ∷ []) (later ∷ []),
)

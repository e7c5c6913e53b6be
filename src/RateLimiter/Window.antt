-- ===== src/RateLimiter/Window.antt =====
-- The bound that a sliding window promises, over every history of the shared store.
use stellar_urithi_bidz.Prelude.{
  ℕ, ◌+◌, ◌≤◌, ◌<◌, String, Bool, ◌&&◌, List, [], ◌∷◌, ◌++◌, ◌≡◌, refl, inl, inr, arith, length,
  filter, append-nil, append_assoc, empty, str_eq_refl, length-append, filter-append, ltb, leb,
  if◌then◌else◌, str_eq, eq_iff, Bool-cases,
}
use stellar_urithi_bidz.RateLimiter.{
  RateLimitConfig, Store, live, in_window, timestamps_of, limit, cleanup, Op, request, clean, apply,
  time_of, window_of, is_passed,
}

-- The times that an operation admits for `key` through a limiter of at most `most` requests.
unfoldable pub admitted_by : String → ℕ → Store → Op → List ℕ
admitted_by key most store (request config k now) =
    if str_eq k key && leb config.max_requests most && is_passed (limit config k now store).1
    then now ∷ []
    else []
admitted_by key most store (clean default_window now) = []

-- All of them, in order, over a history from `store`.
unfoldable pub admitted : String → ℕ → Store → List Op → List ℕ
admitted key most store [] = []
admitted key most store (op ∷ ops) =
    admitted_by key most store op ++ admitted key most (apply op store) ops

-- The clock never goes back, and no operation prunes by a window shorter than `window`.
abbrev pub IsOrdered : ℕ → ℕ → List Op → Type 0
IsOrdered window last [] = Unit {0}
IsOrdered window last (op ∷ ops) =
    (last ≤ time_of op) × (window ≤ window_of op) × IsOrdered window (time_of op) ops

-- `from ≤ t < from + window`
abbrev pub between : ℕ → ℕ → ℕ → Bool
between window from t = leb from t && ltb t (from + window)

-- Pruning by a window that is no shorter, no later than `later`, loses nothing that is live later.
pub live-live :
    (w w' now later : ℕ) (xs : List ℕ)
    → w ≤ w'
    → now ≤ later
    → live w later (live w' now xs) ≡ live w later xs
live-live w w' now later [] h k = refl
live-live w w' now later (x ∷ xs) h k = ground (arith, live-live w w' now later xs)

live-le-live :
    (w w' now : ℕ) (xs : List ℕ) → w ≤ w' → length (live w now xs) ≤ length (live w' now xs)
live-le-live w w' now [] h = omega arith
live-le-live w w' now (x ∷ xs) h = ground (arith, live-le-live w w' now xs)

-- A window that holds `now` holds no other time but live ones.
between-le-live :
    (w from now : ℕ) (xs : List ℕ)
    → now < from + w
    → length (filter (between w from) xs) ≤ length (live w now xs)
between-le-live w from now [] h = omega arith
between-le-live w from now (x ∷ xs) h = ground (arith, between-le-live w from now xs)

-- The bucket still shows every admitted time that is live now or later.
pub Shows : ℕ → String → ℕ → List ℕ → Store → Type 0
Shows window key last past store =
    (later : ℕ)
    → last ≤ later
    → length (live window later past) ≤ length (live window later (timestamps_of store key))

abbrev pub Bounded : ℕ → ℕ → List ℕ → Type 0
Bounded window most past = (from : ℕ) → length (filter (between window from) past) ≤ most

pub timestamps-cleanup :
    (dw now : ℕ) (store : Store) (key : String)
    → timestamps_of (cleanup dw now store) key ≡ live dw now (timestamps_of store key)
unfolding cleanup
timestamps-cleanup dw now store key = ground arith

-- What `limit` leaves in the bucket of `key`, and what it admits for it.
pub timestamps-limit_other :
    (config : RateLimitConfig) (k key : String) (now : ℕ) (store : Store)
    → str_eq k key ≡ Bool.false
    → timestamps_of (limit config k now store).0 key ≡ timestamps_of store key
unfolding limit
timestamps-limit_other config k key now store h = ground arith

pub timestamps-limit :
    (config : RateLimitConfig) (k : String) (now : ℕ) (store : Store)
    → timestamps_of (limit config k now store).0 k
      ≡ live config.window_ms now (timestamps_of store k)
        ++ (if is_passed (limit config k now store).1 then now ∷ [] else [])
unfolding limit
timestamps-limit config k now store =
    ground (arith, str_eq_refl k, append-nil (live config.window_ms now (timestamps_of store k)))

-- A passed request found fewer live timestamps than its limit.
pub passed_below :
    (config : RateLimitConfig) (k : String) (now : ℕ) (store : Store)
    → is_passed (limit config k now store).1 ≡ Bool.true
    → length (live config.window_ms now (timestamps_of store k)) < config.max_requests
unfolding limit
passed_below config k now store h = ground arith

-- Both properties after `now` is admitted.
module _ (window most last now : ℕ) (key : String) (past : List ℕ) where
  Bounded-admit :
      (xs : List ℕ)
      → length (live window now past) ≤ length (live window now xs)
      → length (live window now xs) < most
      → Bounded window most past
      → Bounded window most (past ++ now ∷ [])
  Bounded-admit xs shown below bounded from = ground (
    arith,
    filter-append (between window from) past (now ∷ []),
    length-append (filter (between window from) past) (filter (between window from) (now ∷ [])),
    between-le-live window from now past,
    bounded from,
  )

-- Pruned, with at least as many more times as were admitted.
live-grow :
    (w w' now later : ℕ) (past new xs pushed : List ℕ)
    → w ≤ w'
    → now ≤ later
    → length (live w later past) ≤ length (live w later xs)
    → length (live w later new) ≤ length (live w later pushed)
    → length (live w later (past ++ new)) ≤ length (live w later (live w' now xs ++ pushed))
live-grow w w' now later past new xs pushed h k l m =
    rw
      (
        filter-append (in_window w later) past new,
        filter-append (in_window w later) (live w' now xs) pushed,
        length-append (live w later past) (live w later new),
        length-append (live w later (live w' now xs)) (live w later pushed),
        live-live w w' now later xs h k,
      )
      (omega arith)

module _ (window most last : ℕ) (key : String) (past : List ℕ) (store : Store)
    (shows : Shows window key last past store) where
  request-Shows :
      (config : RateLimitConfig) (k : String) (now : ℕ)
      → last ≤ now
      → window ≤ config.window_ms
      → Shows window key now
          (past ++ admitted_by key most store (request config k now))
          (limit config k now store).0
  unfolding Shows admitted_by
  request-Shows config k now ordered wide later h = elim (Bool-cases (str_eq k key)) [
    | inl same ↦
        rw ((eq_iff k key).0 same, timestamps-limit config key now store)
          (live-grow window config.window_ms now later past _ (timestamps_of store key) _ wide h
            (shows later (omega arith)) (ground arith))
    | inr other ↦
        rw (timestamps-limit_other config k key now store other, other, append-nil past)
          (shows later (omega arith))
  ]

  request-Bounded :
      (config : RateLimitConfig) (k : String) (now : ℕ)
      → last ≤ now
      → window ≤ config.window_ms
      → Bounded window most past
      → Bounded window most (past ++ admitted_by key most store (request config k now))
  unfolding Shows admitted_by
  request-Bounded config k now ordered wide bounded =
      elim (Bool-cases
        (str_eq k key && leb config.max_requests most && is_passed (limit config k now store).1)) [
          | inl admits ↦ rw admits (
              Bounded-admit window most last now key past (timestamps_of store key)
                (shows now ordered)
                (ground (
                  arith,
                  eq_iff k key,
                  passed_below config k now store,
                  live-le-live window config.window_ms now (timestamps_of store key) wide,
                ))
                bounded)
          | inr refuses ↦ rw (refuses, append-nil past) bounded
        ]

  apply-Shows :
      (op : Op)
      → last ≤ time_of op
      → window ≤ window_of op
      → Shows window key (time_of op) (past ++ admitted_by key most store op) (apply op store)
  unfolding apply
  apply-Shows (request config k now) ordered wide = request-Shows config k now ordered wide
  apply-Shows (clean dw now) ordered wide =
      unfold Shows admitted_by in
      λ later h.
        rw
          (
            timestamps-cleanup dw now store key,
            append-nil past,
            live-live window dw now later (timestamps_of store key) wide h,
          )
          (shows later (omega arith))

  apply-Bounded :
      (op : Op)
      → last ≤ time_of op
      → window ≤ window_of op
      → Bounded window most past
      → Bounded window most (past ++ admitted_by key most store op)
  apply-Bounded (request config k now) ordered wide bounded =
      request-Bounded config k now ordered wide bounded
  apply-Bounded (clean dw now) ordered wide bounded =
      unfold admitted_by in rw (append-nil past) bounded

admitted-Bounded :
    (window most last : ℕ) (key : String) (past : List ℕ) (store : Store) (ops : List Op)
    → Shows window key last past store
    → Bounded window most past
    → IsOrdered window last ops
    → Bounded window most (past ++ admitted key most store ops)
unfolding admitted
admitted-Bounded window most last key past store [] shows bounded _ = rw (append-nil past) bounded
admitted-Bounded window most last key past store (op ∷ ops) shows bounded (ordered, wide, rest) =
    rw
      (← append_assoc past (admitted_by key most store op) (admitted key most (apply op store) ops))
      (admitted-Bounded window most (time_of op) key (past ++ admitted_by key most store op)
        (apply op store) ops (apply-Shows window most last key past store shows op ordered wide)
        (apply-Bounded window most last key past store shows op ordered wide bounded) rest)

-- From an empty store, over any history of requests and clean-ups whose clock never goes back and
-- which prunes by no window shorter than `window`: within every span of `window` milliseconds, the
-- limiters of at most `most` requests let at most `most` requests of one key pass.
pub admitted_bound :
    (window most : ℕ) (key : String) (ops : List Op) (from : ℕ)
    → IsOrdered window 0 ops
    → length (filter (between window from) (admitted key most empty ops)) ≤ most
unfolding Shows
admitted_bound window most key ops from ordered =
    admitted-Bounded window most 0 key [] empty ops (λ later h. omega arith) (λ f. omega arith)
      ordered from

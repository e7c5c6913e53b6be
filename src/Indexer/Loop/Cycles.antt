-- ===== src/Indexer/Loop/Cycles.antt =====
-- backend/src/indexer/event_indexer.ts: how many cycles run at once.
use stellar_urithi_bidz.Prelude.{
  ℕ, zero, suc, ◌+◌, ◌≤◌, ◌<◌, Bool, true, List, [], ◌∷◌, ◌++◌, ◌≡◌, refl, ap, arith, length,
  length-append, All, if◌then◌else◌, Bool-cases, inl, inr,
}
use stellar_urithi_bidz.Indexer.Loop.{
  Loop, Runner, poll, fire, cycle_ends, start_indexer, stop_indexer, Step, start, fires, ends,
  Reach, here, next, stop, in_flight,
}

-- At most one timer or cycle, and the flag says whether it is a cycle.
abbrev pub IsOrderly : Loop → Type 0
IsOrderly l = (l.timers + l.cycles ≤ 1) × (l.cycles ≡ (if l.polling then 1 else 0))

fire-IsOrderly :
    (running : Bool) (l : Loop) → IsOrderly l → 0 < l.timers → IsOrderly (fire running l)
unfolding fire poll
fire-IsOrderly running l h t = ground arith

cycle_ends-IsOrderly : (l : Loop) → IsOrderly l → 0 < l.cycles → IsOrderly (cycle_ends l)
unfolding cycle_ends
cycle_ends-IsOrderly l h t = ground arith

-- One loop of a list in exchange for another.
All-exchange :
    (before after : List Loop) (l l' : Loop)
    → (IsOrderly l → IsOrderly l')
    → All IsOrderly (before ++ l ∷ after)
    → All IsOrderly (before ++ l' ∷ after)
All-exchange [] after l l' f (h, hs) = (f h, hs)
All-exchange (b ∷ before) after l l' f (h, hs) = (h, All-exchange before after l l' f hs)

All-middle :
    (before after : List Loop) (l : Loop) → All IsOrderly (before ++ l ∷ after) → IsOrderly l
All-middle [] after l (h, hs) = h
All-middle (b ∷ before) after l (h, hs) = All-middle before after l hs

in_flight-le-length : (ls : List Loop) → All IsOrderly ls → in_flight ls ≤ length ls
in_flight-le-length [] h = omega arith
in_flight-le-length (l ∷ ls) (h, hs) = ground (arith, in_flight-le-length ls hs)

-- What holds after `n` stops
abbrev IsBounded : ℕ → Runner → Type 0
IsBounded n r = All IsOrderly r.loops × (length r.loops ≤ (if r.is_running then n + 1 else n))

exchanged :
    (n : ℕ) (r : Runner) (before after : List Loop) (l l' : Loop)
    → r.loops ≡ before ++ l ∷ after
    → (IsOrderly l → IsOrderly l')
    → IsBounded n r
    → IsBounded n (record r { loops = before ++ l' ∷ after })
exchanged n r before after l l' split f (orderly, bound) = (
  All-exchange before after l l' f (rw split at orderly),
  omega (
    arith,
    bound,
    ap length split,
    length-append before (l ∷ after),
    length-append before (l' ∷ after),
  ),
)

Step-IsBounded : (n : ℕ) (r u : Runner) → Step r u → IsBounded n r → IsBounded n u
unfolding start_indexer poll
Step-IsBounded n r u (start e) h = elim (Bool-cases r.is_running) [
  | inl running ↦ rw (e, running) (rw running at h)
  | inr stopped ↦ ground (arith, e, h, stopped)
]
Step-IsBounded n r u (fires before after l split t e) h = rw e (
    exchanged n r before after l (fire r.is_running l) split
      (λ orderly. fire-IsOrderly r.is_running l orderly t) h)
Step-IsBounded n r u (ends before after l split t e) h = rw e (
    exchanged n r before after l (cycle_ends l) split (λ orderly. cycle_ends-IsOrderly l orderly t)
      h)

stop-IsBounded : (n : ℕ) (r : Runner) → IsBounded n r → IsBounded (n + 1) (stop_indexer r)
unfolding stop_indexer
stop-IsBounded n r (orderly, bound) = (orderly, ground (arith, bound))

Reach-IsBounded : (n : ℕ) (r : Runner) → Reach n r → IsBounded n r
Reach-IsBounded n r here = (tt, omega arith)
Reach-IsBounded n u (next {r = r} reached step) =
    Step-IsBounded n r u step (Reach-IsBounded n r reached)
Reach-IsBounded n u (stop {n = m} {r = r} reached) =
    stop-IsBounded m r (Reach-IsBounded m r reached)

-- Whatever the order of starts, timers and ends of cycles: after `n` stops, at most `n + 1` cycles
-- run at once, each loop has at most one timer or cycle, and its flag is set exactly while a cycle
-- runs, so that no timer finds it set.
pub cycles_bounded :
    (n : ℕ) (r : Runner) → Reach n r → (in_flight r.loops ≤ n + 1) × All IsOrderly r.loops
cycles_bounded n r reached =
    let (orderly, bound) = Reach-IsBounded n r reached in
    (ground (arith, in_flight-le-length r.loops orderly), orderly)

abbrev busy : Loop
busy = record { polling = true; timers = 0; cycles = 1 }

abbrev all_busy : ℕ → List Loop
all_busy zero = busy ∷ []
all_busy (suc n) = busy ∷ all_busy n

in_flight-all_busy : (n : ℕ) → in_flight (all_busy n) ≡ n + 1
in_flight-all_busy zero = refl
in_flight-all_busy (suc n) = omega (arith, in_flight-all_busy n)

Reach-all_busy : (n : ℕ) → Reach n (record { is_running = true; loops = all_busy n })
unfolding start_indexer stop_indexer poll
Reach-all_busy zero = next here (start refl)
Reach-all_busy (suc n) =
    let one_more : n + 1 ≡ suc n = omega arith in
    rw (← one_more) (next (stop (Reach-all_busy n)) (start refl))

-- A start after a stop does not wait for the cycle that still runs: for every `n`, `n` restarts can
-- leave `n + 1` cycles that run at once, on an indexer that is running.
pub restarts_overlap :
    (n : ℕ) → (r : Runner) × Reach n r × (r.is_running ≡ true) × (in_flight r.loops ≡ n + 1)
restarts_overlap n =
    (record { is_running = true; loops = all_busy n }, Reach-all_busy n, refl, in_flight-all_busy n)

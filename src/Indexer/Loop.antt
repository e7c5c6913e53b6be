-- ===== src/Indexer/Loop.antt =====
-- backend/src/indexer/event_indexer.ts: `startIndexer`, `stopIndexer` and their timers, and
-- `resetIndexerCursor`. A call of `startIndexer` makes one loop with a flag of its own. What a cycle
-- does between its start and its end is `poll_events`.
pub mod Cycles
pub mod Reset
mod Tests
use stellar_urithi_bidz.Prelude.{
  ℕ, ◌+◌, ◌-◌, ◌<◌, Bool, true, false, List, [], ◌∷◌, ◌++◌, Option, none, some, ◌≡◌, if◌then◌else◌,
}
use stellar_urithi_bidz.Indexer.Poll.{Indexer}

-- The variable `polling` of one call of `startIndexer`, the timers that will call its `poll`, and
-- its calls of `pollEvents` that have not come back.
pub record Loop : Type 0 where
  pub polling : Bool
  pub timers : ℕ
  pub cycles : ℕ

-- `isRunning`, and the loops with the latest first
pub record Runner : Type 0 where
  pub is_running : Bool
  pub loops : List Loop

abbrev pub idle : Runner
idle = record { is_running = false; loops = [] }

abbrev pub new_loop : Loop
new_loop = record { polling = false; timers = 0; cycles = 0 }

-- `poll` up to its `await`
unfoldable pub poll : Bool → Loop → Loop
poll is_running l =
    if is_running
    then if l.polling
      then record l { timers = l.timers + 1 }
      else record l { polling = true; cycles = l.cycles + 1 }
    else l

-- A timer calls `poll`.
unfoldable pub fire : Bool → Loop → Loop
unfolding poll
fire is_running l = poll is_running (record l { timers = l.timers - 1 })

-- The `finally` of `poll`, whether `pollEvents` threw or not
unfoldable pub cycle_ends : Loop → Loop
cycle_ends l = record l { polling = false; timers = l.timers + 1; cycles = l.cycles - 1 }

unfoldable pub start_indexer : Runner → Runner
unfolding poll
start_indexer r =
    if r.is_running then r else record { is_running = true; loops = poll true new_loop ∷ r.loops }

unfoldable pub stop_indexer : Runner → Runner
stop_indexer r = record r { is_running = false }

-- `toLedger ?? 0`
unfoldable pub reset_indexer_cursor : Option ℕ → Indexer → Indexer
reset_indexer_cursor none ix = record ix { last_ledger = 0 }
reset_indexer_cursor (some ledger) ix = record ix { last_ledger = ledger }

-- What happens next: a call from outside, a timer of one loop, or the end of one of its cycles.
pub data Step (r u : Runner) : Type 0 where
  start : u ≡ start_indexer r → Step r u
  fires :
      (before after : List Loop) (l : Loop)
      → r.loops ≡ before ++ l ∷ after
      → 0 < l.timers
      → u ≡ record r { loops = before ++ fire r.is_running l ∷ after }
      → Step r u
  ends :
      (before after : List Loop) (l : Loop)
      → r.loops ≡ before ++ l ∷ after
      → 0 < l.cycles
      → u ≡ record r { loops = before ++ cycle_ends l ∷ after }
      → Step r u

-- The runners that can be reached from the start of the module with so many calls of `stopIndexer`
pub data Reach : ℕ → Runner → Type 0 where
  here : Reach 0 idle
  next : {n : ℕ} {r u : Runner} → Reach n r → Step r u → Reach n u
  stop : {n : ℕ} {r : Runner} → Reach n r → Reach (n + 1) (stop_indexer r)

-- The cycles that run at once
abbrev pub in_flight : List Loop → ℕ
in_flight [] = 0
in_flight (l ∷ ls) = l.cycles + in_flight ls

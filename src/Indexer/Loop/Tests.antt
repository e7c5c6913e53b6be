-- ===== src/Indexer/Loop/Tests.antt =====
-- backend/src/indexer/event_indexer.ts: starts and stops.
use stellar_urithi_bidz.Prelude.{◌+◌, ◌≤◌, true, false, [], ◌∷◌, All, ◌≡◌, refl, arith}
use stellar_urithi_bidz.Indexer.Loop.{
  Runner, Reach, here, next, start, ends, in_flight, start_indexer, poll, cycle_ends,
}
use stellar_urithi_bidz.Indexer.Loop.Cycles.{IsOrderly, cycles_bounded, restarts_overlap}

abbrev waiting : Runner
waiting = record {
  is_running = true;
  loops = record { polling = false; timers = 1; cycles = 0 } ∷ [];
}

-- One cycle has ended, and its timer is set.
reaches_waiting : Reach 0 waiting
unfolding start_indexer poll cycle_ends
reaches_waiting =
    next (next here (start refl))
      (ends [] [] (record { polling = true; timers = 0; cycles = 1 }) refl (omega arith) refl)

cycles_bounded_example : (in_flight waiting.loops ≤ 0 + 1) × All IsOrderly waiting.loops
cycles_bounded_example = cycles_bounded 0 waiting reaches_waiting

restarts_overlap_example :
    (r : Runner) × Reach 2 r × (r.is_running ≡ true) × (in_flight r.loops ≡ 2 + 1)
restarts_overlap_example = restarts_overlap 2

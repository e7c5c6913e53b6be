-- ===== src/Indexer/Loop/Reset.antt =====
-- backend/src/indexer/event_indexer.ts: `resetIndexerCursor` before a cycle.
use stellar_urithi_bidz.Prelude.{ℕ, ◌<◌, true, none, ◌≡◌, arith}
use stellar_urithi_bidz.Indexer.Poll.{Indexer, Outside, finished, poll_events, first_cycle}
use stellar_urithi_bidz.Indexer.Loop.{reset_indexer_cursor}

-- After a reset without a ledger, the next cycle goes back to the saved cursor, where there is one
-- that can be read: it does not start anew.
reset_resumes :
    (fuel : ℕ) (out : Outside) (ix : Indexer)
    → out.reads_cursor ≡ true
    → 0 < ix.db.last_ledger
    → poll_events fuel out (reset_indexer_cursor none ix)
      ≡ finished (record ix { last_ledger = ix.db.last_ledger })
unfolding poll_events reset_indexer_cursor first_cycle
reset_resumes fuel out ix reads saved = ground (arith, reads, saved)

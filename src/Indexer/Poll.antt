-- ===== src/Indexer/Poll.antt =====
-- backend/src/indexer/event_indexer.ts: `pollEvents`. The RPC node and the reading of the cursor are
-- a record of answers; `none` is a call that throws, after its retries. `while (true)` takes fuel.
pub mod Progress
pub mod Cursor
use stellar_urithi_bidz.Prelude.{
  ℕ, zero, suc, ◌+◌, ◌-◌, String, Bool, true, false, List, [], ◌∷◌, Option, none, some, ltb, leb,
  ◌==◌, length, if◌then◌else◌,
}
use stellar_urithi_bidz.Database.{Database, Statement, save_cursor, query}
use stellar_urithi_bidz.Indexer.Events.{ContractEvent, process_event}

-- `lastLedger` of the module, and the tables.
pub record Indexer : Type 0 where
  pub last_ledger : ℕ
  pub db : Database

-- What the outside answers during one cycle: `getEvents` for the number of the batch and its start
-- ledger, `getLatestLedger` behind that batch, and whether the cursor can be read.
pub record Outside : Type 0 where
  pub accepts : Statement → Bool
  pub get_events : ℕ → ℕ → Option (List ContractEvent)
  pub latest_ledger : ℕ → Option ℕ
  pub reads_cursor : Bool
  pub batch_size : ℕ
  pub now : ℕ

abbrev pub larger : ℕ → ℕ → ℕ
larger a b = if leb a b then b else a

-- The `for` loop: an event that fails is logged, and what it did stays done.
unfoldable pub process_batch : Outside → List ContractEvent → Indexer → Indexer
process_batch out [] ix = ix
process_batch out (event ∷ events) ix = process_batch out events (record ix {
  last_ledger = larger ix.last_ledger event.ledger;
  db = (process_event out.accepts event out.now ix.db).0;
})

-- How a cycle ends, with the indexer it leaves.
pub data Cycle : Type 0 where
  finished : Indexer → Cycle
  thrown : Indexer → Cycle
  out_of_fuel : Cycle

-- `try { lastLedger = await fetchLatestLedger(rpc) } catch {}`
abbrev pub follow_latest : Option ℕ → Indexer → Indexer
follow_latest none ix = ix
follow_latest (some sequence) ix = record ix { last_ledger = sequence }

-- The `while` loop from batch number `batch` on.
unfoldable pub poll_batches : ℕ → Outside → ℕ → ℕ → Indexer → Cycle
poll_batches zero out batch cursor ix = out_of_fuel
poll_batches (suc fuel) out batch cursor ix = elim (out.get_events batch cursor) [
  | none ↦ thrown ix
  | some events ↦ elim events [
    | [] ↦ finished (follow_latest (out.latest_ledger batch) ix)
    | event ∷ others ↦
        let ix' = process_batch out (event ∷ others) ix in
        let next = poll_batches fuel out (suc batch) ix'.last_ledger ix' in
        if ltb (length (event ∷ others)) out.batch_size then finished ix' else next
  ]
]

-- `saveCursor`; an error is logged.
unfoldable pub save : Outside → Indexer → Indexer
save out ix = record ix { db = (query out.accepts (save_cursor ix.last_ledger) ix.db).0 }

unfoldable pub and_save : Outside → Cycle → Cycle
and_save out (finished ix) = finished (save out ix)
and_save out (thrown ix) = thrown ix
and_save out out_of_fuel = out_of_fuel

-- The first cycle takes the saved cursor, or starts a hundred ledgers back.
unfoldable pub first_cycle : Outside → Indexer → Indexer
first_cycle out ix =
    if (if out.reads_cursor then ltb 0 ix.db.last_ledger else false)
    then record ix { last_ledger = ix.db.last_ledger }
    else elim (out.latest_ledger 0) [
      | none ↦ record ix { last_ledger = 0 }
      | some sequence ↦ record ix { last_ledger = sequence - 100 }
    ]

unfoldable pub poll_events : ℕ → Outside → Indexer → Cycle
unfolding and_save save first_cycle
poll_events fuel out ix =
    if ix.last_ledger == 0
    then finished (first_cycle out ix)
    else and_save out (poll_batches fuel out 1 (ix.last_ledger + 1) ix)

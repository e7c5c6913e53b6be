-- ===== src/Indexer/Poll/Cursor.antt =====
-- backend/src/indexer/event_indexer.ts: what a cycle of `pollEvents` leaves in the tables.
use stellar_urithi_bidz.Prelude.{
  ℕ, zero, suc, ◌+◌, ◌<◌, false, List, [], ◌∷◌, Option, none, some, ltb, ◌==◌, length, ◌≡◌, inl,
  inr, arith, Option-cases, Bool-cases,
}
use stellar_urithi_bidz.Database.{save_cursor, query, effect}
use stellar_urithi_bidz.Database.Keys.{IsConsistent, query-Keeps}
use stellar_urithi_bidz.Indexer.Events.{ContractEvent, process_event}
use stellar_urithi_bidz.Indexer.Consistency.{process_event-Keeps}
use stellar_urithi_bidz.Indexer.Poll.{
  Indexer, Outside, Cycle, finished, thrown, out_of_fuel, larger, process_batch, poll_batches,
  poll_events, save, and_save, first_cycle, follow_latest,
}
use stellar_urithi_bidz.Indexer.Poll.Progress.{round_thrown, round_empty, round_last, round_full}

-- A property of the indexer that a cycle leaves, however it ends.
abbrev pub Leaves {ℓ} : (Indexer → Type ℓ) → Cycle → Type ℓ
Leaves P (finished ix) = P ix
Leaves P (thrown ix) = P ix
Leaves P out_of_fuel = Unit

process_batch-IsConsistent :
    (out : Outside) (events : List ContractEvent) (ix : Indexer)
    → IsConsistent ix.db
    → IsConsistent (process_batch out events ix).db
unfolding process_batch
process_batch-IsConsistent out [] ix v = v
process_batch-IsConsistent out (event ∷ events) ix v =
    process_batch-IsConsistent out events
      (record ix {
        last_ledger = larger ix.last_ledger event.ledger;
        db = (process_event out.accepts event out.now ix.db).0;
      })
      (process_event-Keeps out.accepts event out.now ix.db v)

follow_latest-IsConsistent :
    (latest : Option ℕ) (ix : Indexer)
    → IsConsistent ix.db
    → IsConsistent (follow_latest latest ix).db
follow_latest-IsConsistent none ix v = v
follow_latest-IsConsistent (some sequence) ix v = v

poll_batches-IsConsistent :
    (fuel : ℕ) (out : Outside) (batch cursor : ℕ) (ix : Indexer)
    → IsConsistent ix.db
    → Leaves (λ ix'. IsConsistent ix'.db) (poll_batches fuel out batch cursor ix)
unfolding poll_batches
poll_batches-IsConsistent zero out batch cursor ix v = tt
poll_batches-IsConsistent (suc fuel) out batch cursor ix v =
    elim (Option-cases (out.get_events batch cursor)) [
      | inl e ↦ rw (round_thrown out fuel batch cursor ix e) v
      | inr ([], e) ↦
          rw (round_empty out fuel batch cursor ix e)
            (follow_latest-IsConsistent (out.latest_ledger batch) ix v)
      | inr (event ∷ others, e) ↦ elim (Bool-cases (ltb (length (event ∷ others)) out.batch_size)) [
        | inl short ↦
            rw (round_last out fuel batch cursor ix event others e short)
              (process_batch-IsConsistent out (event ∷ others) ix v)
        | inr full ↦ rw (round_full out fuel batch cursor ix event others e full) (
            poll_batches-IsConsistent fuel out (suc batch) _ (process_batch out (event ∷ others) ix)
              (process_batch-IsConsistent out (event ∷ others) ix v))
      ]
    ]

and_save-IsConsistent :
    (out : Outside) (cycle : Cycle)
    → Leaves (λ ix. IsConsistent ix.db) cycle
    → Leaves (λ ix. IsConsistent ix.db) (and_save out cycle)
unfolding and_save save
and_save-IsConsistent out (finished ix) v =
    query-Keeps out.accepts (save_cursor ix.last_ledger) ix.db v
and_save-IsConsistent out (thrown ix) v = v
and_save-IsConsistent out out_of_fuel v = tt

-- A cycle keeps the tables consistent, whatever the node answers and whichever statements PostgreSQL refuses: no
-- two auctions with one id, every bid of an auction that is there, and no two events with one
-- ledger, type and auction.
pub poll_events-IsConsistent :
    (fuel : ℕ) (out : Outside) (ix : Indexer)
    → IsConsistent ix.db
    → Leaves (λ ix'. IsConsistent ix'.db) (poll_events fuel out ix)
unfolding poll_events first_cycle
poll_events-IsConsistent fuel out ix v = elim (Bool-cases (ix.last_ledger == 0)) [
  | inl first ↦ rw first (ground arith)
  | inr later ↦
      rw later (
        and_save-IsConsistent out _
          (poll_batches-IsConsistent fuel out 1 (ix.last_ledger + 1) ix v))
]

-- When the node has no events from the start ledger on, the cycle moves on to the latest ledger that
-- it asks for after that answer: the tables of auctions, bids and events stay as they were, and the
-- next cycle starts behind that ledger, also if it closed after the answer.
pub empty_answer_skips :
    (fuel sequence : ℕ) (out : Outside) (ix : Indexer)
    → 0 < ix.last_ledger
    → out.get_events 1 (ix.last_ledger + 1) ≡ some []
    → out.latest_ledger 1 ≡ some sequence
    → (ix' : Indexer) × (poll_events (suc fuel) out ix ≡ finished ix')
      × (ix'.last_ledger ≡ sequence)
      × (ix'.db.auctions ≡ ix.db.auctions)
      × (ix'.db.bids ≡ ix.db.bids)
      × (ix'.db.events ≡ ix.db.events)
unfolding poll_events query effect
empty_answer_skips fuel sequence out ix started e l =
    let later : (ix.last_ledger == 0) ≡ false = ground arith in
    (
      save out (record ix { last_ledger = sequence }),
      rw (later, round_empty out fuel 1 (ix.last_ledger + 1) ix e, l),
      ground arith,
      ground arith,
      ground arith,
      ground arith,
    )

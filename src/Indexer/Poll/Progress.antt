-- ===== src/Indexer/Poll/Progress.antt =====
-- backend/src/indexer/event_indexer.ts: when the loop of `pollEvents` ends.
use stellar_urithi_bidz.Prelude.{
  ℕ, zero, suc, ◌+◌, ◌≤◌, ◌<◌, true, false, List, [], ◌∷◌, none, some, ltb, ◌==◌, length, ◌≡◌, ◌≢◌,
  refl, inl, inr, arith, ◌∙◌, Option-cases, Bool-cases,
}
use stellar_urithi_bidz.Indexer.Events.{ContractEvent, process_event}
use stellar_urithi_bidz.Indexer.Poll.{
  Indexer, Outside, Cycle, finished, thrown, out_of_fuel, larger, process_batch, poll_batches,
  poll_events, and_save, follow_latest,
}

-- The latest ledger of a batch.
abbrev pub newest : List ContractEvent → ℕ
newest [] = 0
newest (event ∷ events) = larger event.ledger (newest events)

pub last_ledger-process_batch :
    (out : Outside) (events : List ContractEvent) (ix : Indexer)
    → (process_batch out events ix).last_ledger ≡ larger ix.last_ledger (newest events)
unfolding process_batch
last_ledger-process_batch out [] ix = ground arith
last_ledger-process_batch out (event ∷ events) ix = ground (
  arith,
  last_ledger-process_batch out events (record ix {
    last_ledger = larger ix.last_ledger event.ledger;
    db = (process_event out.accepts event out.now ix.db).0;
  }),
)

-- One round of the loop.
module _ (out : Outside) (fuel batch cursor : ℕ) (ix : Indexer) where
  pub round_thrown :
      out.get_events batch cursor ≡ none → poll_batches (suc fuel) out batch cursor ix ≡ thrown ix
  unfolding poll_batches
  round_thrown e = rw (e, poll_batches)

  pub round_empty :
      out.get_events batch cursor ≡ some []
      → poll_batches (suc fuel) out batch cursor ix
        ≡ finished (follow_latest (out.latest_ledger batch) ix)
  unfolding poll_batches
  round_empty e = rw (e, poll_batches)

  pub round_last :
      (event : ContractEvent) (others : List ContractEvent)
      → out.get_events batch cursor ≡ some (event ∷ others)
      → ltb (length (event ∷ others)) out.batch_size ≡ true
      → poll_batches (suc fuel) out batch cursor ix
        ≡ finished (process_batch out (event ∷ others) ix)
  unfolding poll_batches
  round_last event others e short = rw (e, poll_batches) (rw short)

  pub round_full :
      (event : ContractEvent) (others : List ContractEvent)
      → out.get_events batch cursor ≡ some (event ∷ others)
      → ltb (length (event ∷ others)) out.batch_size ≡ false
      → poll_batches (suc fuel) out batch cursor ix
        ≡ poll_batches fuel out
            (suc batch)
            (larger ix.last_ledger (newest (event ∷ others)))
            (process_batch out (event ∷ others) ix)
  unfolding poll_batches
  round_full event others e full =
      rw (e, poll_batches) (rw (full, last_ledger-process_batch out (event ∷ others) ix))

module _ (out : Outside) (limit : ℕ)
    (advances : (batch cursor : ℕ) (events : List ContractEvent)
      → out.get_events batch cursor ≡ some events
      → out.batch_size ≤ length events
      → (cursor < newest events) × (newest events ≤ limit)) where
  poll_batches_ends :
      (fuel batch cursor : ℕ) (ix : Indexer)
      → 0 < fuel
      → limit < cursor + fuel
      → poll_batches fuel out batch cursor ix ≢ out_of_fuel
  poll_batches_ends zero batch cursor ix pos enough = absurd (omega arith)
  poll_batches_ends (suc fuel) batch cursor ix pos enough =
      elim (Option-cases (out.get_events batch cursor)) [
        | inl e ↦ rw (round_thrown out fuel batch cursor ix e) (λ h. cc)
        | inr ([], e) ↦ rw (round_empty out fuel batch cursor ix e) (λ h. cc)
        | inr (event ∷ others, e) ↦
            elim (Bool-cases (ltb (length (event ∷ others)) out.batch_size)) [
              | inl short ↦ rw (round_last out fuel batch cursor ix event others e short) (λ h. cc)
              | inr full ↦
                  let (ahead, within) = advances batch cursor (event ∷ others) e (ground arith) in
                  rw (round_full out fuel batch cursor ix event others e full)
                    (poll_batches_ends fuel (suc batch) _ _ (ground arith) (ground arith))
            ]
      ]

and_save-out_of_fuel :
    (out : Outside) (cycle : Cycle) → and_save out cycle ≡ out_of_fuel → cycle ≡ out_of_fuel
unfolding and_save
and_save-out_of_fuel out (finished ix) h = cc
and_save-out_of_fuel out (thrown ix) h = cc
and_save-out_of_fuel out out_of_fuel h = refl

-- A cycle ends if every full batch reaches past its start ledger and no batch past `limit`: `limit + 1`
-- rounds are enough.
pub poll_events_ends :
    (out : Outside) (limit : ℕ) (ix : Indexer)
    → ((batch cursor : ℕ) (events : List ContractEvent)
        → out.get_events batch cursor ≡ some events
        → out.batch_size ≤ length events
        → (cursor < newest events) × (newest events ≤ limit))
    → poll_events (suc limit) out ix ≢ out_of_fuel
unfolding poll_events
poll_events_ends out limit ix advances =
    let ends =
      poll_batches_ends out limit advances (suc limit) 1 (ix.last_ledger + 1) ix (omega arith)
        (omega arith) in
    elim (Bool-cases (ix.last_ledger == 0)) [
      | inl first ↦ rw first (λ h. cc)
      | inr later ↦ rw later (λ h. ends (and_save-out_of_fuel out _ h))
    ]

-- A node that answers every request from `ledger` with one full batch, all of it up to `ledger`.
module _ (out : Outside) (event : ContractEvent) (others : List ContractEvent) (ledger : ℕ)
    (same : (batch : ℕ) → out.get_events batch ledger ≡ some (event ∷ others))
    (full : out.batch_size ≤ length (event ∷ others))
    (crowded : newest (event ∷ others) ≡ ledger) where
  poll_batches_stuck :
      (fuel batch : ℕ) (ix : Indexer)
      → ix.last_ledger ≤ ledger
      → poll_batches fuel out batch ledger ix ≡ out_of_fuel
  unfolding poll_batches
  poll_batches_stuck zero batch ix h = refl
  poll_batches_stuck (suc fuel) batch ix h =
      let e : larger ix.last_ledger (newest (event ∷ others)) ≡ ledger = ground arith in
      round_full out fuel batch ledger ix event others (same batch) (ground arith)
      ∙ rw e (
          poll_batches_stuck fuel (suc batch) (process_batch out (event ∷ others) ix)
            (rw (last_ledger-process_batch out (event ∷ others) ix, e) (omega arith)))

  -- If the node answers every request from `ledger` with the same full batch, whose newest event is
  -- of `ledger`, a cycle that starts at `ledger` ends after no number of rounds.
  pub poll_events_stuck :
      (fuel : ℕ) (ix : Indexer)
      → 0 < ix.last_ledger
      → ix.last_ledger + 1 ≡ ledger
      → poll_events fuel out ix ≡ out_of_fuel
  unfolding poll_events
  poll_events_stuck fuel ix started next =
      let later : (ix.last_ledger == 0) ≡ false = ground arith in
      rw (later, next, poll_batches_stuck fuel 1 ix (omega arith))

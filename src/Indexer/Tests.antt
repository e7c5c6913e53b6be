-- ===== src/Indexer/Tests.antt =====
-- backend/src/indexer/event_indexer.ts on concrete events.
use stellar_urithi_bidz.Prelude.{
  ℕ, ◌≤◌, ◌<◌, Bool, true, false, List, [], ◌∷◌, Option, none, some, ◌==◌, length, if◌then◌else◌,
  str_eq, ◌≡◌, ◌≢◌, refl, arith, pass, All, Bool-cases, inl, inr, some-injective,
}
use stellar_urithi_bidz.Values.{undefined, text, number, to_text}
use stellar_urithi_bidz.Database.{
  Database, Statement, query, effect, update_auction_on_bid, english,
}
use stellar_urithi_bidz.Database.Keys.{IsConsistent}
use stellar_urithi_bidz.Indexer.{handler, EventData, auction_of, bid_of, bid_placed, map_format}
use stellar_urithi_bidz.Indexer.Events.{
  string, numeric, ContractEvent, process_event, process_topics, dispatch, auction_id_of,
  extract_topic_value,
}
use stellar_urithi_bidz.Indexer.Winning.{NoWinner, bid_placed-NoWinner}
use stellar_urithi_bidz.Indexer.Contract.{contract_events_ignored}
use stellar_urithi_bidz.Indexer.Poll.{
  Indexer, Outside, finished, out_of_fuel, poll_events, poll_batches, process_batch, and_save, save,
}
use stellar_urithi_bidz.Indexer.Poll.Progress.{newest, poll_events_ends, poll_events_stuck}
use stellar_urithi_bidz.Indexer.Poll.Cursor.{Leaves, poll_events-IsConsistent, empty_answer_skips}
use stellar_urithi_bidz.Indexer.Retry.{with_retry, with_retry_first, with_retry_throws}

abbrev anything : Statement → Bool
anything statement = true

abbrev offer : EventData
offer key =
    if str_eq key "bidder" then text "GA" else if str_eq key "amount" then number 500 else undefined

abbrev listed : Database
listed = record { auctions = auction_of 7 offer ∷ []; bids = []; events = []; last_ledger = 0 }

listed-IsConsistent : IsConsistent listed
listed-IsConsistent = record { ids = (refl, tt); references = tt; events = tt }

placed : (bid_placed anything 7 offer 100 none 5 listed).1 ≡ pass tt
unfolding bid_placed query effect auction_of bid_of map_format to_text update_auction_on_bid
placed = refl

placed_amount :
    (bid_placed anything 7 offer 100 none 5 listed).0.bids
    ≡ record {
      auction_id = 7;
      bidder = text "GA";
      amount = "500";
      format = english;
      timestamp = number 5;
      is_winning = false;
      refunded = false;
    }
      ∷ []
unfolding bid_placed query effect auction_of bid_of map_format to_text update_auction_on_bid
placed_amount = refl

bid_placed-NoWinner_example : NoWinner 7 (bid_placed anything 7 offer 100 none 5 listed).0.bids
bid_placed-NoWinner_example = bid_placed-NoWinner anything 7 offer 100 5 none listed placed

contract_events_ignored_run :
    (process_event anything
      (record {
        topics = string "bid_new" ∷ numeric 7 ∷ [];
        payload = offer;
        ledger = 100;
        tx_hash = none;
      })
      5
      listed).0
    ≡ listed
contract_events_ignored_run =
    contract_events_ignored anything "bid_new" (numeric 7 ∷ []) offer 100 5 none listed refl

-- A node with one event in ledger 11 and batches of one event.
abbrev one_event : ContractEvent
one_event = record {
  topics = string "bid_placed" ∷ numeric 7 ∷ [];
  payload = offer;
  ledger = 11;
  tx_hash = none;
}

abbrev stuck_node : Outside
stuck_node = record {
  accepts = anything;
  get_events = λ batch cursor. some (one_event ∷ []);
  latest_ledger = λ batch. some 20;
  reads_cursor = true;
  batch_size = 1;
  now = 5;
}

abbrev node : Outside
node = record stuck_node {
  get_events = λ batch cursor. if cursor == 11 then some (one_event ∷ []) else some [];
  batch_size = 2;
}

-- A node with batches of one event: two full ones, of the ledgers 12 and 15, and then an empty one.
abbrev busy_node : Outside
busy_node = record stuck_node {
  get_events = λ batch cursor.
      if cursor == 11
      then some (record one_event { ledger = 12 } ∷ [])
      else if cursor == 12
      then some (record one_event { ledger = 15 } ∷ [])
      else some [];
}

abbrev at_ten : Indexer
at_ten = record { last_ledger = 10; db = listed }

poll_events_stuck_example : poll_events 50 stuck_node at_ten ≡ out_of_fuel
poll_events_stuck_example =
    poll_events_stuck stuck_node one_event [] 11 (λ batch. refl) (omega arith) (omega arith) 50
      at_ten (omega arith) (omega arith)

newest_of : (event : ContractEvent) → newest (event ∷ []) ≡ event.ledger
newest_of event = ground arith

busy_node_advances :
    (batch cursor : ℕ) (events : List ContractEvent)
    → busy_node.get_events batch cursor ≡ some events
    → busy_node.batch_size ≤ length events
    → (cursor < newest events) × (newest events ≤ 15)
busy_node_advances batch cursor events e h = elim (Bool-cases (cursor == 11)) [
  | inl at_11 ↦
      let same : record one_event { ledger = 12 } ∷ [] ≡ events = some-injective (rw at_11 at e) in
      rw (← same) (ground arith, omega arith)
  | inr after_11 ↦ elim (Bool-cases (cursor == 12)) [
    | inl at_12 ↦
        let same : record one_event { ledger = 15 } ∷ [] ≡ events =
          some-injective (rw (after_11, at_12) at e) in
        rw (← same) (ground arith, omega arith)
    | inr later ↦
        let same : [] ≡ events = some-injective (rw (after_11, later) at e) in
        absurd (omega (arith, rw (← same) at h))
  ]
]

poll_events_ends_example : poll_events 16 busy_node at_ten ≢ out_of_fuel
poll_events_ends_example = poll_events_ends busy_node 15 at_ten busy_node_advances

-- That cycle reads both full batches.
busy_cycle :
    (ix' : Indexer) × (poll_events 16 busy_node at_ten ≡ finished ix') × (length ix'.db.events ≡ 2)
unfolding poll_events poll_batches and_save save process_batch process_event process_topics dispatch
    handler bid_placed query effect auction_of bid_of map_format to_text update_auction_on_bid
    extract_topic_value auction_id_of
busy_cycle = (_, refl, refl)

poll_events-IsConsistent_run : Leaves (λ ix. IsConsistent ix.db) (poll_events 3 node at_ten)
poll_events-IsConsistent_run = poll_events-IsConsistent 3 node at_ten listed-IsConsistent

empty_answer_skips_run :
    (ix' : Indexer) × (poll_events 1 node (record at_ten { last_ledger = 11 }) ≡ finished ix')
    × (ix'.last_ledger ≡ 20)
    × (ix'.db.auctions ≡ listed.auctions)
    × (ix'.db.bids ≡ listed.bids)
    × (ix'.db.events ≡ listed.events)
empty_answer_skips_run =
    empty_answer_skips 0 20 node (record at_ten { last_ledger = 11 }) (omega arith) refl refl

abbrev second_try : ℕ → Option ℕ
second_try k = if k == 2 then some 9 else none

second_try_first : (k : ℕ) → 1 ≤ k → k < 2 → second_try k ≡ none
second_try_first k h l = ground arith

with_retry_first_example :
    ((with_retry second_try 3).0 ≡ some 9)
    × (length (with_retry second_try 3).1 ≡ 1)
    × All (λ delay. delay ≤ 30000) (with_retry second_try 3).1
with_retry_first_example =
    with_retry_first second_try 3 2 9 (omega arith) (omega arith) second_try_first refl

never : ℕ → Option ℕ
never k = none

never_returns : ((with_retry never 3).0 ≡ none) × (length (with_retry never 3).1 ≡ 2)
unfolding never
never_returns = with_retry_throws never 3 (λ k h l. refl)

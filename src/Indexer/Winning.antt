-- ===== src/Indexer/Winning.antt =====
-- backend/src/indexer/event_indexer.ts: the winning mark of bids after `bid_placed`.
use stellar_urithi_bidz.Prelude.{
  ℕ, String, Bool, false, ◌&&◌, List, [], ◌∷◌, Option, ◌==◌, pass, arith, ◌≡◌,
}
use stellar_urithi_bidz.Values.{Value, text, ◌or_else◌}
use stellar_urithi_bidz.Database.{
  BidRecord, Database, Statement, insert_bid, outbid_bids, set_highest, update, effect, Action,
  ◌>>◌, query, transaction, update_auction_on_bid, of_bid,
}
use stellar_urithi_bidz.Indexer.{EventData, bid_placed, bid_of, text_or, log_event}

-- No bid of the auction is marked as winning.
abbrev pub NoWinner : ℕ → List BidRecord → Type 0
NoWinner id [] = Unit {0}
NoWinner id (bid ∷ bids) = (((bid.auction_id == id) && bid.is_winning) ≡ false) × NoWinner id bids

outbid-NoWinner :
    (id : ℕ) (bids : List BidRecord)
    → NoWinner id (
        update
          (λ bid. (bid.auction_id == id) && bid.is_winning)
          (λ bid. record bid { is_winning = false })
          bids)
outbid-NoWinner id [] = tt
outbid-NoWinner id (bid ∷ bids) = ground (arith, outbid-NoWinner id bids)

query-passes :
    (accepts : Statement → Bool) (statement : Statement) (db : Database)
    → (query accepts statement db).1 ≡ pass tt
    → (query accepts statement db).0 ≡ effect statement db
unfolding query
query-passes accepts statement db h = ground arith

>>-passes :
    (first next : Action) (db : Database)
    → ((first >> next) db).1 ≡ pass tt
    → ((first db).1 ≡ pass tt)
      × ((next (first db).0).1 ≡ pass tt)
      × (((first >> next) db).0 ≡ (next (first db).0).0)
>>-passes first next db h = ground arith

transaction-passes :
    (accepts : Statement → Bool) (body : Action) (db : Database)
    → (transaction accepts body db).1 ≡ pass tt
    → ((body db).1 ≡ pass tt) × ((transaction accepts body db).0 ≡ (body db).0)
transaction-passes accepts body db h = ground arith

module _ (accepts : Statement → Bool) (auction_id : ℕ) where
  -- The marks that the transaction takes away, those of the newest bid included.
  update_auction_on_bid-NoWinner :
      (bidder : Value) (amount : String) (db : Database)
      → (update_auction_on_bid accepts auction_id bidder amount db).1 ≡ pass tt
      → NoWinner auction_id (update_auction_on_bid accepts auction_id bidder amount db).0.bids
  unfolding update_auction_on_bid effect
  update_auction_on_bid-NoWinner bidder amount db h =
      let first = query accepts (outbid_bids auction_id) in
      let next = query accepts (set_highest auction_id bidder amount) in
      let (ran, committed) = transaction-passes accepts (first >> next) db h in
      let (one, two, both) = >>-passes first next db ran in
      rw
        (
          committed,
          both,
          query-passes accepts (set_highest auction_id bidder amount) (first db).0 two,
          query-passes accepts (outbid_bids auction_id) db one,
        )
        (outbid-NoWinner auction_id db.bids)

  -- A `bid_placed` event that is handled without an error leaves the auction with no winning bid: the
  -- new bid is inserted as winning and loses the mark in the same handler.
  pub bid_placed-NoWinner :
      (data_ : EventData) (ledger now : ℕ) (tx_hash : Option String) (db : Database)
      → (bid_placed accepts auction_id data_ ledger tx_hash now db).1 ≡ pass tt
      → NoWinner auction_id (bid_placed accepts auction_id data_ ledger tx_hash now db).0.bids
  unfolding bid_placed effect
  bid_placed-NoWinner data_ ledger now tx_hash db h =
      let bidder = data_ "bidder" or_else text "" in
      let amount = text_or (data_ "amount") "0" in
      let insert = query accepts (insert_bid (bid_of auction_id data_ now)) in
      let marks = update_auction_on_bid accepts auction_id bidder amount in
      let entry =
        log_event accepts auction_id data_ ledger tx_hash now "bid_placed"
          (of_bid (bid_of auction_id data_ now)) in
      let (ran, logged, all) = >>-passes (insert >> marks) entry db h in
      let (_, marked, both) = >>-passes insert marks db ran in
      rw (all, query-passes accepts _ _ logged, both)
        (update_auction_on_bid-NoWinner bidder amount (insert db).0 marked)

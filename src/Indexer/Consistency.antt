-- ===== src/Indexer/Consistency.antt =====
-- backend/src/indexer/event_indexer.ts: the handlers keep the keys of the tables.
use stellar_urithi_bidz.Prelude.{
  ℕ, String, Bool, List, [], ◌∷◌, Option, none, some, str_eq, if◌then◌else◌, inl, inr, Option-cases,
  true, false,
}
use stellar_urithi_bidz.Values.{Value, text, ◌or_else◌}
use stellar_urithi_bidz.Database.{
  Statement, Action, ◌>>◌, query, update_auction_on_bid, update_auction_on_close, Status, closed,
  EventRecord, outbid_bids, set_highest, insert_bid, insert_event,
}
use stellar_urithi_bidz.Database.Keys.{Keeps, query-Keeps, >>-Keeps, transaction-Keeps}
use stellar_urithi_bidz.Indexer.{
  EventData, auction_created, bid_placed, bid_refunded, auction_closed, auction_settled,
  auction_cancelled, attestation_recorded, auc_ext, bid_out, handler, text_or, bid_of,
}
use stellar_urithi_bidz.Indexer.Events.{
  Native, ContractEvent, dispatch, process_event, or_skip, key_of, process_topics, auction_id_of,
  extract_topic_value,
}

update_auction_on_close-Keeps :
    (accepts : Statement → Bool) (id : ℕ) (status : Status) (bidder amount : Option String)
    → Keeps (update_auction_on_close accepts id status bidder amount)
unfolding update_auction_on_close
update_auction_on_close-Keeps accepts id status none amount = query-Keeps accepts _
update_auction_on_close-Keeps accepts id status (some bidder) none = query-Keeps accepts _
update_auction_on_close-Keeps accepts id status (some bidder) (some amount) = query-Keeps accepts _

update_auction_on_bid-Keeps :
    (accepts : Statement → Bool) (id : ℕ) (bidder : Value) (amount : String)
    → Keeps (update_auction_on_bid accepts id bidder amount)
unfolding update_auction_on_bid
update_auction_on_bid-Keeps accepts id bidder amount =
    let first = query accepts (outbid_bids id) in
    let next = query accepts (set_highest id bidder amount) in
    transaction-Keeps accepts (first >> next)
      (>>-Keeps first next (query-Keeps accepts _) (query-Keeps accepts _))

-- A statement and the log entry behind it.
logged :
    (accepts : Statement → Bool) (first : Action) (event : EventRecord)
    → Keeps first
    → Keeps (first >> query accepts (insert_event event))
logged accepts first event k =
    >>-Keeps first (query accepts (insert_event event)) k (query-Keeps accepts _)

abbrev KeepsAny : Option Action → Type 0
KeepsAny none = Unit {0}
KeepsAny (some action) = Keeps action

either : (b : Bool) (x y : Option Action) → KeepsAny x → KeepsAny y → KeepsAny (if b then x else y)
either true x y h k = h
either false x y h k = k

or_skip-Keeps : (o : Option Action) → KeepsAny o → Keeps (or_skip o)
or_skip-Keeps none h = λ db v. v
or_skip-Keeps (some action) h = h

module _ (accepts : Statement → Bool) (auction_id : ℕ) (data_ : EventData) (ledger : ℕ)
    (tx_hash : Option String) (now : ℕ) where
  auction_created-Keeps : Keeps (auction_created accepts auction_id data_ ledger tx_hash now)
  unfolding auction_created
  auction_created-Keeps = logged accepts (query accepts _) _ (query-Keeps accepts _)

  bid_placed-Keeps : Keeps (bid_placed accepts auction_id data_ ledger tx_hash now)
  unfolding bid_placed
  bid_placed-Keeps =
      let first = query accepts (insert_bid (bid_of auction_id data_ now)) in
      let next =
        update_auction_on_bid accepts auction_id (data_ "bidder" or_else text "")
          (text_or (data_ "amount") "0") in
      logged accepts (first >> next) _ (
        >>-Keeps first next (query-Keeps accepts _)
          (update_auction_on_bid-Keeps accepts auction_id _ _))

  handler-Keeps :
      (event_type : String)
      → KeepsAny (handler accepts auction_id data_ ledger tx_hash now event_type)
  unfolding handler bid_refunded auction_closed auction_settled auction_cancelled
      attestation_recorded auc_ext bid_out
  handler-Keeps event_type =
      either (str_eq event_type "auction_created") _ _ auction_created-Keeps (
        either (str_eq event_type "bid_placed") _ _ bid_placed-Keeps (
          either (str_eq event_type "bid_refunded") _ _
            (logged accepts (query accepts _) _ (query-Keeps accepts _))
            (either (str_eq event_type "auction_closed") _ _
              (logged accepts _ _ (update_auction_on_close-Keeps accepts auction_id closed _ _))
              (either (str_eq event_type "auction_settled") _ _
                (logged accepts (query accepts _) _ (query-Keeps accepts _))
                (either (str_eq event_type "auction_cancelled") _ _
                  (logged accepts (query accepts _) _ (query-Keeps accepts _))
                  (either (str_eq event_type "attestation_recorded") _ _
                    (logged accepts (query accepts _) _ (query-Keeps accepts _))
                    (either (str_eq event_type "auc_ext") _ _ (query-Keeps accepts _) (
                      either (str_eq event_type "bid_out") _ none
                        (logged accepts (query accepts _) _ (query-Keeps accepts _)) tt))))))))

dispatch-Keeps :
    (accepts : Statement → Bool) (first second : Native) (event : ContractEvent) (now : ℕ)
    → Keeps (dispatch accepts first second event now)
unfolding dispatch
dispatch-Keeps accepts first second event now =
    elim (Option-cases (auction_id_of (extract_topic_value second))) [
      | inl e ↦ rw (e, dispatch) (λ db v. v)
      | inr (id, e) ↦
          rw (e, dispatch)
            (or_skip-Keeps _ (
              handler-Keeps accepts id event.payload event.ledger event.tx_hash now (key_of first)))
    ]

pub process_event-Keeps :
    (accepts : Statement → Bool) (event : ContractEvent) (now : ℕ)
    → Keeps (process_event accepts event now)
unfolding process_event
process_event-Keeps accepts event now = go event.topics
  where
    go : (topics : List Native) → Keeps (process_topics accepts topics event now)
    go [] = λ db v. v
    go (first ∷ []) = λ db v. v
    go (first ∷ second ∷ others) = dispatch-Keeps accepts first second event now

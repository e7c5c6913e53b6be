-- ===== src/Indexer.antt =====
-- backend/src/indexer/event_indexer.ts: the handlers of contract events, and `processEvent`. The
-- values of @stellar/stellar-sdk's `scValToNative` are arguments; PostgreSQL is `accepts`; log lines
-- and the callback `onEvent` are left out here.
pub mod Events
pub mod Winning
pub mod Contract
pub mod Consistency
pub mod Loop
pub mod Poll
pub mod Retry
mod Tests
use Prim.Native.Char.{code}
use stellar_urithi_bidz.Prelude.{
  ℕ, ◌+◌, ◌-◌, ◌*◌, ◌<◌, String, Bool, true, false, List, [], ◌∷◌, Option, none, some, StrMap,
  str_eq, ltb, if◌then◌else◌, Result, pass,
}
use stellar_urithi_bidz.Text.{is_digit, trim_start}
use stellar_urithi_bidz.Values.{Value, undefined, text, number, is_truthy, ◌or_else◌, to_text}
use stellar_urithi_bidz.Database.{
  Format, english, dutch, sealed_bid, created, closed, AuctionRecord, BidRecord, EventRecord,
  Payload, of_auction, of_bid, of_data, Database, Statement, upsert_auction, cancel, attest,
  mark_refunded, insert_bid, insert_event, Action, done, ◌>>◌, query, update_auction_on_bid,
  update_auction_on_close, update_auction_on_settle,
}

-- `scValToNative(value.data())`, read as a record: a missing field is `undefined`.
abbrev pub EventData : Type 0
EventData = String → Value

unfoldable pub map_format : Value → Format
map_format (text s) =
    if str_eq s "english"
    then english
    else if str_eq s "dutch"
    then dutch
    else if str_eq s "sealed_bid"
    then sealed_bid
    else english
map_format _ = english

-- `String(data.x || fallback)`
abbrev pub text_or : Value → String → String
text_or v fallback = to_text (v or_else text fallback)

-- `data.x ? String(data.x) : undefined`
abbrev pub text_if : Value → Option String
text_if v = if is_truthy v then some (to_text v) else none

unfoldable pub auction_of : ℕ → EventData → AuctionRecord
auction_of auction_id data_ = record {
  id = auction_id;
  seller = data_ "seller" or_else text "";
  original_creator = data_ "original_creator" or_else text "";
  format = map_format (data_ "format");
  status = created;
  item_type = data_ "item_type" or_else text "digital";
  nft_contract = data_ "nft_contract" or_else undefined;
  token_id = data_ "token_id" or_else undefined;
  custodian = data_ "custodian" or_else undefined;
  attestation_hash = data_ "attestation_hash" or_else undefined;
  payment_token = data_ "payment_token" or_else text "";
  reserve_price = text_or (data_ "reserve_price") "0";
  royalty_bps = data_ "royalty_bps" or_else number 0;
  platform_fee_bps = data_ "platform_fee_bps" or_else number 250;
  start_time = data_ "start_time" or_else number 0;
  end_time = data_ "end_time" or_else number 0;
  commit_deadline = data_ "commit_deadline" or_else undefined;
  reveal_deadline = data_ "reveal_deadline" or_else undefined;
  metadata_uri = data_ "metadata_uri" or_else text "";
  min_increment = text_or (data_ "min_increment") "0";
  start_price = text_or (data_ "start_price") "0";
  price_decay_per_second = text_or (data_ "price_decay_per_second") "0";
  highest_bidder = undefined;
  highest_bid = "0";
  current_dutch_price = text_or (data_ "start_price") "0";
  attested = false;
  seller_proceeds = none;
  royalty_amount = none;
  platform_fee_amount = none;
  settled_at = false;
}

-- A bid, with the clock for a missing timestamp.
unfoldable pub bid_of : ℕ → EventData → ℕ → BidRecord
bid_of auction_id data_ now = record {
  auction_id = auction_id;
  bidder = data_ "bidder" or_else text "";
  amount = text_or (data_ "amount") "0";
  format = map_format (data_ "format");
  timestamp = data_ "timestamp" or_else number now;
  is_winning = true;
  refunded = false;
}

module _ (accepts : Statement → Bool) (auction_id : ℕ) (data_ : EventData) (ledger : ℕ)
    (tx_hash : Option String) (now : ℕ) where
  -- `insertEvent({ … })`
  abbrev pub log_event : String → Payload → Action
  log_event event_type payload = query accepts (
      insert_event (record {
        event_type = event_type;
        auction_id = auction_id;
        payload = payload;
        ledger_sequence = ledger;
        tx_hash = tx_hash;
      }))

  unfoldable pub auction_created : Action
  auction_created =
      query accepts (upsert_auction (auction_of auction_id data_))
      >> log_event "auction_created" (of_auction (auction_of auction_id data_))

  unfoldable pub bid_placed : Action
  bid_placed =
      query accepts (insert_bid (bid_of auction_id data_ now))
      >> update_auction_on_bid accepts auction_id (data_ "bidder" or_else text "")
          (text_or (data_ "amount") "0")
      >> log_event "bid_placed" (of_bid (bid_of auction_id data_ now))

  unfoldable pub bid_refunded : Action
  bid_refunded =
      query accepts (mark_refunded auction_id (data_ "bidder" or_else text ""))
      >> log_event "bid_refunded" (of_data (λ key. some (data_ key)))

  unfoldable pub auction_closed : Action
  auction_closed =
      update_auction_on_close accepts auction_id closed (text_if (data_ "winner"))
        (text_if (data_ "final_price"))
      >> log_event "auction_closed" (of_data (λ key. some (data_ key)))

  unfoldable pub auction_settled : Action
  auction_settled =
      update_auction_on_settle accepts auction_id (text_if (data_ "seller_proceeds"))
        (text_if (data_ "royalty_amount")) (text_if (data_ "platform_fee_amount"))
      >> log_event "auction_settled" (of_data (λ key. some (data_ key)))

  unfoldable pub auction_cancelled : Action
  auction_cancelled =
      query accepts (cancel auction_id)
      >> log_event "auction_cancelled" (of_data (λ key. some (data_ key)))

  unfoldable pub attestation_recorded : Action
  attestation_recorded =
      query accepts (attest auction_id (data_ "attestation_hash" or_else text ""))
      >> log_event "attestation_recorded" (of_data (λ key. some (data_ key)))

  unfoldable pub auc_ext : Action
  auc_ext = log_event "auction_extended" (of_data (λ key. some (data_ key)))

  unfoldable pub bid_out : Action
  bid_out =
      query accepts (mark_refunded auction_id (data_ "bidder" or_else text ""))
      >> log_event "bid_outbid" (of_data (λ key. some (data_ key)))

  -- `handlers[eventType]`
  unfoldable pub handler : String → Option Action
  handler event_type =
      if str_eq event_type "auction_created"
      then some auction_created
      else if str_eq event_type "bid_placed"
      then some bid_placed
      else if str_eq event_type "bid_refunded"
      then some bid_refunded
      else if str_eq event_type "auction_closed"
      then some auction_closed
      else if str_eq event_type "auction_settled"
      then some auction_settled
      else if str_eq event_type "auction_cancelled"
      then some auction_cancelled
      else if str_eq event_type "attestation_recorded"
      then some attestation_recorded
      else if str_eq event_type "auc_ext"
      then some auc_ext
      else if str_eq event_type "bid_out"
      then some bid_out
      else none

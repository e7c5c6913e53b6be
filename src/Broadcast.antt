-- ===== src/Broadcast.antt =====
-- backend/src/index.ts and the broadcast functions of backend/src/ws/socket_server.ts: what an
-- indexed event makes the server send to the browsers. socket.io is not modelled: a broadcast is the
-- list of its `emit` calls. The server exists by then, so the `if (!io)` never returns.
pub mod Silence
mod Tests
use stellar_urithi_bidz.Prelude.{
  ℕ, String, Bool, true, List, [], ◌∷◌, ◌++◌, str_eq, str_append, if◌then◌else◌,
}
use stellar_urithi_bidz.Values.{Value, text, number, truth, ◌or_else◌, decimal, to_text}
use stellar_urithi_bidz.Indexer.{EventData}
use stellar_urithi_bidz.SocketServer.{auction_room, bidder_room}

-- Whom an `emit` reaches: every client, or those of a room.
pub data Target : Type 0 where
  everyone : Target
  room : String → Target

-- `io.emit(event, fields)` or `io.to(room).emit(event, fields)`
pub record Emit : Type 0 where
  pub target : Target
  pub event : String
  pub fields : List (String × Value)

unfoldable pub to_auction : ℕ → String → List (String × Value) → Emit
unfolding decimal
to_auction auction_id event fields = record {
  target = room (auction_room (decimal auction_id));
  event = event;
  fields = ("auctionId", number auction_id) ∷ fields;
}

unfoldable pub broadcast_auction_created : List (String × Value) → List Emit
broadcast_auction_created auction =
    record { target = everyone; event = "auction:created"; fields = auction } ∷ []

unfoldable pub broadcast_new_bid : ℕ → List (String × Value) → List Emit
unfolding to_auction
broadcast_new_bid auction_id bid = to_auction auction_id "auction:new_bid" bid ∷ []

-- The room of the bidder is named by what the template literal makes of the field.
unfoldable pub broadcast_bid_refunded : ℕ → Value → String → List Emit
unfolding to_auction to_text
broadcast_bid_refunded auction_id bidder amount =
    to_auction auction_id "auction:bid_refunded" (("bidder", bidder) ∷ ("amount", text amount) ∷ [])
    ∷ record {
      target = room (bidder_room (to_text bidder));
      event = "bidder:refunded";
      fields = ("auctionId", number auction_id) ∷ ("amount", text amount) ∷ [];
    }
    ∷ []

unfoldable pub broadcast_auction_extended : ℕ → Value → List Emit
unfolding to_auction
broadcast_auction_extended auction_id new_end_time =
    to_auction auction_id "auction:extended" (("newEndTime", new_end_time) ∷ []) ∷ []

unfoldable pub broadcast_auction_closed : ℕ → Value → String → Value → List Emit
unfolding to_auction
broadcast_auction_closed auction_id winner final_price format =
    to_auction auction_id "auction:closed"
      (("winner", winner) ∷ ("finalPrice", text final_price) ∷ ("format", format) ∷ [])
    ∷ []

unfoldable pub broadcast_auction_settled : ℕ → List (String × Value) → List Emit
unfolding to_auction
broadcast_auction_settled auction_id settlement =
    to_auction auction_id "auction:settled" settlement ∷ []

unfoldable pub broadcast_auction_cancelled : ℕ → List Emit
unfolding to_auction
broadcast_auction_cancelled auction_id = to_auction auction_id "auction:cancelled" [] ∷ []

unfoldable pub broadcast_attestation_recorded : ℕ → Value → List Emit
unfolding to_auction
broadcast_attestation_recorded auction_id custodian =
    to_auction auction_id "auction:attested" (("custodian", custodian) ∷ []) ∷ []

-- `String(v || "0")`
unfoldable pub amount_text : Value → String
unfolding to_text
amount_text v = to_text (v or_else text "0")

-- The `switch` that `main` gives to `startIndexer`.
unfoldable pub on_event : String → ℕ → EventData → List Emit
unfolding amount_text broadcast_auction_created broadcast_new_bid broadcast_bid_refunded
    broadcast_auction_closed broadcast_auction_settled broadcast_auction_cancelled
    broadcast_attestation_recorded
on_event event_type auction_id data_ =
    if str_eq event_type "auction_created"
    then broadcast_auction_created (
        ("id", number auction_id)
        ∷ ("seller", data_ "seller")
        ∷ ("format", data_ "format")
        ∷ ("reserve_price", text (amount_text (data_ "reserve_price")))
        ∷ ("end_time", data_ "end_time")
        ∷ ("metadata_uri", data_ "metadata_uri")
        ∷ [])
    else if str_eq event_type "bid_placed"
    then broadcast_new_bid auction_id (
        ("bidder", data_ "bidder")
        ∷ ("amount", text (amount_text (data_ "amount")))
        ∷ ("timestamp", data_ "timestamp")
        ∷ ("is_winning", truth true)
        ∷ [])
    else if str_eq event_type "bid_refunded"
    then broadcast_bid_refunded auction_id (data_ "bidder") (amount_text (data_ "amount"))
    else if str_eq event_type "auction_closed"
    then broadcast_auction_closed auction_id (data_ "winner") (amount_text (data_ "winning_bid"))
        (data_ "format")
    else if str_eq event_type "auction_settled"
    then broadcast_auction_settled auction_id (
        ("seller_proceeds", text (amount_text (data_ "seller_proceeds")))
        ∷ ("royalty_amount", text (amount_text (data_ "royalty_amount")))
        ∷ ("platform_fee", text (amount_text (data_ "platform_fee")))
        ∷ [])
    else if str_eq event_type "auction_cancelled"
    then broadcast_auction_cancelled auction_id
    else if str_eq event_type "attestation_recorded"
    then broadcast_attestation_recorded auction_id (data_ "custodian")
    else []

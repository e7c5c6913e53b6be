-- ===== src/Hooks/Delivery.antt =====
-- backend/src/index.ts to frontend/src/hooks/useWebSocket.ts: what the hooks make of the server's
-- broadcasts.
use stellar_urithi_bidz.Prelude.{
  ℕ, String, true, List, [], ◌∷◌, Option, none, some, All, ◌≡◌, refl, ◌⊎◌, inl, inr, str_eq,
}
use stellar_urithi_bidz.Values.{undefined, text, number, truth}
use stellar_urithi_bidz.Indexer.{EventData}
use stellar_urithi_bidz.Broadcast.{
  Emit, on_event, amount_text, to_auction, broadcast_auction_created, broadcast_new_bid,
  broadcast_bid_refunded, broadcast_auction_closed, broadcast_auction_settled,
  broadcast_auction_cancelled, broadcast_attestation_recorded,
}
use stellar_urithi_bidz.Broadcast.Silence.{All-branches}
use stellar_urithi_bidz.Hooks.{
  AuctionHook, BidderHook, AuctionClosedEvent, hear, hear_bidder, refunded_notification, field,
  bid_event, closed_event,
}

-- The hook after the broadcasts of one indexed event, in their order.
unfoldable pub hear_all : ℕ → List Emit → AuctionHook → AuctionHook
unfolding hear
hear_all auction_id [] hook = hook
hear_all auction_id (emit ∷ emits) hook =
    hear_all auction_id emits (hear auction_id emit.event emit.fields hook).0

-- An indexed bid is the hook's latest bid, with the amount as a text, and nothing else changes.
pub bid_reaches_hook :
    (auction_id : ℕ) (data_ : EventData) (hook : AuctionHook)
    → hear_all auction_id (on_event "bid_placed" auction_id data_) hook ≡ record hook {
      latest_bid = some (record {
        auction_id = number auction_id;
        bidder = data_ "bidder";
        amount = text (amount_text (data_ "amount"));
        timestamp = data_ "timestamp";
        is_winning = truth true;
      });
    }
unfolding hear_all hear on_event broadcast_new_bid to_auction bid_event field
bid_reaches_hook auction_id data_ hook = refl

-- The name of a winning bid in a closed event, where it comes from the broadcast of a close.
abbrev pub HasNoPrice : Option AuctionClosedEvent → Type 0
HasNoPrice none = Unit
HasNoPrice (some closed) = (closed.winning_bid ≡ undefined) ⊎ (closed.winning_bid ≡ text "0")

-- What a broadcast leaves out, for an auction hook and a bidder hook.
abbrev pub LeavesOut : ℕ → String → String → AuctionHook → BidderHook → Emit → Type 0
LeavesOut auction_id address socket_id hook bidder emit =
    let heard = (hear auction_id emit.event emit.fields hook).0 in
    let told = (hear_bidder address socket_id emit.event emit.fields bidder).0 in
    (heard.auction_extended ≡ hook.auction_extended)
    × HasNoPrice heard.auction_closed
    × ((told.notification ≡ bidder.notification)
        ⊎ (told.notification ≡ some (refunded_notification emit.fields)))

-- Whatever the indexed event: no broadcast tells the hooks of an extension or of a win, and a close
-- never comes with a winning bid other than undefined, or "0" for a cancelled auction.
pub broadcasts-LeavesOut :
    (event_type : String) (auction_id : ℕ) (data_ : EventData) (address socket_id : String)
    (hook : AuctionHook) (bidder : BidderHook)
    → HasNoPrice hook.auction_closed
    → All
        (LeavesOut auction_id address socket_id hook bidder)
        (on_event event_type auction_id data_)
unfolding on_event to_auction broadcast_auction_created broadcast_new_bid broadcast_bid_refunded
    broadcast_auction_closed broadcast_auction_settled broadcast_auction_cancelled
    broadcast_attestation_recorded hear hear_bidder closed_event field
broadcasts-LeavesOut event_type auction_id data_ address socket_id hook bidder none_yet =
    let branch = All-branches (LeavesOut auction_id address socket_id hook bidder) in
    branch (str_eq event_type "auction_created") _ _ (λ e. ((refl, none_yet, inl refl), tt))
      (branch (str_eq event_type "bid_placed") _ _ (λ e. ((refl, none_yet, inl refl), tt))
        (branch (str_eq event_type "bid_refunded") _ _
          (λ e. ((refl, none_yet, inl refl), ((refl, none_yet, inr refl), tt)))
          (branch (str_eq event_type "auction_closed") _ _ (λ e. ((refl, inl refl, inl refl), tt))
            (branch (str_eq event_type "auction_settled") _ _
              (λ e. ((refl, none_yet, inl refl), tt))
              (branch (str_eq event_type "auction_cancelled") _ _
                (λ e. ((refl, inr refl, inl refl), tt))
                (branch (str_eq event_type "attestation_recorded") _ _
                  (λ e. ((refl, none_yet, inl refl), tt)) tt))))))

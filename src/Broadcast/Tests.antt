-- ===== src/Broadcast/Tests.antt =====
-- backend/src/index.ts: the broadcasts of concrete events.
use stellar_urithi_bidz.Prelude.{[], ◌∷◌, All, ◌≡◌, refl, str_eq, if◌then◌else◌}
use stellar_urithi_bidz.Values.{undefined, text, number, decimal, to_text}
use stellar_urithi_bidz.Indexer.{EventData}
use stellar_urithi_bidz.Broadcast.{room, on_event, to_auction, amount_text, broadcast_bid_refunded}
use stellar_urithi_bidz.Broadcast.Silence.{MayReach, on_event-MayReach}

abbrev refund : EventData
refund key =
    if str_eq key "bidder" then text "GA" else if str_eq key "amount" then number 500 else undefined

on_event-MayReach_example :
    All (MayReach "bid_refunded" 7 refund) (on_event "bid_refunded" 7 refund)
on_event-MayReach_example = on_event-MayReach "bid_refunded" 7 refund

refunded :
    on_event "bid_refunded" 7 refund
    ≡ record {
      target = room "auction:7";
      event = "auction:bid_refunded";
      fields = ("auctionId", number 7) ∷ ("bidder", text "GA") ∷ ("amount", text "500") ∷ [];
    }
      ∷ record {
        target = room "bidder:GA";
        event = "bidder:refunded";
        fields = ("auctionId", number 7) ∷ ("amount", text "500") ∷ [];
      }
      ∷ []
unfolding on_event broadcast_bid_refunded to_auction amount_text decimal to_text
refunded = refl

-- The indexer's handler reads the closing price from another field.
no_price : amount_text (refund "winning_bid") ≡ "0"
unfolding amount_text to_text
no_price = refl

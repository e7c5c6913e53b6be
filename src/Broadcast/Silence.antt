-- ===== src/Broadcast/Silence.antt =====
-- backend/src/index.ts: whom the broadcast of an event reaches, and which events reach nobody.
use stellar_urithi_bidz.Prelude.{
  ℕ, String, Bool, true, false, List, [], ◌∷◌, All, ◌≡◌, refl, ◌⊎◌, inl, inr, str_eq, eq_iff,
  if◌then◌else◌,
}
use stellar_urithi_bidz.Values.{decimal, to_text}
use stellar_urithi_bidz.Indexer.{EventData}
use stellar_urithi_bidz.SocketServer.{auction_room, bidder_room}
use stellar_urithi_bidz.Broadcast.{
  everyone, room, Emit, on_event, to_auction, broadcast_auction_created, broadcast_new_bid,
  broadcast_bid_refunded, broadcast_auction_closed, broadcast_auction_settled,
  broadcast_auction_cancelled, broadcast_attestation_recorded,
}

-- The symbols that contracts/auction/src/events.rs publishes as the first topic.
abbrev pub contract_symbols : List String
contract_symbols =
    "auc_new" ∷ "bid_new" ∷ "bid_ref" ∷ "cmt_stor" ∷ "bid_rev" ∷ "auc_end" ∷ "auc_set" ∷ "att_rec"
    ∷ "auc_cxl" ∷ "nft_appr" ∷ "urv_ref" ∷ "auc_ext" ∷ "bid_out" ∷ []

abbrev IsSilent : String → Type 0
IsSilent symbol = (auction_id : ℕ) (data_ : EventData) → on_event symbol auction_id data_ ≡ []

-- No event that the contract emits, of thirteen kinds, is broadcast to anyone.
pub contract_events-IsSilent : All IsSilent contract_symbols
unfolding on_event
contract_events-IsSilent = (
  (λ id d. refl),
  (
    (λ id d. refl),
    (
      (λ id d. refl),
      (
        (λ id d. refl),
        (
          (λ id d. refl),
          (
            (λ id d. refl),
            (
              (λ id d. refl),
              (
                (λ id d. refl),
                (
                  (λ id d. refl),
                  ((λ id d. refl), ((λ id d. refl), ((λ id d. refl), ((λ id d. refl), tt)))),
                ),
              ),
            ),
          ),
        ),
      ),
    ),
  ),
)

-- Where a broadcast may go: an auction's room, every client for a new auction, and a bidder's room
-- for that bidder's refund.
abbrev pub MayReach : String → ℕ → EventData → Emit → Type 0
MayReach event_type auction_id data_ emit =
    (emit.target ≡ room (auction_room (decimal auction_id)))
    ⊎ ((emit.target ≡ everyone) × (event_type ≡ "auction_created"))
    ⊎ ((emit.target ≡ room (bidder_room (to_text (data_ "bidder"))))
        × (event_type ≡ "bid_refunded"))

pub All-branches :
    (P : Emit → Type 0) (b : Bool) (xs ys : List Emit)
    → (b ≡ true → All P xs)
    → All P ys
    → All P (if b then xs else ys)
All-branches P true xs ys taken other = taken refl
All-branches P false xs ys taken other = other

-- Every emission for an event goes to the room of the event's auction, or to every client, then for
-- "auction_created", or to the room of the bidder that the event names, then for "bid_refunded".
pub on_event-MayReach :
    (event_type : String) (auction_id : ℕ) (data_ : EventData)
    → All (MayReach event_type auction_id data_) (on_event event_type auction_id data_)
unfolding on_event to_auction broadcast_auction_created broadcast_new_bid broadcast_bid_refunded
    broadcast_auction_closed broadcast_auction_settled broadcast_auction_cancelled
    broadcast_attestation_recorded
on_event-MayReach event_type auction_id data_ =
    let branch = All-branches (MayReach event_type auction_id data_) in
    branch (str_eq event_type "auction_created") _ _
      (λ e. (inr (inl (refl, (eq_iff event_type "auction_created").0 e)), tt))
      (branch (str_eq event_type "bid_placed") _ _ (λ e. (inl refl, tt))
        (branch (str_eq event_type "bid_refunded") _ _
          (λ e. (inl refl, (inr (inr (refl, (eq_iff event_type "bid_refunded").0 e)), tt)))
          (branch (str_eq event_type "auction_closed") _ _ (λ e. (inl refl, tt))
            (branch (str_eq event_type "auction_settled") _ _ (λ e. (inl refl, tt))
              (branch (str_eq event_type "auction_cancelled") _ _ (λ e. (inl refl, tt))
                (branch (str_eq event_type "attestation_recorded") _ _ (λ e. (inl refl, tt))
                  tt))))))

-- ===== src/Routes/Simulation.antt =====
-- backend/src/routes/auctions.ts: what a simulated auction or bid says.
use stellar_urithi_bidz.Prelude.{
  ℕ, ◌+◌, ◌≤◌, ◌<◌, true, false, Option, none, some, ◌≡◌, ◌≢◌, ◌↔◌, refl, arith, ltb, ◌==◌, Result,
  fail, pass, require-eq-pass, present-eq-pass, bind-eq-pass, inl, inr, Bool-cases, if◌then◌else◌,
}
use stellar_urithi_bidz.Values.{is_truthy, decimal}
use stellar_urithi_bidz.Database.{AuctionRecord, DatabaseError}
use stellar_urithi_bidz.Routes.{
  CreateAuctionBody, PlaceBidBody, internal, fees_exceed, not_accepted, FeeSplit, platform_fee_of,
  simulate_create, BidSimulation, big_int, accepts_bids, min_required, found, compare_bid,
  simulate_bid,
}

-- For a body as the schema leaves it, without a platform fee: the shares of a simulated auction add
-- up to 10,000 basis points and the platform's is 250; the answer is an error exactly if the royalty
-- is above 9,750.
pub simulate_create_adds_up :
    (body : CreateAuctionBody)
    → body.platform_fee_bps ≡ none
    → ((simulate_create body ≡ fail fees_exceed) ↔ (9750 < body.royalty_bps))
      × ((split : FeeSplit)
          → simulate_create body ≡ pass split
          → (split.royalty_bps + split.platform_fee_bps + split.seller_proceeds_bps ≡ 10000)
            × (split.platform_fee_bps ≡ 250)
            × (split.royalty_bps ≡ body.royalty_bps))
unfolding simulate_create platform_fee_of
simulate_create_adds_up body none_sent = (
  ((λ h. ground (arith, none_sent)), (λ h. ground (arith, none_sent))),
  (λ split h. ground (arith, none_sent)),
)

-- A bid that the simulation should let through, by what is read of its auction.
pub record IsValidBid (row : Result DatabaseError (Option AuctionRecord)) (body : PlaceBidBody)
    (simulation : BidSimulation) : Type 0 where
  pub auction : AuctionRecord
  pub read : row ≡ pass (some auction)
  pub accepting : accepts_bids auction.status ≡ true
  pub highest : ℕ
  pub reserve : ℕ
  pub increment : ℕ
  pub proposed : ℕ
  pub highest_bid : big_int auction.highest_bid ≡ some highest
  pub reserve_price : big_int auction.reserve_price ≡ some reserve
  pub min_increment : big_int auction.min_increment ≡ some increment
  pub bid_amount : big_int body.bid_amount ≡ some proposed
  pub first_bid : highest ≡ 0 → reserve ≤ proposed
  pub later_bid : highest ≢ 0 → highest + increment ≤ proposed
  pub says : simulation ≡ record {
    proposed_bid = decimal proposed;
    previous_highest = decimal highest;
    outbid_address = if is_truthy auction.highest_bidder then some auction.highest_bidder else none;
  }

found-pass :
    (row : Result DatabaseError (Option AuctionRecord)) {auction : AuctionRecord}
    → found row ≡ pass auction
    → row ≡ pass (some auction)
found-pass (fail e) h = cc
found-pass (pass none) h = cc
found-pass (pass (some auction)) h = ground arith

compare_bid_passed :
    (auction : AuctionRecord) (highest reserve increment proposed : ℕ) {simulation : BidSimulation}
    → compare_bid auction highest reserve increment proposed ≡ pass simulation
    → (highest ≡ 0 → reserve ≤ proposed)
      × (highest ≢ 0 → highest + increment ≤ proposed)
      × (simulation ≡ record {
        proposed_bid = decimal proposed;
        previous_highest = decimal highest;
        outbid_address =
            if is_truthy auction.highest_bidder then some auction.highest_bidder else none;
      })
unfolding compare_bid min_required
compare_bid_passed auction highest reserve increment proposed {simulation} h =
    elim (Bool-cases (ltb proposed (min_required highest reserve increment))) [
      | inl low ↦ absurd (ground arith)
      | inr enough ↦ ((λ first. ground arith), (λ later. ground arith), ground arith)
    ]

simulate_bid-IsValidBid :
    (row : Result DatabaseError (Option AuctionRecord)) (body : PlaceBidBody)
    (simulation : BidSimulation)
    → simulate_bid row body ≡ pass simulation
    → IsValidBid row body simulation
unfolding simulate_bid
simulate_bid-IsValidBid row body simulation h0 =
    let (auction, read, h1) = bind-eq-pass (found row) _ h0 in
    let (accepting, h2) =
      require-eq-pass (accepts_bids auction.status) (not_accepted auction.status) _ h1 in
    let (highest, h, h3) = present-eq-pass (big_int auction.highest_bid) internal _ h2 in
    let (reserve, r, h4) = present-eq-pass (big_int auction.reserve_price) internal _ h3 in
    let (increment, i, h5) = present-eq-pass (big_int auction.min_increment) internal _ h4 in
    let (proposed, b, h6) = present-eq-pass (big_int body.bid_amount) internal _ h5 in
    let (first, later, says) = compare_bid_passed auction highest reserve increment proposed h6 in
    record {
      auction = auction;
      read = found-pass row read;
      accepting = accepting;
      highest = highest;
      reserve = reserve;
      increment = increment;
      proposed = proposed;
      highest_bid = h;
      reserve_price = r;
      min_increment = i;
      bid_amount = b;
      first_bid = first;
      later_bid = later;
      says = says;
    }

compare_bid_enough :
    (auction : AuctionRecord) (highest reserve increment proposed : ℕ)
    → (highest ≡ 0 → reserve ≤ proposed)
    → (highest ≢ 0 → highest + increment ≤ proposed)
    → ltb proposed (min_required highest reserve increment) ≡ false
unfolding min_required
compare_bid_enough auction highest reserve increment proposed first later =
    elim (Bool-cases (highest == 0)) [
      | inl e ↦ ground (arith, e, first (ground (arith, e)))
      | inr e ↦ ground (arith, e, later (λ z. absurd (ground (arith, e, z))))
    ]

IsValidBid-simulate_bid :
    (row : Result DatabaseError (Option AuctionRecord)) (body : PlaceBidBody)
    (simulation : BidSimulation)
    → IsValidBid row body simulation
    → simulate_bid row body ≡ pass simulation
unfolding simulate_bid compare_bid
IsValidBid-simulate_bid row body simulation v =
    let enough =
      compare_bid_enough v.auction v.highest v.reserve v.increment v.proposed v.first_bid
        v.later_bid in
    rw
      (
        v.read, v.accepting, v.highest_bid, v.reserve_price, v.min_increment, v.bid_amount, enough,
        v.says,
      )
      refl

-- A simulated bid is answered as valid exactly if the row of the auction is read, its status is
-- active or created, its three amounts and the bid are numbers, and the bid is at least the reserve
-- price where the highest bid is zero, else at least the highest bid and the increment; the answer
-- names the bid, the highest bid and its bidder.
pub simulate_bid_iff :
    (row : Result DatabaseError (Option AuctionRecord)) (body : PlaceBidBody)
    (simulation : BidSimulation)
    → (simulate_bid row body ≡ pass simulation) ↔ IsValidBid row body simulation
simulate_bid_iff row body simulation =
    (simulate_bid-IsValidBid row body simulation, IsValidBid-simulate_bid row body simulation)

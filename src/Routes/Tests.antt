-- ===== src/Routes/Tests.antt =====
-- backend/src/routes/auctions.ts: simulations of concrete auctions and bids.
use stellar_urithi_bidz.Prelude.{ℕ, ◌+◌, ◌<◌, ◌≡◌, ◌↔◌, refl, String, none, some, false, pass, fail}
use stellar_urithi_bidz.Text.{parse_digits}
use stellar_urithi_bidz.Values.{undefined, text, number, decimal}
use stellar_urithi_bidz.Database.{AuctionRecord, english, active, closed, Status}
use stellar_urithi_bidz.Routes.{
  CreateAuctionBody, PlaceBidBody, fees_exceed, not_found, not_accepted, bid_too_low, FeeSplit,
  platform_fee_of, simulate_create, BidSimulation, big_int, min_required, compare_bid, simulate_bid,
  place_bid,
}
use stellar_urithi_bidz.Routes.Simulation.{simulate_create_adds_up, simulate_bid_iff, IsValidBid}

abbrev auction : Status → String → AuctionRecord
auction status highest_bid = record {
  id = 1;
  seller = text "GS";
  original_creator = text "GS";
  format = english;
  status = status;
  item_type = text "digital";
  nft_contract = undefined;
  token_id = undefined;
  custodian = undefined;
  attestation_hash = undefined;
  payment_token = text "CT";
  reserve_price = "100";
  royalty_bps = number 500;
  platform_fee_bps = number 250;
  start_time = number 0;
  end_time = number 10;
  commit_deadline = undefined;
  reveal_deadline = undefined;
  metadata_uri = text "ipfs://b";
  min_increment = "10";
  start_price = "0";
  price_decay_per_second = "0";
  highest_bidder = text "GB";
  highest_bid = highest_bid;
  current_dutch_price = "0";
  attested = false;
  seller_proceeds = none;
  royalty_amount = none;
  platform_fee_amount = none;
  settled_at = false;
}

abbrev bid : String → PlaceBidBody
bid amount = record { bidder = "GC"; bid_amount = amount }

abbrev body : ℕ → CreateAuctionBody
body royalty = record {
  royalty_bps = royalty;
  platform_fee_bps = none;
  start_time = 5;
  end_time = 9;
}

simulate_create_adds_up_run :
    ((simulate_create (body 500) ≡ fail fees_exceed) ↔ (9750 < 500))
    × ((split : FeeSplit)
        → simulate_create (body 500) ≡ pass split
        → (split.royalty_bps + split.platform_fee_bps + split.seller_proceeds_bps ≡ 10000)
          × (split.platform_fee_bps ≡ 250)
          × (split.royalty_bps ≡ 500))
simulate_create_adds_up_run = simulate_create_adds_up (body 500) refl

whole_royalty : simulate_create (body 10000) ≡ fail fees_exceed
unfolding simulate_create platform_fee_of
whole_royalty = refl

abbrev valid : BidSimulation
valid = record { proposed_bid = "160"; previous_highest = "150"; outbid_address = some (text "GB") }

simulate_bid_iff_example :
    (simulate_bid (pass (some (auction active "150"))) (bid "160") ≡ pass valid)
    ↔ IsValidBid (pass (some (auction active "150"))) (bid "160") valid
simulate_bid_iff_example = simulate_bid_iff (pass (some (auction active "150"))) (bid "160") valid

outbids : simulate_bid (pass (some (auction active "150"))) (bid "160") ≡ pass valid
unfolding simulate_bid compare_bid big_int min_required parse_digits decimal
outbids = refl

too_low :
    simulate_bid (pass (some (auction active "150"))) (bid "159") ≡ fail (bid_too_low "150" "160")
unfolding simulate_bid compare_bid big_int min_required parse_digits decimal
too_low = refl

closed_auction :
    simulate_bid (pass (some (auction closed "150"))) (bid "160") ≡ fail (not_accepted closed)
unfolding simulate_bid
closed_auction = refl

no_auction : place_bid 7 (pass none) (bid "160") ≡ fail not_found
unfolding place_bid
no_auction = refl

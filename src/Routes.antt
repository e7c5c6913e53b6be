-- ===== src/Routes.antt =====
-- backend/src/routes/auctions.ts: the simulations and the bid route, which check an auction or a bid
-- before it goes to the chain. A handler gets what the Zod schemas of backend/src/schemas/auctions.ts let through. What
-- PostgreSQL answers is an argument: `fail` where the query throws. Log lines are left out.
pub mod Health
pub mod Simulation
mod Tests
use stellar_urithi_bidz.Prelude.{
  ℕ, ◌+◌, ◌-◌, String, Bool, true, false, ◌||◌, Option, none, some, str_eq, ltb, ◌==◌,
  if◌then◌else◌, Result, fail, pass, ◌>>=◌, require, present,
}
use stellar_urithi_bidz.Text.{parse_digits}
use stellar_urithi_bidz.Values.{Value, is_truthy, decimal}
use stellar_urithi_bidz.Database.{
  AuctionRecord, Status, created, active, ended, closed, settled, cancelled, DatabaseError,
}

-- The fields of `createAuctionBodySchema` that a handler reads. `platform_fee_bps` is not a field of
-- the schema, which strips it: `none`.
pub record CreateAuctionBody : Type 0 where
  pub royalty_bps : ℕ
  pub platform_fee_bps : Option ℕ
  pub start_time : ℕ
  pub end_time : ℕ

pub record PlaceBidBody : Type 0 where
  pub bidder : String
  pub bid_amount : String

pub data RouteError : Type 0 where
  not_found internal fees_exceed : RouteError
  not_accepted : Status → RouteError
  bid_too_low : String → String → RouteError

unfoldable pub status_code : RouteError → ℕ
status_code not_found = 404
status_code internal = 500
status_code fees_exceed = 400
status_code (not_accepted _) = 400
status_code (bid_too_low _ _) = 400

pub record FeeSplit : Type 0 where
  pub royalty_bps : ℕ
  pub platform_fee_bps : ℕ
  pub seller_proceeds_bps : ℕ
  pub estimated_start_time : ℕ
  pub estimated_end_time : ℕ

-- `body.platform_fee_bps || 250`
unfoldable pub platform_fee_of : Option ℕ → ℕ
platform_fee_of none = 250
platform_fee_of (some bps) = if bps == 0 then 250 else bps

-- POST /api/simulate-create
unfoldable pub simulate_create : CreateAuctionBody → Result RouteError FeeSplit
unfolding platform_fee_of
simulate_create body =
    let platform_fee_bps = platform_fee_of body.platform_fee_bps in
    if ltb 10000 (body.royalty_bps + platform_fee_bps)
    then fail fees_exceed
    else pass (record {
      royalty_bps = body.royalty_bps;
      platform_fee_bps = platform_fee_bps;
      seller_proceeds_bps = 10000 - (body.royalty_bps + platform_fee_bps);
      estimated_start_time = body.start_time;
      estimated_end_time = body.end_time;
    })

pub record BidSimulation : Type 0 where
  pub proposed_bid : String
  pub previous_highest : String
  pub outbid_address : Option Value

-- `BigInt(s || "0")` for what a NUMERIC column or the schema of a bid holds; any other text throws.
unfoldable pub big_int : String → Option ℕ
big_int s = if str_eq s "" then some 0 else parse_digits s

abbrev pub accepts_bids : Status → Bool
accepts_bids active = true
accepts_bids created = true
accepts_bids _ = false

unfoldable pub min_required : ℕ → ℕ → ℕ → ℕ
min_required highest reserve increment = if highest == 0 then reserve else highest + increment

-- `getAuction(id)` as the handlers use it: the query may throw, and the row be missing.
abbrev pub found : Result DatabaseError (Option AuctionRecord) → Result RouteError AuctionRecord
found (fail _) = fail internal
found (pass row) = present row not_found

-- The comparison, once all four amounts are numbers.
unfoldable pub compare_bid : AuctionRecord → ℕ → ℕ → ℕ → ℕ → Result RouteError BidSimulation
unfolding min_required
compare_bid auction highest reserve increment proposed =
    if ltb proposed (min_required highest reserve increment)
    then fail (bid_too_low (decimal highest) (decimal (min_required highest reserve increment)))
    else pass (record {
      proposed_bid = decimal proposed;
      previous_highest = decimal highest;
      outbid_address =
          if is_truthy auction.highest_bidder then some auction.highest_bidder else none;
    })

-- POST /api/:id/simulate-bid, on what `getAuction` returns
unfoldable pub simulate_bid :
    Result DatabaseError (Option AuctionRecord) → PlaceBidBody → Result RouteError BidSimulation
unfolding compare_bid big_int
simulate_bid row body = found row >>= (λ auction.
    require (accepts_bids auction.status) (not_accepted auction.status) (
      present (big_int auction.highest_bid) internal >>= (λ highest.
        present (big_int auction.reserve_price) internal >>= (λ reserve.
          present (big_int auction.min_increment) internal >>= (λ increment.
            present (big_int body.bid_amount) internal
            >>= (λ proposed. compare_bid auction highest reserve increment proposed))))))

-- POST /api/:id/bids, after authentication: the auction's id and the body come back.
unfoldable pub place_bid :
    ℕ
    → Result DatabaseError (Option AuctionRecord)
    → PlaceBidBody
    → Result RouteError (ℕ × PlaceBidBody)
place_bid id row body = found row >>= (λ auction. pass (id, body))

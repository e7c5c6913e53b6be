-- ===== src/Database/Analytics/Tests.antt =====
-- backend/src/db/index.ts: the analytics of a small table.
use stellar_urithi_bidz.Prelude.{ℕ, ◌+◌, String, Bool, true, false, [], ◌∷◌, none, ◌≡◌, refl}
use stellar_urithi_bidz.Text.{parse_digits, decimal_from}
use stellar_urithi_bidz.Values.{undefined, text, number, decimal}
use stellar_urithi_bidz.Database.{
  AuctionRecord, Database, Status, Statement, english, active, settled, settle, effect,
  update_auction_on_bid,
}
use stellar_urithi_bidz.Database.Analytics.{get_analytics, sum_of, volume, amount_of, one_active}
use stellar_urithi_bidz.Database.Analytics.Moves.{settle_moves, late_bid_reopens, newly}

abbrev auction : ℕ → Status → String → AuctionRecord
auction id status highest_bid = record {
  id = id;
  seller = text "GS";
  original_creator = text "GS";
  format = english;
  status = status;
  item_type = text "digital";
  nft_contract = undefined;
  token_id = undefined;
  custodian = undefined;
  attestation_hash = undefined;
  payment_token = text "CT";
  reserve_price = "100";
  royalty_bps = number 500;
  platform_fee_bps = number 250;
  start_time = number 0;
  end_time = number 10;
  commit_deadline = undefined;
  reveal_deadline = undefined;
  metadata_uri = text "ipfs://b";
  min_increment = "10";
  start_price = "0";
  price_decay_per_second = "0";
  highest_bidder = text "GB";
  highest_bid = highest_bid;
  current_dutch_price = "0";
  attested = false;
  seller_proceeds = none;
  royalty_amount = none;
  platform_fee_amount = none;
  settled_at = false;
}

abbrev db : Database
db = record {
  auctions = auction 1 active "120" ∷ auction 2 settled "35" ∷ [];
  bids = [];
  events = [];
  last_ledger = 0;
}

seen :
    get_analytics db.auctions
    ≡ record { total_auctions = 2; total_volume = "35"; active_auctions = 1; settled_auctions = 1 }
unfolding get_analytics amount_of parse_digits decimal_from decimal
seen = refl

settle_moves_example :
    let after = get_analytics (effect (settle 1 none none none) db).auctions in
    let before = get_analytics db.auctions in
    (after.total_auctions ≡ before.total_auctions)
    × (after.settled_auctions ≡ before.settled_auctions + newly (auction 1 active "120") 1)
    × (after.active_auctions + one_active (auction 1 active "120") ≡ before.active_auctions)
    × (after.total_volume
        ≡ decimal (sum_of volume db.auctions + newly (auction 1 active "120") (amount_of "120")))
settle_moves_example =
    settle_moves db 1 (auction 1 active "120") none none none (refl, (refl, tt)) refl

abbrev accepts : Statement → Bool
accepts statement = true

late_bid_reopens_run :
    let after = get_analytics (update_auction_on_bid accepts 2 (text "GC") "40" db).0.auctions in
    let before = get_analytics db.auctions in
    (after.settled_auctions + 1 ≡ before.settled_auctions)
    × (after.active_auctions ≡ before.active_auctions + 1)
    × ((v : ℕ) × (before.total_volume ≡ decimal (v + amount_of "35"))
        × (after.total_volume ≡ decimal v))
late_bid_reopens_run =
    late_bid_reopens accepts db 2 (auction 2 settled "35") (text "GC") "40" refl refl
      (refl, (refl, tt)) refl refl

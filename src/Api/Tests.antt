-- ===== src/Api/Tests.antt =====
-- backend/src/index.ts: requests by method and path, and a bid that is posted.
use stellar_urithi_bidz.Prelude.{
  ℕ, String, [], ◌∷◌, Option, none, some, ◌≡◌, ◌≢◌, ◌↔◌, refl, str_eq, Result, pass, empty,
  if◌then◌else◌, ◌==◌, false,
}
use stellar_urithi_bidz.Auth.{
  Verifier, stellar_auth_middleware, check, nonce_in, sent_at, verify_ed25519_signature,
}
use stellar_urithi_bidz.RateLimiter.{limit}
use stellar_urithi_bidz.RateLimiter.Sharing.{post}
use stellar_urithi_bidz.Text.{trim, before, parse_digits, strip_prefix}
use stellar_urithi_bidz.Values.{undefined, text, number}
use stellar_urithi_bidz.Database.{AuctionRecord, english, active}
use stellar_urithi_bidz.Database as Db
use stellar_urithi_bidz.Listing.{ParseError, validate}
use stellar_urithi_bidz.Api.{
  Api, SignedHeaders, post_bid, guarded, after_limits, authenticated, placed, get_, post_, auction,
  app_health, database_health, bids, routes,
}
use stellar_urithi_bidz.Api.Reach.{IsReached, first_match, first_match-IsFirstMatch, reached_iff}
use stellar_urithi_bidz.Api.Posting.{IsAdmitted, post_bid_iff}

reached_iff_example : IsReached first_match auction ↔ (auction ≢ database_health)
reached_iff_example = reached_iff first_match first_match-IsFirstMatch auction

health_is_the_applications : first_match routes get_ ("api" ∷ "health" ∷ []) ≡ some app_health
unfolding first_match
health_is_the_applications = refl

-- The bids of all auctions come before the auction named "bids".
all_bids : first_match routes get_ ("api" ∷ "bids" ∷ []) ≡ some bids
unfolding first_match
all_bids = refl

no_such_post : first_match routes post_ ("api" ∷ "health" ∷ []) ≡ none
unfolding first_match
no_such_post = refl

record Bid : Type 0 where
  id : ℕ
  bidder : String

abbrev bid : Bid
bid = record { id = 1; bidder = "GC" }

abbrev parse : Bid → Result ParseError Bid
parse sent = pass sent

abbrev bidder_of : Bid → Option String
bidder_of sent = some sent.bidder

abbrev signs : Verifier
signs address message signature = some (str_eq signature "sig")

abbrev headers : SignedHeaders
headers = record { signature = some "sig"; message = some "stellar-urithi-bidz-auth:400000:x" }

abbrev new_api : Api
new_api = record { store = empty; seen_nonces = empty }

abbrev auction_row : AuctionRecord
auction_row = record {
  id = 1;
  seller = text "GS";
  original_creator = text "GS";
  format = english;
  status = active;
  item_type = text "digital";
  nft_contract = undefined;
  token_id = undefined;
  custodian = undefined;
  attestation_hash = undefined;
  payment_token = text "CT";
  reserve_price = "100";
  royalty_bps = number 500;
  platform_fee_bps = number 250;
  start_time = number 0;
  end_time = number 10;
  commit_deadline = undefined;
  reveal_deadline = undefined;
  metadata_uri = text "ipfs://b";
  min_increment = "10";
  start_price = "0";
  price_decay_per_second = "0";
  highest_bidder = text "GB";
  highest_bid = "0";
  current_dutch_price = "0";
  attested = false;
  seller_proceeds = none;
  royalty_amount = none;
  platform_fee_amount = none;
  settled_at = false;
}

abbrev one_auction : ℕ → Result Db.DatabaseError (Option AuctionRecord)
one_auction id = if id == 1 then pass (some auction_row) else pass none

post_bid_iff_example :
    ((post_bid signs parse bidder_of
        (λ sent. sent.id)
        one_auction
        "1.2.3.4"
        headers
        400000
        new_api
        bid).1
      ≡ pass bid)
    ↔ (IsAdmitted signs parse bidder_of "1.2.3.4" headers 400000 new_api bid bid
        × ((row : AuctionRecord) × (one_auction 1 ≡ pass (some row))))
post_bid_iff_example =
    post_bid_iff signs parse bidder_of "1.2.3.4" headers 400000 new_api bid (λ sent. sent.id)
      one_auction bid

-- Both sides hold: the bid is accepted.
bid_accepted :
    (post_bid signs parse bidder_of
      (λ sent. sent.id)
      one_auction
      "1.2.3.4"
      headers
      400000
      new_api
      bid).1
    ≡ pass bid
unfolding post_bid guarded after_limits authenticated placed post limit stellar_auth_middleware
    check nonce_in sent_at verify_ed25519_signature trim before parse_digits strip_prefix validate
bid_accepted = refl

-- ===== src/Listing/Tests.antt =====
-- A list of auctions on concrete parameters.
use stellar_urithi_bidz.Prelude.{ℕ, [], ◌∷◌, some, none, ◌≡◌, refl, pass, length}
use stellar_urithi_bidz.Values.{text, number, decimal}
use stellar_urithi_bidz.Listing.{
  AuctionFilter, BidFilter, get_bid_history, Run, condition, paged, get_auctions, search_params,
}
use stellar_urithi_bidz.Listing.Placeholders.{Matches, pages-Matches}
use stellar_urithi_bidz.Listing.Request.{Parser, number_of, lookup}

abbrev active : AuctionFilter
active = record {
  status = some "active";
  format = none;
  seller = some "GA";
  limit = some 20;
  offset = none;
}

active_query : get_auctions active ≡ record {
  sql =
      "SELECT * FROM auctions WHERE status=$1 AND seller=$2 ORDER BY created_at DESC LIMIT $3 OFFSET $4";
  values = text "active" ∷ text "GA" ∷ number 20 ∷ number 0 ∷ [];
}
unfolding get_auctions condition paged decimal
active_query = refl

abbrev all_bids : BidFilter
all_bids = record { bidder = none; limit = none; offset = some 10 }

pages-Matches_example :
    Matches "auctions"
      (("status", some "active") ∷ ("format", none) ∷ ("seller", some "GA") ∷ [])
      (some 20)
      none
      (get_auctions active)
    × Matches "bids" (("bidder", none) ∷ []) none (some 10) (get_bid_history all_bids)
pages-Matches_example = pages-Matches active all_bids

abbrev lenient : Parser
lenient query = pass (record {
  status = query "status";
  format = query "format";
  seller = query "seller";
  limit = number_of (query "limit");
  offset = number_of (query "offset");
})

abbrev seen : AuctionFilter
seen = record {
  status = lookup (search_params active) "status";
  format = lookup (search_params active) "format";
  seller = lookup (search_params active) "seller";
  limit = number_of (lookup (search_params active) "limit");
  offset = number_of (lookup (search_params active) "offset");
}

abbrev one_row : Run ℕ
one_row statement = pass (length statement.values ∷ [])

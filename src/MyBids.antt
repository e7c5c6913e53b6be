-- ===== src/MyBids.antt =====
-- frontend/src/app/my-bids/page.tsx: the list of a bidder's bids. A request is one step.
pub mod Labels
use stellar_urithi_bidz.Prelude.{String, Bool, true, false, List, Option, none, some, if◌then◌else◌}
use stellar_urithi_bidz.Auth.{truthy}
use stellar_urithi_bidz.AuctionPage.{BidItem}
use stellar_urithi_bidz.Listing.Answer.{ApiResponse}

pub record MyBidsPage : Type 0 where
  pub bids : List BidItem
  pub loading : Bool

abbrev pub first_page : List BidItem → MyBidsPage
first_page bids = record { bids = bids; loading = true }

-- `fetchBids`, for the wallet's address and what `getBidHistory` answers
unfoldable pub fetch_bids :
    Option String → (String → ApiResponse (List BidItem)) → MyBidsPage → MyBidsPage
fetch_bids address get_bid_history page = elim (truthy address) [
  | none ↦ page
  | some a ↦
      let result = get_bid_history a in
      elim result.success [
        | false ↦ record page { loading = false }
        | true ↦ elim result.data_ [
          | none ↦ record page { loading = false }
          | some found ↦ record page { bids = found; loading = false }
        ]
      ]
]

-- The label of a bid
unfoldable pub bid_label : BidItem → String
bid_label bid = if bid.is_winning then "Leading" else if bid.refunded then "Refunded" else "Outbid"

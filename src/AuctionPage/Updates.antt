-- ===== src/AuctionPage/Updates.antt =====
-- frontend/src/app/auctions/[id]/page.tsx: what answers of the API and events of the socket do to the
-- page. React runs an effect after a render in which one of its dependencies is another object than
-- when it ran last (`Object.is`), so the model numbers the objects that `auction` and `latestBid` have
-- been; `auctionId` stays the same while the page is open.
use stellar_urithi_bidz.Prelude.{
  ℕ, zero, suc, String, Bool, true, false, not, ◌&&◌, List, [], ◌∷◌, Option, none, some, ◌≡◌, ◌==◌,
  if◌then◌else◌,
}
use stellar_urithi_bidz.Database.{Format, Status, closed, settled}
use stellar_urithi_bidz.AuctionPage.{AuctionItem, BidItem, Page}

-- `BidEvent` of the hook
pub record BidEvent : Type 0 where
  pub auction_id : ℕ
  pub bidder : String
  pub amount : String
  pub timestamp : ℕ

-- The page with the numbers of the objects that `auction` and `latestBid` are, and those with which
-- the effect on bids ran last.
pub record Rendered : Type 0 where
  pub page : Page
  pub auction_object : ℕ
  pub bid_object : ℕ
  pub last_run : Option (ℕ × ℕ)

-- `setAuction` with an object that was made for it
unfoldable pub set_auction : AuctionItem → Rendered → Rendered
set_auction item r = record r {
  page = record r.page { auction = some item };
  auction_object = suc r.auction_object;
}

unfoldable pub set_bids : List BidItem → Rendered → Rendered
set_bids bids r = record r { page = record r.page { bids = bids } }

-- `fetchAuction`: the auction where the answer has one; the flag is cleared in any case.
unfoldable pub fetched : Option AuctionItem → Rendered → Rendered
unfolding set_auction
fetched none r = record r { page = record r.page { loading = false } }
fetched (some item) r =
    let later = set_auction item r in record later { page = record later.page { loading = false } }

unfoldable pub fetched_bids : Option (List BidItem) → Rendered → Rendered
unfolding set_bids
fetched_bids none r = r
fetched_bids (some bids) r = set_bids bids r

unfoldable pub bid_item : ℕ → ℕ → Format → BidEvent → BidItem
bid_item now auction_id format bid = record {
  id = now;
  auction_id = auction_id;
  bidder = bid.bidder;
  amount = bid.amount;
  format = format;
  timestamp = bid.timestamp;
  is_winning = true;
  refunded = false;
}

-- The body of the effect on `[latestBid, auctionId, auction]`
unfoldable pub apply_bid : ℕ → Option BidEvent → ℕ → Rendered → Rendered
unfolding set_auction set_bids bid_item
apply_bid auction_id none now r = r
apply_bid auction_id (some bid) now r = elim r.page.auction [
  | none ↦ r
  | some item ↦
      if bid.auction_id == auction_id
      then set_bids (bid_item now auction_id item.format bid ∷ r.page.bids) (
          set_auction (record item { highest_bid = bid.amount; highest_bidder = some bid.bidder })
            r)
      else r
]

-- Whether a dependency is another object than when the effect ran last
unfoldable pub is_due : Rendered → Bool
is_due r = elim r.last_run [
  | none ↦ true
  | some (bid_object, auction_object) ↦
      not ((bid_object == r.bid_object) && (auction_object == r.auction_object))
]

-- What the effect on bids does after a render
unfoldable pub after_render : ℕ → Option BidEvent → ℕ → Rendered → Rendered
unfolding is_due apply_bid
after_render auction_id latest_bid now r =
    if is_due r
    then apply_bid auction_id latest_bid now
        (record r { last_run = some (r.bid_object, r.auction_object) })
    else r

-- The bodies of the effects on `[auctionClosed, auctionId, auction]` and
-- `[auctionSettled, auctionId, auction]`
unfoldable pub apply_status : Status → ℕ → Option ℕ → Rendered → Rendered
unfolding set_auction
apply_status status auction_id none r = r
apply_status status auction_id (some event_id) r = elim r.page.auction [
  | none ↦ r
  | some item ↦
      if event_id == auction_id then set_auction (record item { status = status }) r else r
]

abbrev pub apply_closed : ℕ → Option ℕ → Rendered → Rendered
apply_closed = apply_status closed

abbrev pub apply_settled : ℕ → Option ℕ → Rendered → Rendered
apply_settled = apply_status settled

-- The page after `n` renders; the clock gives the time of each.
unfoldable pub renders : ℕ → BidEvent → (ℕ → ℕ) → ℕ → Rendered → Rendered
unfolding after_render
renders auction_id bid clock zero r = r
renders auction_id bid clock (suc n) r =
    after_render auction_id (some bid) (clock n) (renders auction_id bid clock n r)

-- The list items that an event of a bid stands for, one for each of `n` times of the clock, the last
-- one first
unfoldable pub copies : ℕ → Format → BidEvent → (ℕ → ℕ) → ℕ → List BidItem
copies auction_id format bid clock zero = []
copies auction_id format bid clock (suc n) =
    record {
      id = clock n;
      auction_id = auction_id;
      bidder = bid.bidder;
      amount = bid.amount;
      format = format;
      timestamp = bid.timestamp;
      is_winning = true;
      refunded = false;
    }
    ∷ copies auction_id format bid clock n

-- A page that shows an auction of this format, and on which the effect is to run
HasDue : Format → Rendered → Type 0
HasDue format r =
    (is_due r ≡ true)
    × ((item : AuctionItem) × (r.page.auction ≡ some item) × (item.format ≡ format))

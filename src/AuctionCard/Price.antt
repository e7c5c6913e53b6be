-- ===== src/AuctionCard/Price.antt =====
-- frontend/src/components/auction/AuctionCard.tsx: which price a card shows.
use stellar_urithi_bidz.Prelude.{
  ℕ, some, ◌≡◌, refl, ap, sym, ◌∙◌, pass, bind-eq-pass, pass-injective,
}
use stellar_urithi_bidz.Text.{parse_digits, decimal_from}
use stellar_urithi_bidz.Values.{decimal}
use stellar_urithi_bidz.Routes.{big_int}
use stellar_urithi_bidz.Format.{format_stroops, pad_start, trim_zeros}
use stellar_urithi_bidz.AuctionCard.{
  CardItem, Card, stroops_of, stroops_if, dutch_price_of, auction_card,
}

zero_bid : stroops_if (some "0") ≡ pass (some "0")
unfolding stroops_if stroops_of big_int parse_digits decimal_from format_stroops decimal pad_start
    trim_zeros
zero_bid = refl

-- An auction without a bid, of which the indexer writes "0" for the highest bid, is shown with a
-- current bid of 0, and not with its reserve price, wherever its card is shown.
pub no_bid_shown :
    (now_ms : ℕ) (auction : CardItem) (card : Card)
    → auction.highest_bid ≡ "0"
    → auction_card now_ms auction ≡ pass card
    → (card.price_label ≡ "Current Bid") × (card.price ≡ "0 stroops")
unfolding auction_card
no_bid_shown now_ms auction card h e =
    let read : stroops_if (some auction.highest_bid) ≡ pass (some "0") =
      ap (λ bid. stroops_if (some bid)) h ∙ zero_bid in
    let (reserve, _, after_reserve) =
      bind-eq-pass (stroops_of auction.reserve_price) _ (rw read at e) in
    let (dutch, _, shown) = bind-eq-pass (stroops_if (dutch_price_of auction)) _ after_reserve in
    let same = pass-injective shown in
    (ap (λ (c : Card). c.price_label) (sym same), ap (λ (c : Card). c.price) (sym same))

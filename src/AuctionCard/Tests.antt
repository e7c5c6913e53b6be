-- ===== src/AuctionCard/Tests.antt =====
-- frontend/src/components/auction/AuctionCard.tsx: a concrete card.
use stellar_urithi_bidz.Prelude.{String, some, ◌≡◌, refl, pass, fail}
use stellar_urithi_bidz.Text.{parse_digits, decimal_from, strip_prefix}
use stellar_urithi_bidz.Values.{decimal}
use stellar_urithi_bidz.Database.{dutch, active}
use stellar_urithi_bidz.Routes.{big_int}
use stellar_urithi_bidz.Format.{
  format_stroops, pad_start, trim_zeros, format_address, bps_to_percentage, format_time_remaining,
  time_parts, parts_text,
}
use stellar_urithi_bidz.AuctionCard.{
  CardItem, Card, auction_card, stroops_if, stroops_of, remove_first,
}
use stellar_urithi_bidz.AuctionCard.Price.{no_bid_shown}

abbrev vase : String → CardItem
vase reserve = record {
  seller = "GABCDEFGHIJ";
  format = dutch;
  status = active;
  item_type = "physical";
  metadata_uri = "ipfs://bafy";
  end_time = 65;
  highest_bid = "0";
  reserve_price = reserve;
  current_dutch_price = some "12500000";
  royalty_bps = 505;
}

abbrev card : Card
card = record {
  metadata = "IPFS: bafy...";
  status = "Active";
  format = "Dutch";
  item_type = "Physical";
  time_remaining = some "1m 3s";
  seller = "GABCDE...GHIJ";
  price_label = "Current Bid";
  price = "0 stroops";
  dutch_price = some "1.25";
  royalty = "5.05%";
  call_to_action = some "Buy Now →";
}

shown : auction_card 2000 (vase "100") ≡ pass card
unfolding auction_card stroops_if stroops_of big_int parse_digits decimal_from format_stroops
    decimal pad_start trim_zeros format_address bps_to_percentage format_time_remaining time_parts
    parts_text remove_first strip_prefix
shown = refl

throws : auction_card 2000 (vase "1.5") ≡ fail "Cannot convert 1.5 to a BigInt"
unfolding auction_card stroops_if stroops_of big_int parse_digits decimal_from format_stroops
    decimal pad_start trim_zeros
throws = refl

label_of_no_bid : (card.price_label ≡ "Current Bid") × (card.price ≡ "0 stroops")
label_of_no_bid = no_bid_shown 2000 (vase "100") card refl shown

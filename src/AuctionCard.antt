-- ===== src/AuctionCard.antt =====
-- frontend/src/components/auction/AuctionCard.tsx: the texts of an auction's card in a list. Rendering
-- throws where an amount is no number: `fail`, with the message of `BigInt`. Colours and icons are left out.
pub mod Price
mod Tests
use Prim.Native.String.{[], ◌∷◌}
use stellar_urithi_bidz.Prelude.{
  ℕ, String, Bool, true, false, ◌&&◌, Option, none, some, ◌≡◌, refl, str_eq, str_append,
  if◌then◌else◌, Result, fail, pass, ◌>>=◌,
}
use stellar_urithi_bidz.Text.{strip_prefix}
use stellar_urithi_bidz.Auth.{truthy}
use stellar_urithi_bidz.Database.{
  Format, english, dutch, sealed_bid, Status, created, active, ended, closed, settled, cancelled,
}
use stellar_urithi_bidz.Routes.{big_int}
use stellar_urithi_bidz.Format.{
  take, format_stroops, format_address, format_time_remaining, bps_to_percentage,
}

-- The fields of `AuctionItem` that the card reads
pub record CardItem : Type 0 where
  pub seller : String
  pub format : Format
  pub status : Status
  pub item_type : String
  pub metadata_uri : String
  pub end_time : ℕ
  pub highest_bid : String
  pub reserve_price : String
  pub current_dutch_price : Option String
  pub royalty_bps : ℕ

pub record Card : Type 0 where
  pub metadata : String
  pub status : String
  pub format : String
  pub item_type : String
  pub time_remaining : Option String
  pub seller : String
  pub price_label : String
  pub price : String
  pub dutch_price : Option String
  pub royalty : String
  pub call_to_action : Option String

-- `formatStroops` of a text
unfoldable pub stroops_of : String → Result String String
unfolding big_int
stroops_of amount = elim (big_int amount) [
  | none ↦ fail (str_append "Cannot convert " (str_append amount " to a BigInt"))
  | some n ↦ pass (format_stroops n)
]

-- The text of an amount that may be missing or empty
unfoldable pub stroops_if : Option String → Result String (Option String)
unfolding stroops_of
stroops_if amount = elim (truthy amount) [
  | none ↦ pass none
  | some a ↦ stroops_of a >>= (λ text. pass (some text))
]

-- `s.replace(part, "")`: the first occurrence goes.
unfoldable pub remove_first : String → String → String
unfolding strip_prefix
remove_first part [] = []
remove_first part (c ∷ s) =
    let rest = remove_first part s in
    elim (strip_prefix part (c ∷ s)) [ some behind ↦ behind | none ↦ c ∷ rest ]

abbrev format_label : Format → String
format_label english = "English"
format_label dutch = "Dutch"
format_label sealed_bid = "Sealed-Bid"

-- The status with a capital letter
abbrev status_label : Status → String
status_label created = "Created"
status_label active = "Active"
status_label ended = "Ended"
status_label closed = "Closed"
status_label settled = "Settled"
status_label cancelled = "Cancelled"

abbrev is_active : Status → Bool
is_active active = true
is_active _ = false

abbrev is_dutch : Format → Bool
is_dutch dutch = true
is_dutch _ = false

abbrev action_label : Format → String
action_label english = "Place Bid →"
action_label dutch = "Buy Now →"
action_label sealed_bid = "Commit Bid →"

abbrev when {ℓ} : {A : Type ℓ} → Bool → A → Option A
when true a = some a
when false a = none

-- The current price of a Dutch auction that is active
abbrev dutch_price_of : CardItem → Option String
dutch_price_of auction =
    if is_dutch auction.format && is_active auction.status
    then auction.current_dutch_price
    else none

-- The line about the metadata; `slice` of ASCII text
abbrev metadata_text : String → String
metadata_text uri =
    if str_eq uri ""
    then "No metadata"
    else str_append "IPFS: " (str_append (take 12 (remove_first "ipfs://" uri)) "...")

-- What is rendered once all amounts are texts
abbrev rendered : ℕ → CardItem → Option String → String → Option String → Card
rendered now_ms auction bid reserve dutch_price = record {
  metadata = metadata_text auction.metadata_uri;
  status = status_label auction.status;
  format = format_label auction.format;
  item_type = if str_eq auction.item_type "physical" then "Physical" else "Digital";
  time_remaining = when (is_active auction.status) (format_time_remaining now_ms auction.end_time);
  seller = format_address auction.seller 4;
  price_label = elim bid [ none ↦ "Reserve Price" | some text ↦ "Current Bid" ];
  price = str_append (elim bid [ none ↦ reserve | some text ↦ text ]) " stroops";
  dutch_price = dutch_price;
  royalty = bps_to_percentage auction.royalty_bps;
  call_to_action = when (is_active auction.status) (action_label auction.format);
}

unfoldable pub auction_card : ℕ → CardItem → Result String Card
unfolding stroops_if
auction_card now_ms auction = do
  bid ← stroops_if (some auction.highest_bid)
  reserve ← stroops_of auction.reserve_price
  dutch_price ← stroops_if (dutch_price_of auction)
  pass (rendered now_ms auction bid reserve dutch_price)

-- ===== src/CreatePage.antt =====
-- frontend/src/app/create/page.tsx: the form of a new auction and its submission; and the checks of
-- `create_auction` in contracts/auction/src/lib.rs. What the contract answers, the clock, the payment
-- token of the environment and the wallet are arguments; the SDK's checks of addresses are part of
-- the answer. Texts for `BigInt` carry no signs; those for `parseInt` may. The layout is left out.
pub mod Deadlines
mod Tests
use stellar_urithi_bidz.Prelude.{
  ℕ, ◌+◌, ◌-◌, ◌*◌, ◌/◌, ◌==◌, String, Bool, true, false, not, ◌&&◌, List, [], ◌∷◌, Option, none,
  some, str_eq, ltb, leb, if◌then◌else◌, Result, fail, pass, ◌>>=◌, present,
}
use stellar_urithi_bidz.Text.{Signed, plus, minus, leading_int}
use stellar_urithi_bidz.Database.{Format, english, dutch, sealed_bid}
use stellar_urithi_bidz.Routes.{big_int}
use stellar_urithi_bidz.AuctionPage.{Answer, Wallet, signer, message_or}

pub data ItemType : Type 0 where
  digital physical : ItemType

-- The state that `handleSubmit` reads
pub record Form : Type 0 where
  pub step : ℕ
  pub format : Format
  pub item_type : ItemType
  pub reserve_price : String
  pub royalty_bps : String
  pub duration : String
  pub metadata_uri : String
  pub original_creator : String
  pub min_increment : String
  pub start_price : String
  pub decay_rate : String
  pub commit_duration : String
  pub custodian_address : String
  pub image_cid_uri : Option String
  pub metadata_uploaded : Bool
  pub submitting : Bool

abbrev pub new_form : Form
new_form = record {
  step = 1;
  format = english;
  item_type = digital;
  reserve_price = "";
  royalty_bps = "500";
  duration = "24";
  metadata_uri = "";
  original_creator = "";
  min_increment = "";
  start_price = "";
  decay_rate = "";
  commit_duration = "12";
  custodian_address = "";
  image_cid_uri = none;
  metadata_uploaded = false;
  submitting = false;
}

pub data Item : Type 0 where
  digital_item : String → ℕ → Item
  physical_item : String → Item

-- `CreateAuctionParams`
pub record CreateParams : Type 0 where
  pub seller : String
  pub original_creator : String
  pub format : Format
  pub item : Item
  pub payment_token : String
  pub reserve_price : ℕ
  -- `none` is NaN
  pub royalty_bps : Option Signed
  pub start_time : ℕ
  pub end_time : Signed
  pub metadata_uri : String
  pub min_increment : ℕ
  pub start_price : ℕ
  pub price_decay_per_second : ℕ
  pub commit_deadline : Signed
  pub reveal_deadline : Signed
  pub max_bidders : ℕ

-- `s || default`
abbrev pub or_text : String → String → String
or_text s default = if str_eq s "" then default else s

abbrev not_integer : String
not_integer = "The number NaN cannot be converted to a BigInt because it is not an integer"

-- The sum of two whole numbers
unfoldable pub sum : Signed → Signed → Signed
sum (plus a) (plus b) = plus (a + b)
sum (plus a) (minus b) = if leb b a then plus (a - b) else minus (b - a)
sum (minus a) (plus b) = if leb a b then plus (b - a) else minus (a - b)
sum (minus a) (minus b) = minus (a + b)

abbrev pub seconds : Signed → Signed
seconds (plus hours) = plus (hours * 3600)
seconds (minus hours) = minus (hours * 3600)

-- `parseInt(s || default, 10) * 3600`
unfoldable pub seconds_of : String → String → Option Signed
unfolding leading_int
seconds_of s default = elim (leading_int (or_text s default)) [
  | none ↦ none
  | some hours ↦ some (seconds hours)
]

-- The two deadlines of a sealed bid; 0 in the other formats
unfoldable pub deadlines : Form → ℕ → Result String (Signed × Signed)
unfolding seconds_of sum
deadlines form start_time = elim form.format [
  | sealed_bid ↦ present (seconds_of form.commit_duration "12") not_integer >>= (λ commit.
      pass (sum (plus start_time) commit, sum (sum (plus start_time) commit) (plus (12 * 3600))))
  | _ ↦ pass (plus 0, plus 0)
]

unfoldable pub item_of : Form → String → String → Item
item_of form address payment_token = elim form.item_type [
  | digital ↦ digital_item payment_token 1
  | physical ↦ physical_item (or_text form.custodian_address address)
]

abbrev no_integer : String
no_integer = "Cannot convert the text to a BigInt"

abbrev pub big_int_of : String → Result String ℕ
big_int_of s = present (big_int s) no_integer

-- The `try` of `handleSubmit` up to the call; `fail` is an exception.
unfoldable pub params_of : String → ℕ → String → Form → Result String CreateParams
unfolding seconds_of deadlines item_of sum leading_int
params_of payment_token now_ms address form =
    let start_time = now_ms / 1000 + 60 in
    present (seconds_of form.duration "24") not_integer >>= (λ lasts.
      deadlines form start_time >>= (λ (commit_deadline, reveal_deadline).
        big_int_of form.reserve_price >>= (λ reserve_price.
          big_int_of form.min_increment >>= (λ min_increment.
            big_int_of form.start_price >>= (λ start_price. big_int_of form.decay_rate >>= (λ decay.
              pass (record {
                seller = address;
                original_creator = or_text form.original_creator address;
                format = form.format;
                item = item_of form address payment_token;
                payment_token = payment_token;
                reserve_price = reserve_price;
                royalty_bps = leading_int (or_text form.royalty_bps "500");
                start_time = start_time;
                end_time = sum (plus start_time) lasts;
                metadata_uri = form.metadata_uri;
                min_increment = min_increment;
                start_price = start_price;
                price_decay_per_second = decay;
                commit_deadline = commit_deadline;
                reveal_deadline = reveal_deadline;
                max_bidders = 50;
              })))))))

-- What the page does: toasts, the wallet's dialog, the contract's call and the way home.
pub data Act : Type 0 where
  error : String → Act
  success : String → Act
  connect_wallet go_home : Act
  create_auction : CreateParams → Act

abbrev after_answer : CreateParams → Answer → List Act
after_answer params (fail message) =
    create_auction params ∷ error (message_or "Failed to create auction" message) ∷ []
after_answer params (pass hash) = create_auction params ∷ success hash ∷ go_home ∷ []

-- `handleSubmit`; the flag that it sets is cleared at its end.
unfoldable pub handle_submit :
    (CreateParams → Answer) → String → ℕ → Wallet → Form → Form × List Act
unfolding signer params_of
handle_submit contract token now_ms wallet form = elim (signer wallet) [
  | none ↦ (form, error "Connect your wallet to create an auction" ∷ connect_wallet ∷ [])
  | some address ↦
      if str_eq form.metadata_uri ""
      then (form, error "Please upload metadata to IPFS first" ∷ [])
      else (
        record form { submitting = false },
        elim (params_of (or_text token address) now_ms address form) [
          | fail message ↦ error message ∷ []
          | pass params ↦ after_answer params (contract params)
        ],
      )
]

unfoldable pub handle_image_uploaded : String → Form → Form
handle_image_uploaded uri form = record form { image_cid_uri = some uri }

unfoldable pub handle_metadata_uploaded : String → Form → Form
handle_metadata_uploaded uri form = record form { metadata_uri = uri; metadata_uploaded = true }

-- A time as the contract takes it: a negative number is no `u64`.
unfoldable pub as_u64 : Signed → Option ℕ
as_u64 (plus n) = some n
as_u64 (minus n) = if n == 0 then some 0 else none

-- The checks of the contract on the times of an auction, once they are `u64`
unfoldable pub in_order : Format → ℕ → ℕ → ℕ → ℕ → Bool
in_order format start_time end_time commit_deadline reveal_deadline =
    ltb start_time end_time && elim format [
      | sealed_bid ↦
          ltb start_time commit_deadline
          && (ltb commit_deadline reveal_deadline && leb reveal_deadline end_time)
      | _ ↦ true
    ]

unfoldable pub times_accepted : CreateParams → Bool
unfolding as_u64 in_order
times_accepted params = elim (as_u64 params.end_time) [
  | none ↦ false
  | some end_time ↦ elim (as_u64 params.commit_deadline) [
    | none ↦ false
    | some commit_deadline ↦ elim (as_u64 params.reveal_deadline) [
      | none ↦ false
      | some reveal_deadline ↦
          in_order params.format params.start_time end_time commit_deadline reveal_deadline
    ]
  ]
]

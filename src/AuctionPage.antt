-- ===== src/AuctionPage.antt =====
-- frontend/src/app/auctions/[id]/page.tsx: the state of the page of one auction and its handlers. A
-- handler runs as one step; it sets a flag before its `try` and clears it in its `finally`. What
-- the contract answers to `invokeContract`, the random salt, the HMAC and the user's confirmation
-- are arguments. The signs that a text for `BigInt` may carry are left out, and so is the layout.
pub mod Actions
pub mod Handlers
pub mod Sealed
pub mod Updates
mod Tests
use stellar_urithi_bidz.Prelude.{
  ℕ, String, Bool, true, false, not, List, [], ◌∷◌, ◌++◌, Option, none, some, StrMap, insert,
  str_eq, str_append, ◌==◌, if◌then◌else◌, Result, fail, pass,
}
use stellar_urithi_bidz.Values.{decimal}
use stellar_urithi_bidz.Database.{Format, Status}
use stellar_urithi_bidz.Routes.{big_int}
use stellar_urithi_bidz.Invoke.{Arg, u64, i128, address, bytes_n, none_option}
use stellar_urithi_bidz.Commitment.{commitment_message}
use stellar_urithi_bidz.Commitment.Hex.{hex_of, hex_to_bytes}

-- The fields of `AuctionItem` that the page's state depends on.
pub record AuctionItem : Type 0 where
  pub seller : String
  pub format : Format
  pub status : Status
  pub end_time : ℕ
  pub highest_bid : String
  pub highest_bidder : Option String

pub record BidItem : Type 0 where
  pub id : ℕ
  pub auction_id : ℕ
  pub bidder : String
  pub amount : String
  pub format : Format
  pub timestamp : ℕ
  pub is_winning : Bool
  pub refunded : Bool

-- What `localStorage` keeps of a sealed bid, as JSON.
pub record SavedCommitment : Type 0 where
  pub amount : String
  pub salt_hex : String

pub record Page : Type 0 where
  pub auction : Option AuctionItem
  pub bids : List BidItem
  pub loading : Bool
  pub bid_amount : String
  pub placing_bid : Bool
  pub action_loading : Bool
  pub saved_commitment : Option SavedCommitment
  -- of the browser, not of the page: it outlives it
  pub local_storage : StrMap SavedCommitment

pub record Wallet : Type 0 where
  pub is_connected : Bool
  pub address : Option String

-- What a handler calls, in its order. A toast of success ends with the start of a hash.
pub data Call : Type 0 where
  error : String → Call
  success : String → String → Call
  connect_wallet fetch_auction : Call
  invoke : String → List Arg → String → Call

-- A hash, or an exception: `none` is one that is no `Error`.
abbrev pub Answer : Type 0
Answer = Result (Option String) String

abbrev pub Contract : Type 0
Contract = String → List Arg → String → Answer

-- `!isConnected || !address`
unfoldable pub signer : Wallet → Option String
signer wallet =
    if wallet.is_connected
    then elim wallet.address [ none ↦ none | some a ↦ if str_eq a "" then none else some a ]
    else none

abbrev pub message_or : String → Option String → String
message_or default none = default
message_or default (some message) = message

-- The `try` of a handler from its `invokeContract` on.
abbrev pub on_answer :
    String → String → (Page → Page) → List Call → Answer → Page → Page × List Call
on_answer default label then_ calls (fail message) page =
    (page, error (message_or default message) ∷ [])
on_answer default label then_ calls (pass hash) page = (then_ page, success label hash ∷ calls)

abbrev pub no_wallet : List Call
no_wallet = error "Connect your wallet first" ∷ connect_wallet ∷ []

-- The exception of `BigInt`
abbrev pub no_number : String → List Call
no_number s = error (str_append "Cannot convert " (str_append s " to a BigInt")) ∷ []

-- The flag that a handler sets before its `try`, and clears in its `finally`.
pub data Busy : Type 0 where
  placing acting : Busy

abbrev pub start : Busy → Page → Page
start placing page = record page { placing_bid = true }
start acting page = record page { action_loading = true }

abbrev pub finally_ : Busy → Page → Page
finally_ placing page = record page { placing_bid = false }
finally_ acting page = record page { action_loading = false }

abbrev pub same : Page → Page
same page = page

abbrev pub clear_amount : Page → Page
clear_amount page = record page { bid_amount = "" }

unfoldable pub storage_key : ℕ → String → String
unfolding decimal
storage_key auction_id a = str_append "sealed_" (str_append (decimal auction_id) (str_append "_" a))

-- The salt is saved before the contract is called.
unfoldable pub save_commitment : ℕ → String → List ℕ → Page → Page
unfolding storage_key hex_of
save_commitment auction_id a salt page =
    let saved : SavedCommitment = record { amount = page.bid_amount; salt_hex = hex_of salt } in
    record page {
      saved_commitment = some saved;
      local_storage = insert (storage_key auction_id a) saved page.local_storage;
    }

-- The effect on `[address, auctionId]`; text in the storage that does not parse is no entry.
unfoldable pub load_commitment : ℕ → Option String → Page → Page
unfolding storage_key
load_commitment auction_id none page = page
load_commitment auction_id (some a) page =
    if str_eq a ""
    then page
    else if auction_id == 0
    then page
    else record page { saved_commitment = page.local_storage (storage_key auction_id a) }

-- ===== src/AuctionPage/Tests.antt =====
-- frontend/src/app/auctions/[id]/page.tsx: a page with concrete bids.
use stellar_urithi_bidz.Prelude.{
  ℕ, true, false, List, [], ◌∷◌, none, some, empty, head?, All, ◌≡◌, ◌≢◌, refl, arith, eq_iff, fail,
  pass,
}
use stellar_urithi_bidz.Text.{parse_digits}
use stellar_urithi_bidz.Database.{english, active}
use stellar_urithi_bidz.Routes.{big_int}
use stellar_urithi_bidz.Invoke.{u64, i128, address, bytes_n}
use stellar_urithi_bidz.Commitment.Hex.{hex_of}
use stellar_urithi_bidz.AuctionPage.{
  AuctionItem, Page, Wallet, Call, invoke, Contract, signer, storage_key, load_commitment,
}
use stellar_urithi_bidz.AuctionPage.Handlers.{
  call, handle_place_english_bid, handle_commit_sealed_bid, handle_reveal_sealed_bid,
}
use stellar_urithi_bidz.AuctionPage.Actions.{IsIdle, IsSigned, withdraw, handle, handle-IsSettled}
use stellar_urithi_bidz.AuctionPage.Sealed.{commit_overwrites, reveal_after_commit}
use stellar_urithi_bidz.AuctionPage.Updates.{
  BidEvent, Rendered, is_due, renders, after_render, apply_bid,
}

abbrev refusing : Contract
refusing method args a = fail (some "HostError")

abbrev accepting : Contract
accepting method args a = pass "abcdef"

abbrev hmac : List ℕ → List ℕ → List ℕ
hmac key message = key

abbrev item : AuctionItem
item = record {
  seller = "GS";
  format = english;
  status = active;
  end_time = 99;
  highest_bid = "0";
  highest_bidder = none;
}

abbrev page : Page
page = record {
  auction = some item;
  bids = [];
  loading = false;
  bid_amount = "500";
  placing_bid = false;
  action_loading = false;
  saved_commitment = none;
  local_storage = empty;
}

abbrev wallet : Wallet
wallet = record { is_connected = true; address = some "GA" }

abbrev salt : List ℕ
salt = 7 ∷ 255 ∷ []

signed : signer wallet ≡ some "GA"
unfolding signer
signed = refl

amount : big_int page.bid_amount ≡ some 500
unfolding big_int parse_digits
amount = refl

typed : page.bid_amount ≢ ""
typed = ground (arith, eq_iff "500" "")

placed :
    (handle_place_english_bid accepting 7 wallet page).1
    ≡ invoke "place_bid" (u64 7 ∷ address "GA" ∷ i128 500 ∷ []) "GA"
      ∷ Call.success "Bid placed on-chain! Tx: " "abcdef"
      ∷ Call.fetch_auction
      ∷ []
unfolding handle_place_english_bid signer call big_int parse_digits
placed = refl

handle-IsSettled_example :
    IsIdle (handle refusing hmac 7 withdraw wallet page).0
    × All (IsSigned wallet) (handle refusing hmac 7 withdraw wallet page).1
handle-IsSettled_example = handle-IsSettled refusing hmac 7 withdraw wallet page (refl, refl)

salt_replaced :
    (handle_commit_sealed_bid refusing 7 hmac salt wallet page).0.local_storage (storage_key 7 "GA")
    ≡ some (record { amount = "500"; salt_hex = hex_of salt })
salt_replaced = commit_overwrites hmac 7 refusing salt wallet page "GA" 500 signed typed amount

abbrev reopened : Page
reopened = record page {
  bid_amount = "";
  local_storage = (handle_commit_sealed_bid accepting 7 hmac salt wallet page).0.local_storage;
}

reveal_after_commit_example :
    head? (handle_reveal_sealed_bid accepting 7 wallet (load_commitment 7 (some "GA") reopened)).1
    ≡ some (invoke "reveal_bid" (u64 7 ∷ address "GA" ∷ i128 500 ∷ bytes_n salt ∷ []) "GA")
reveal_after_commit_example =
    reveal_after_commit hmac 7 accepting accepting salt wallet page reopened "GA" 500 signed typed
      amount (omega arith, (omega arith, tt)) refl refl

abbrev bid : BidEvent
bid = record { auction_id = 7; bidder = "GB"; amount = "600"; timestamp = 3 }

-- The first render with the event, which is the first object for `latestBid`.
abbrev shown : Rendered
shown = record { page = page; auction_object = 1; bid_object = 1; last_run = some (0, 1) }

-- An event of another auction: the effect runs once and comes to rest.
abbrev other_bid : BidEvent
other_bid = record bid { auction_id = 8 }

other_rests : is_due (renders 7 other_bid (λ n. n) 3 shown) ≡ false
unfolding renders after_render is_due apply_bid
other_rests = refl

-- ===== src/AuctionPage/Handlers.antt =====
-- frontend/src/app/auctions/[id]/page.tsx: the handlers of the buttons.
use stellar_urithi_bidz.Prelude.{
  ℕ, String, Bool, true, false, List, [], ◌∷◌, none, some, str_eq, if◌then◌else◌,
}
use stellar_urithi_bidz.Routes.{big_int}
use stellar_urithi_bidz.Invoke.{Arg, u64, i128, address, bytes_n, none_option}
use stellar_urithi_bidz.Commitment.{commitment_message}
use stellar_urithi_bidz.Commitment.Hex.{hex_to_bytes}
use stellar_urithi_bidz.AuctionPage.{
  Busy, Call, Contract, Page, Wallet, clear_amount, error, finally_, start, invoke, no_number,
  no_wallet, on_answer, same, save_commitment, signer, acting, placing, fetch_auction,
}

module _ (contract : Contract) (auction_id : ℕ) where
  -- A handler from the flag that it sets before its `try`: `invokeContract(method, …, address)` and
  -- what follows it
  unfoldable pub call :
      Busy
      → String
      → List Arg
      → String
      → String
      → String
      → (Page → Page)
      → List Call
      → Page
      → Page × List Call
  call busy method args a default label then_ calls page =
      let (page', made) =
        on_answer default label then_ calls (contract method args a) (start busy page) in
      (finally_ busy page', invoke method args a ∷ made)

  unfoldable pub handle_place_english_bid : Wallet → Page → Page × List Call
  unfolding signer call
  handle_place_english_bid wallet page = elim (signer wallet) [
    | none ↦ (page, no_wallet)
    | some a ↦
        if str_eq page.bid_amount ""
        then (page, error "Enter a bid amount" ∷ [])
        else elim (big_int page.bid_amount) [
          | none ↦ (finally_ placing (start placing page), no_number page.bid_amount)
          | some n ↦
              call placing "place_bid" (u64 auction_id ∷ address a ∷ i128 n ∷ []) a
                "Failed to place bid" "Bid placed on-chain! Tx: " clear_amount (fetch_auction ∷ [])
                page
        ]
  ]

  unfoldable pub handle_buy_now : Wallet → Page → Page × List Call
  unfolding signer call
  handle_buy_now wallet page = elim (signer wallet) [
    | none ↦ (page, no_wallet)
    | some a ↦
        call placing "buy_now" (u64 auction_id ∷ address a ∷ none_option ∷ []) a
          "Failed to purchase" "Item purchased! Tx: " same (fetch_auction ∷ []) page
  ]

  -- `BigInt(amount)` throws in `computeCommitment`, before anything is saved.
  unfoldable pub handle_commit_sealed_bid :
      (List ℕ → List ℕ → List ℕ) → List ℕ → Wallet → Page → Page × List Call
  unfolding signer call save_commitment
  handle_commit_sealed_bid hmac salt wallet page = elim (signer wallet) [
    | none ↦ (page, no_wallet)
    | some a ↦
        if str_eq page.bid_amount ""
        then (page, error "Enter a bid amount" ∷ [])
        else elim (big_int page.bid_amount) [
          | none ↦ (finally_ placing (start placing page), no_number page.bid_amount)
          | some n ↦
              call placing "commit_bid"
                (u64 auction_id
                  ∷ address a
                  ∷ bytes_n (hmac salt (commitment_message auction_id a n))
                  ∷ i128 n
                  ∷ [])
                a "Failed to commit bid" "Sealed bid committed! Salt saved locally. Tx: "
                clear_amount (fetch_auction ∷ []) (save_commitment auction_id a salt page)
        ]
  ]

  unfoldable pub handle_reveal_sealed_bid : Wallet → Page → Page × List Call
  unfolding signer call hex_to_bytes
  handle_reveal_sealed_bid wallet page = elim (signer wallet) [
    | none ↦ (page, no_wallet)
    | some a ↦ elim page.saved_commitment [
      | none ↦ (page, error "No saved bid commitment found for this account" ∷ [])
      | some saved ↦ elim (big_int saved.amount) [
        | none ↦ (finally_ placing (start placing page), no_number saved.amount)
        | some n ↦
            call placing "reveal_bid"
              (u64 auction_id ∷ address a ∷ i128 n ∷ bytes_n (hex_to_bytes saved.salt_hex) ∷ []) a
              "Failed to reveal bid" "Sealed bid revealed! Tx: " same (fetch_auction ∷ []) page
      ]
    ]
  ]

  unfoldable pub handle_withdraw_refund : Wallet → Page → Page × List Call
  unfolding signer call
  handle_withdraw_refund wallet page = elim (signer wallet) [
    | none ↦ (page, no_wallet)
    | some a ↦
        call acting "withdraw_refund" (u64 auction_id ∷ address a ∷ []) a
          "Failed to withdraw refund" "Refund withdrawn! Tx: " same (fetch_auction ∷ []) page
  ]

  -- The four actions of the seller, which do nothing without a wallet.
  unfoldable pub seller_action :
      String → String → String → List Call → Wallet → Page → Page × List Call
  unfolding signer call
  seller_action method default label calls wallet page = elim (signer wallet) [
    | none ↦ (page, [])
    | some a ↦ call acting method (u64 auction_id ∷ []) a default label same calls page
  ]

  unfoldable pub handle_approve_nft_transfer : Wallet → Page → Page × List Call
  unfolding seller_action
  handle_approve_nft_transfer =
      seller_action "approve_nft_transfer" "Approval failed" "NFT transfer approved! Tx: " []

  unfoldable pub handle_close_auction : Wallet → Page → Page × List Call
  unfolding seller_action
  handle_close_auction =
      seller_action "close_auction" "Close failed" "Auction closed! Tx: " (fetch_auction ∷ [])

  unfoldable pub handle_settle_auction : Wallet → Page → Page × List Call
  unfolding seller_action
  handle_settle_auction =
      seller_action "settle_auction" "Settlement failed" "Auction settled & funds distributed! Tx: "
        (fetch_auction ∷ [])

  -- `confirm(…)` is asked after the wallet.
  unfoldable pub handle_cancel_auction : Bool → Wallet → Page → Page × List Call
  unfolding seller_action
  handle_cancel_auction sure wallet page = elim sure [
    | false ↦ (page, [])
    | true ↦
        seller_action "cancel_auction" "Cancel failed" "Auction cancelled. Tx: "
          (fetch_auction ∷ []) wallet page
  ]

-- ===== src/AuctionPage/Actions.antt =====
-- frontend/src/app/auctions/[id]/page.tsx: what every handler of the page keeps.
use stellar_urithi_bidz.Prelude.{
  ℕ, String, Bool, true, false, List, [], ◌∷◌, some, All, ◌≡◌, ◌∙◌, refl, inl, inr, Option-cases,
  Bool-cases, str_eq, fail, pass,
}
use stellar_urithi_bidz.Routes.{big_int}
use stellar_urithi_bidz.Invoke.{Arg}
use stellar_urithi_bidz.AuctionPage.{
  Page, Wallet, Call, fetch_auction, invoke, Answer, Contract, Busy, placing, acting, start,
  finally_, same, clear_amount, signer, on_answer, save_commitment,
}
use stellar_urithi_bidz.AuctionPage.Handlers.{
  call, handle_place_english_bid, handle_buy_now, handle_commit_sealed_bid,
  handle_reveal_sealed_bid, handle_withdraw_refund, seller_action, handle_approve_nft_transfer,
  handle_close_auction, handle_settle_auction, handle_cancel_auction,
}

-- The buttons of the page: a commitment comes with its salt, a cancellation with the user's answer.
pub data Action : Type 0 where
  place_english_bid buy_now reveal withdraw approve close settle : Action
  commit : List ℕ → Action
  cancel : Bool → Action

-- A call of the contract in the name of the connected wallet.
abbrev pub IsSigned : Wallet → Call → Type 0
IsSigned wallet (invoke method args a) = signer wallet ≡ some a
IsSigned wallet _ = Unit

abbrev pub IsIdle : Page → Type 0
IsIdle page = (page.placing_bid ≡ false) × (page.action_loading ≡ false)

-- What a handler has to leave.
abbrev IsSettled : Wallet → Page × List Call → Type 0
IsSettled wallet (page, calls) = IsIdle page × All (IsSigned wallet) calls

module _ (contract : Contract) (hmac : List ℕ → List ℕ → List ℕ) (auction_id : ℕ) where
  unfoldable pub handle : Action → Wallet → Page → Page × List Call
  handle place_english_bid = handle_place_english_bid contract auction_id
  handle buy_now = handle_buy_now contract auction_id
  handle reveal = handle_reveal_sealed_bid contract auction_id
  handle withdraw = handle_withdraw_refund contract auction_id
  handle approve = handle_approve_nft_transfer contract auction_id
  handle close = handle_close_auction contract auction_id
  handle settle = handle_settle_auction contract auction_id
  handle (commit salt) = handle_commit_sealed_bid contract auction_id hmac salt
  handle (cancel sure) = handle_cancel_auction contract auction_id sure

  -- The flag that a handler does not use
  abbrev other_flag : Busy → Page → Bool
  other_flag placing page = page.action_loading
  other_flag acting page = page.placing_bid

  finally_-IsIdle :
      (busy : Busy) (page : Page) → other_flag busy page ≡ false → IsIdle (finally_ busy page)
  finally_-IsIdle placing page other = (refl, other)
  finally_-IsIdle acting page other = (other, refl)

  start-other_flag :
      (busy : Busy) (page : Page) → IsIdle page → other_flag busy (start busy page) ≡ false
  start-other_flag placing page idle = idle.1
  start-other_flag acting page idle = idle.0

  finally_-start :
      (busy : Busy) (page : Page) → IsIdle page → IsIdle (finally_ busy (start busy page))
  finally_-start busy page idle =
      finally_-IsIdle busy (start busy page) (start-other_flag busy page idle)

  -- What follows a success leaves the flags alone.
  abbrev KeepsFlags : (Page → Page) → Type 0
  KeepsFlags then_ =
      (busy : Busy) (page : Page) → other_flag busy (then_ page) ≡ other_flag busy page

  same-KeepsFlags : KeepsFlags same
  same-KeepsFlags busy page = refl

  clear_amount-KeepsFlags : KeepsFlags clear_amount
  clear_amount-KeepsFlags placing page = refl
  clear_amount-KeepsFlags acting page = refl

  answer-IsSettled :
      (busy : Busy) (default label : String) (then_ : Page → Page) (calls : List Call)
      (wallet : Wallet) (page : Page) (answer : Answer)
      → IsIdle page
      → KeepsFlags then_
      → All (IsSigned wallet) calls
      → let made = on_answer default label then_ calls answer (start busy page) in
        IsIdle (finally_ busy made.0) × All (IsSigned wallet) made.1
  answer-IsSettled busy default label then_ calls wallet page (fail message) idle keeps all =
      (finally_-start busy page idle, (tt, tt))
  answer-IsSettled busy default label then_ calls wallet page (pass hash) idle keeps all = (
    finally_-IsIdle busy (then_ (start busy page))
        (keeps busy (start busy page) ∙ start-other_flag busy page idle),
    (tt, all),
  )

  call-IsSettled :
      (busy : Busy) (method : String) (args : List Arg) (a default label : String)
      (then_ : Page → Page) (calls : List Call) (wallet : Wallet) (page : Page)
      → signer wallet ≡ some a
      → IsIdle page
      → KeepsFlags then_
      → All (IsSigned wallet) calls
      → IsSettled wallet
          (call contract auction_id busy method args a default label then_ calls page)
  unfolding call
  call-IsSettled busy method args a default label then_ calls wallet page signed idle keeps all =
      let (still_idle, all_signed) =
        answer-IsSettled busy default label then_ calls wallet page (contract method args a) idle
          keeps all in
      (still_idle, (signed, all_signed))

  handle_buy_now-IsSettled :
      (wallet : Wallet) (page : Page)
      → IsIdle page
      → IsSettled wallet (handle_buy_now contract auction_id wallet page)
  unfolding handle_buy_now
  handle_buy_now-IsSettled wallet page idle = elim (Option-cases (signer wallet)) [
    | inl none_there ↦ rw (none_there, handle_buy_now) (idle, (tt, (tt, tt)))
    | inr (a, signed) ↦
        rw (signed, handle_buy_now)
          (call-IsSettled placing "buy_now" _ a "Failed to purchase" "Item purchased! Tx: " _
            (fetch_auction ∷ []) wallet page signed idle same-KeepsFlags (tt, tt))
  ]

  handle_withdraw_refund-IsSettled :
      (wallet : Wallet) (page : Page)
      → IsIdle page
      → IsSettled wallet (handle_withdraw_refund contract auction_id wallet page)
  unfolding handle_withdraw_refund
  handle_withdraw_refund-IsSettled wallet page idle = elim (Option-cases (signer wallet)) [
    | inl none_there ↦ rw (none_there, handle_withdraw_refund) (idle, (tt, (tt, tt)))
    | inr (a, signed) ↦
        rw (signed, handle_withdraw_refund)
          (call-IsSettled acting "withdraw_refund" _ a "Failed to withdraw refund"
            "Refund withdrawn! Tx: " _ (fetch_auction ∷ []) wallet page signed idle same-KeepsFlags
            (tt, tt))
  ]

  seller_action-IsSettled :
      (method default label : String) (calls : List Call) (wallet : Wallet) (page : Page)
      → All (IsSigned wallet) calls
      → IsIdle page
      → IsSettled wallet (seller_action contract auction_id method default label calls wallet page)
  unfolding seller_action
  seller_action-IsSettled method default label calls wallet page all idle =
      elim (Option-cases (signer wallet)) [
        | inl none_there ↦ rw (none_there, seller_action) (idle, tt)
        | inr (a, signed) ↦
            rw (signed, seller_action)
              (call-IsSettled acting method _ a default label _ calls wallet page signed idle
                same-KeepsFlags all)
      ]

  handle_reveal_sealed_bid-IsSettled :
      (wallet : Wallet) (page : Page)
      → IsIdle page
      → IsSettled wallet (handle_reveal_sealed_bid contract auction_id wallet page)
  unfolding handle_reveal_sealed_bid
  handle_reveal_sealed_bid-IsSettled wallet page idle = elim (Option-cases (signer wallet)) [
    | inl none_there ↦ rw (none_there, handle_reveal_sealed_bid) (idle, (tt, (tt, tt)))
    | inr (a, signed) ↦ elim (Option-cases page.saved_commitment) [
      | inl nothing ↦ rw (signed, nothing, handle_reveal_sealed_bid) (idle, (tt, tt))
      | inr (saved, there) ↦ elim (Option-cases (big_int saved.amount)) [
        | inl bad ↦
            rw (signed, there, bad, handle_reveal_sealed_bid)
              (finally_-start placing page idle, (tt, tt))
        | inr (n, good) ↦
            rw (signed, there, good, handle_reveal_sealed_bid)
              (call-IsSettled placing "reveal_bid" _ a "Failed to reveal bid"
                "Sealed bid revealed! Tx: " _ (fetch_auction ∷ []) wallet page signed idle
                same-KeepsFlags (tt, tt))
      ]
    ]
  ]

  handle_place_english_bid-IsSettled :
      (wallet : Wallet) (page : Page)
      → IsIdle page
      → IsSettled wallet (handle_place_english_bid contract auction_id wallet page)
  unfolding handle_place_english_bid
  handle_place_english_bid-IsSettled wallet page idle = elim (Option-cases (signer wallet)) [
    | inl none_there ↦ rw (none_there, handle_place_english_bid) (idle, (tt, (tt, tt)))
    | inr (a, signed) ↦ elim (Bool-cases (str_eq page.bid_amount "")) [
      | inl empty_ ↦ rw (signed, empty_, handle_place_english_bid) (idle, (tt, tt))
      | inr typed ↦ elim (Option-cases (big_int page.bid_amount)) [
        | inl bad ↦
            rw (signed, typed, bad, handle_place_english_bid)
              (finally_-start placing page idle, (tt, tt))
        | inr (n, good) ↦
            rw (signed, typed, good, handle_place_english_bid)
              (call-IsSettled placing "place_bid" _ a "Failed to place bid"
                "Bid placed on-chain! Tx: " _ (fetch_auction ∷ []) wallet page signed idle
                clear_amount-KeepsFlags (tt, tt))
      ]
    ]
  ]

  handle_commit_sealed_bid-IsSettled :
      (salt : List ℕ) (wallet : Wallet) (page : Page)
      → IsIdle page
      → IsSettled wallet (handle_commit_sealed_bid contract auction_id hmac salt wallet page)
  unfolding handle_commit_sealed_bid save_commitment
  handle_commit_sealed_bid-IsSettled salt wallet page idle = elim (Option-cases (signer wallet)) [
    | inl none_there ↦ rw (none_there, handle_commit_sealed_bid) (idle, (tt, (tt, tt)))
    | inr (a, signed) ↦ elim (Bool-cases (str_eq page.bid_amount "")) [
      | inl empty_ ↦ rw (signed, empty_, handle_commit_sealed_bid) (idle, (tt, tt))
      | inr typed ↦ elim (Option-cases (big_int page.bid_amount)) [
        | inl bad ↦
            rw (signed, typed, bad, handle_commit_sealed_bid)
              (finally_-start placing page idle, (tt, tt))
        | inr (n, good) ↦
            rw (signed, typed, good, handle_commit_sealed_bid)
              (call-IsSettled placing "commit_bid" _ a "Failed to commit bid"
                "Sealed bid committed! Salt saved locally. Tx: " _ (fetch_auction ∷ []) wallet
                (save_commitment auction_id a salt page) signed idle clear_amount-KeepsFlags
                (tt, tt))
      ]
    ]
  ]

  -- Whatever the contract answers: a button of an idle page, which sets a flag before its `try`, leaves
  -- no flag set, and every call of the contract was made in the name of the connected wallet.
  pub handle-IsSettled :
      (action : Action) (wallet : Wallet) (page : Page)
      → IsIdle page
      → IsIdle (handle action wallet page).0 × All (IsSigned wallet) (handle action wallet page).1
  unfolding handle handle_approve_nft_transfer handle_close_auction handle_settle_auction
      handle_cancel_auction
  handle-IsSettled place_english_bid = handle_place_english_bid-IsSettled
  handle-IsSettled buy_now = handle_buy_now-IsSettled
  handle-IsSettled reveal = handle_reveal_sealed_bid-IsSettled
  handle-IsSettled withdraw = handle_withdraw_refund-IsSettled
  handle-IsSettled approve = λ wallet page. seller_action-IsSettled _ _ _ _ wallet page tt
  handle-IsSettled close = λ wallet page. seller_action-IsSettled _ _ _ _ wallet page (tt, tt)
  handle-IsSettled settle = λ wallet page. seller_action-IsSettled _ _ _ _ wallet page (tt, tt)
  handle-IsSettled (commit salt) = handle_commit_sealed_bid-IsSettled salt
  handle-IsSettled (cancel false) = λ wallet page idle. (idle, tt)
  handle-IsSettled (cancel true) =
      λ wallet page. seller_action-IsSettled _ _ _ _ wallet page (tt, tt)

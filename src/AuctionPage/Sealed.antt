-- ===== src/AuctionPage/Sealed.antt =====
-- frontend/src/app/auctions/[id]/page.tsx: a sealed bid from its commitment to its reveal.
use stellar_urithi_bidz.Prelude.{
  ℕ, String, false, List, [], ◌∷◌, Option, none, some, ◌≡◌, ◌≢◌, refl, ap, ◌∙◌, arith, str_eq,
  eq_iff, str_eq_refl, ◌==◌, fail, pass, head?,
}
use stellar_urithi_bidz.Routes.{big_int}
use stellar_urithi_bidz.Invoke.{Arg, u64, i128, address, bytes_n}
use stellar_urithi_bidz.Commitment.{commitment_message}
use stellar_urithi_bidz.Commitment.Hex.{AreBytes, hex_of, hex_to_bytes, hex_to_bytes-hex_of}
use stellar_urithi_bidz.AuctionPage.{
  Page, Wallet, SavedCommitment, Answer, Call, invoke, on_answer, fetch_auction, Contract, signer,
  clear_amount, storage_key, save_commitment, load_commitment, placing, start,
}
use stellar_urithi_bidz.AuctionPage.Handlers.{
  call, handle_commit_sealed_bid, handle_reveal_sealed_bid,
}

module _ (hmac : List ℕ → List ℕ → List ℕ) (auction_id : ℕ) where
  -- The call of the contract does not touch the storage of the browser.
  answer_keeps_storage :
      (default label : String) (then_ : Page → Page) (calls : List Call) (answer : Answer)
      (page : Page)
      → ((p : Page) → (then_ p).local_storage ≡ p.local_storage)
      → (on_answer default label then_ calls answer (start placing page)).0.local_storage
        ≡ page.local_storage
  answer_keeps_storage default label then_ calls (fail message) page keeps = refl
  answer_keeps_storage default label then_ calls (pass hash) page keeps = keeps (start placing page)

  call_keeps_storage :
      (contract : Contract) (method : String) (args : List Arg) (a default label : String)
      (then_ : Page → Page) (calls : List Call) (page : Page)
      → ((p : Page) → (then_ p).local_storage ≡ p.local_storage)
      → (call contract auction_id placing method args a default label then_ calls
          page).0.local_storage
        ≡ page.local_storage
  unfolding call
  call_keeps_storage contract method args a default label then_ calls page keeps =
      answer_keeps_storage default label then_ calls (contract method args a) page keeps

  -- With a wallet and an amount: whether the contract takes the commitment or refuses it, the storage
  -- of the browser then holds this amount and this salt for the auction and the address, in place of
  -- those of an earlier commitment.
  pub commit_overwrites :
      (contract : Contract) (salt : List ℕ) (wallet : Wallet) (page : Page) (a : String) (n : ℕ)
      → signer wallet ≡ some a
      → page.bid_amount ≢ ""
      → big_int page.bid_amount ≡ some n
      → (handle_commit_sealed_bid contract auction_id hmac salt wallet page).0.local_storage
          (storage_key auction_id a)
        ≡ some (record { amount = page.bid_amount; salt_hex = hex_of salt })
  unfolding handle_commit_sealed_bid save_commitment
  commit_overwrites contract salt wallet page a n signed typed number =
      let not_empty : str_eq page.bid_amount "" ≡ false =
        ground (arith, eq_iff page.bid_amount "") in
      rw
        (
          signed,
          not_empty,
          number,
          handle_commit_sealed_bid,
          call_keeps_storage contract "commit_bid"
              (u64 auction_id
                ∷ address a
                ∷ bytes_n (hmac salt (commitment_message auction_id a n))
                ∷ i128 n
                ∷ [])
              a "Failed to commit bid" "Sealed bid committed! Salt saved locally. Tx: " clear_amount
              (fetch_auction ∷ []) (save_commitment auction_id a salt page) (λ p. refl),
          str_eq_refl (storage_key auction_id a),
        )
        refl

  signer_address :
      (wallet : Wallet) {a : String}
      → signer wallet ≡ some a
      → (wallet.address ≡ some a) × (str_eq a "" ≡ false)
  unfolding signer
  signer_address wallet h = ground arith

  loads :
      (address_ : Option String) (page : Page) (a : String)
      → address_ ≡ some a
      → str_eq a "" ≡ false
      → (auction_id == 0) ≡ false
      → (load_commitment auction_id address_ page).saved_commitment
        ≡ page.local_storage (storage_key auction_id a)
  unfolding load_commitment
  loads address_ page a here not_empty numbered =
      rw (here, not_empty, numbered, load_commitment) refl

  reveals :
      (contract : Contract) (wallet : Wallet) (page : Page) (a : String) (n : ℕ)
      (saved : SavedCommitment)
      → signer wallet ≡ some a
      → page.saved_commitment ≡ some saved
      → big_int saved.amount ≡ some n
      → head? (handle_reveal_sealed_bid contract auction_id wallet page).1
        ≡ some (
            invoke "reveal_bid"
              (u64 auction_id ∷ address a ∷ i128 n ∷ bytes_n (hex_to_bytes saved.salt_hex) ∷ [])
              a)
  unfolding handle_reveal_sealed_bid call
  reveals contract wallet page a n saved signed there number =
      rw (signed, there, number, handle_reveal_sealed_bid) refl

  -- Of an auction whose number is not 0: after a commitment, answered by the contract or not, a page
  -- that is opened anew with the storage of the browser, and the same wallet, reveals the amount and
  -- the bytes of the salt that were committed.
  pub reveal_after_commit :
      (contract later : Contract) (salt : List ℕ) (wallet : Wallet) (page reopened : Page)
      (a : String) (n : ℕ)
      → signer wallet ≡ some a
      → page.bid_amount ≢ ""
      → big_int page.bid_amount ≡ some n
      → AreBytes salt
      → (auction_id == 0) ≡ false
      → reopened.local_storage
        ≡ (handle_commit_sealed_bid contract auction_id hmac salt wallet page).0.local_storage
      → head?
          (handle_reveal_sealed_bid later auction_id wallet
            (load_commitment auction_id wallet.address reopened)).1
        ≡ some (invoke "reveal_bid" (u64 auction_id ∷ address a ∷ i128 n ∷ bytes_n salt ∷ []) a)
  reveal_after_commit contract later salt wallet page reopened a n signed typed number bytes
        numbered kept =
      let (here, not_empty) = signer_address wallet signed in
      let stored =
        ap (λ storage. storage (storage_key auction_id a)) kept
        ∙ commit_overwrites contract salt wallet page a n signed typed number in
      let loaded = loads wallet.address reopened a here not_empty numbered ∙ stored in
      reveals later wallet (load_commitment auction_id wallet.address reopened) a n _ signed loaded
        number
      ∙ ap
          (λ bytes_.
            some
              (invoke "reveal_bid" (u64 auction_id ∷ address a ∷ i128 n ∷ bytes_n bytes_ ∷ []) a))
          (hex_to_bytes-hex_of salt bytes)

  -- The page of the auction whose number is 0 never reads a commitment back.
  pub zero_never_loads :
      (address_ : Option String) (page : Page)
      → auction_id ≡ 0
      → load_commitment auction_id address_ page ≡ page
  unfolding load_commitment
  zero_never_loads none page first = refl
  zero_never_loads (some a) page first = ground (arith, first)

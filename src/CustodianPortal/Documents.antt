-- ===== src/CustodianPortal/Documents.antt =====
-- custodian-portal/src/app/page.tsx: which document an attestation is about, where uploads do not
-- overlap: each `handleFileUpload` here runs to its end before anything else happens on the page.
use stellar_urithi_bidz.Prelude.{
  ℕ, String, List, [], ◌∷◌, ◌++◌, Option, none, some, ◌≡◌, refl, ap, arith, ltb, Bool-cases, inl,
  inr, Result, fail, pass, head?, Option-cases, Result-cases,
}
use stellar_urithi_bidz.Invoke.{Arg}
use stellar_urithi_bidz.CustodianPortal.{
  thrown, ok, not_ok, Page, first_page, Call, invoke, Exception, Fetched, File, DocHash,
  UploadResult, connect_wallet, fetch_pending_attestations,
}
use stellar_urithi_bidz.CustodianPortal.Attest.{
  Reply, Outside, Contract, compute_document_hash, upload_to_pinata, handle_file_upload,
  preview_read, handle_remove_file, ready, attested, arguments, handle_attest, select_file,
  hash_done, upload_done, upload_failed, max_size,
}

-- What happens on the page, each with what its handler is answered.
pub data Action : Type 0 where
  connect : Result Exception (Option String) → Action
  fetch : ℕ → Fetched → Action
  upload : Reply → File → Action
  preview : String → Action
  remove : Action
  notes : String → Action
  attest : Contract → ℕ → String → Action

abbrev In : Action → List Action → Type 0
In action history =
    (later : List Action) × (earlier : List Action) × (history ≡ later ++ action ∷ earlier)

ready-eq-some :
    (page : Page) {hash : DocHash} {a : String}
    → ready page ≡ some (hash, a)
    → (result : UploadResult) × (page.uploaded_file ≡ some result)
      × (page.doc_hash ≡ some hash)
      × (page.wallet_address ≡ some a)
unfolding ready
ready-eq-some page h = elim (Option-cases page.uploaded_file) [
  | inl e ↦ absurd (ground (arith, rw e at h))
  | inr (result, e) ↦ elim (Option-cases page.doc_hash) [
    | inl e2 ↦ absurd (ground (arith, e, e2))
    | inr (found, e2) ↦ (result, e, ground (arith, e, e2), ground (arith, e, e2))
  ]
]

first_call :
    (contract : Contract) (auction_id : ℕ) (time : String) (page : Page) {method : String}
    {args : List Arg} {a : String}
    → head? (handle_attest contract auction_id time page).1 ≡ some (invoke method args a)
    → (hash : DocHash) × (ready page ≡ some (hash, a)) × (args ≡ arguments auction_id a hash)
unfolding handle_attest
first_call contract auction_id time page h = elim (Option-cases (ready page)) [
  | inl e ↦ absurd (ground (arith, e))
  | inr ((hash, signer), e) ↦ (hash, ground (arith, e), ground (arith, e))
]

module _ (outside : Outside) (iso : ℕ → String) where
  abbrev pub act : Action → Page → Page × List Call
  act (connect answer) page = connect_wallet answer page
  act (fetch now answer) page = fetch_pending_attestations iso now answer page
  act (upload reply file) page = handle_file_upload outside reply file page
  act (preview url) page = (preview_read url page, [])
  act remove page = (handle_remove_file page, [])
  act (notes text) page = (record page { attestation_notes = text }, [])
  act (attest contract auction_id time) page = handle_attest contract auction_id time page

  -- The page after a history, the latest action first.
  abbrev pub after : List Action → Page
  after [] = first_page
  after (action ∷ history) = (act action (after history)).0

  -- A hash and a result are of one upload of the history.
  abbrev pub OfOneUpload : Option DocHash → Option UploadResult → List Action → Type 0
  OfOneUpload none result history = Unit
  OfOneUpload (some hash) none history = Unit
  OfOneUpload (some hash) (some result) history =
      (reply : Reply) × (file : File) × In (upload reply file) history
      × (compute_document_hash outside file ≡ pass hash)
      × (upload_to_pinata reply ≡ pass result)

  OfOneUpload-cons :
      (hash : Option DocHash) (result : Option UploadResult) (action : Action)
      (history : List Action)
      → OfOneUpload hash result history
      → OfOneUpload hash result (action ∷ history)
  OfOneUpload-cons none result action history h = tt
  OfOneUpload-cons (some hash) none action history h = tt
  OfOneUpload-cons (some hash) (some result) action history h =
      let (reply, file, (later, earlier, split), hashed, stored) = h in
      (reply, file, (action ∷ later, earlier, ap (λ xs. action ∷ xs) split), hashed, stored)

  without_result : (hash : Option DocHash) (history : List Action) → OfOneUpload hash none history
  without_result none history = tt
  without_result (some hash) history = tt

  abbrev Documents : Page → List Action → Type 0
  Documents page history = OfOneUpload page.doc_hash page.uploaded_file history

  keeps :
      (page page' : Page) (action : Action) (history : List Action)
      → page'.doc_hash ≡ page.doc_hash
      → page'.uploaded_file ≡ page.uploaded_file
      → Documents page history
      → Documents page' (action ∷ history)
  keeps page page' action history same_hash same_file h =
      rw (same_hash, same_file) (OfOneUpload-cons page.doc_hash page.uploaded_file action history h)

  connect_wallet-keeps :
      (answer : Result Exception (Option String)) (page : Page)
      → ((connect_wallet answer page).0.doc_hash ≡ page.doc_hash)
        × ((connect_wallet answer page).0.uploaded_file ≡ page.uploaded_file)
  unfolding connect_wallet
  connect_wallet-keeps (fail exception) page = ground arith
  connect_wallet-keeps (pass given) page = ground arith

  fetch-keeps :
      (now : ℕ) (answer : Fetched) (page : Page)
      → ((fetch_pending_attestations iso now answer page).0.doc_hash ≡ page.doc_hash)
        × ((fetch_pending_attestations iso now answer page).0.uploaded_file ≡ page.uploaded_file)
  unfolding fetch_pending_attestations
  fetch-keeps now thrown page = (refl, refl)
  fetch-keeps now not_ok page = (refl, refl)
  fetch-keeps now (ok good items) page = (refl, refl)

  handle_file_upload-OfOneUpload :
      (reply : Reply) (file : File) (page : Page) (history : List Action)
      → Documents page history
      → Documents (handle_file_upload outside reply file page).0 (upload reply file ∷ history)
  unfolding handle_file_upload upload_failed upload_done hash_done select_file
  handle_file_upload-OfOneUpload reply file page history h =
      elim (Bool-cases (ltb max_size file.size)) [
        | inl large ↦
            rw large
              (OfOneUpload-cons page.doc_hash page.uploaded_file (upload reply file) history h)
        | inr small ↦ elim (Result-cases (compute_document_hash outside file)) [
          | inl (exception, hashed) ↦ rw (small, hashed) tt
          | inr (hash, hashed) ↦ elim (Result-cases (upload_to_pinata reply)) [
            | inl (exception, stored) ↦ rw (small, hashed, stored) tt
            | inr (result, stored) ↦
                rw (small, hashed, stored) (reply, file, ([], history, refl), hashed, stored)
          ]
        ]
      ]

  attested-OfOneUpload :
      (action : Action) (auction_id : ℕ) (hash : DocHash) (time : String)
      (answer : Result Exception String) (page : Page) (history : List Action)
      → Documents page history
      → Documents (attested auction_id hash time answer page).0 (action ∷ history)
  unfolding attested handle_remove_file
  attested-OfOneUpload action auction_id hash time (fail exception) page history h =
      OfOneUpload-cons page.doc_hash page.uploaded_file action history h
  attested-OfOneUpload action auction_id hash time (pass tx_hash) page history h = tt

  handle_attest-OfOneUpload :
      (contract : Contract) (auction_id : ℕ) (time : String) (page : Page) (history : List Action)
      → Documents page history
      → Documents
          (handle_attest contract auction_id time page).0
          (attest contract auction_id time ∷ history)
  unfolding handle_attest
  handle_attest-OfOneUpload contract auction_id time page history h =
      let action = attest contract auction_id time in
      elim (Option-cases (ready page)) [
        | inl none_ready ↦
            rw (handle_attest, none_ready)
              (OfOneUpload-cons page.doc_hash page.uploaded_file action history h)
        | inr ((hash, a), found) ↦
            rw (handle_attest, found)
              (attested-OfOneUpload action auction_id hash time
                (contract "attest_physical_item" (arguments auction_id a hash) a)
                (record page { attesting_id = some auction_id }) history h)
      ]

  -- Whatever the history: the hash and the result on the page are of one upload.
  after-OfOneUpload : (history : List Action) → Documents (after history) history
  unfolding preview_read handle_remove_file
  after-OfOneUpload [] = tt
  after-OfOneUpload (connect answer ∷ history) =
      let (h, f) = connect_wallet-keeps answer (after history) in
      keeps (after history) (after (connect answer ∷ history)) (connect answer) history h f
        (after-OfOneUpload history)
  after-OfOneUpload (fetch now answer ∷ history) =
      let (h, f) = fetch-keeps now answer (after history) in
      keeps (after history) (after (fetch now answer ∷ history)) (fetch now answer) history h f
        (after-OfOneUpload history)
  after-OfOneUpload (upload reply file ∷ history) =
      handle_file_upload-OfOneUpload reply file (after history) history (after-OfOneUpload history)
  after-OfOneUpload (preview url ∷ history) =
      keeps (after history) (after (preview url ∷ history)) (preview url) history refl refl
        (after-OfOneUpload history)
  after-OfOneUpload (remove ∷ history) = tt
  after-OfOneUpload (notes text ∷ history) =
      keeps (after history) (after (notes text ∷ history)) (notes text) history refl refl
        (after-OfOneUpload history)
  after-OfOneUpload (attest contract auction_id time ∷ history) =
      handle_attest-OfOneUpload contract auction_id time (after history) history
        (after-OfOneUpload history)

  -- If no two uploads overlapped: where the page calls the contract for an attestation, the hash that it
  -- sends as the wallet's address is that of a file, which one upload of the history stored with the
  -- result on the page.
  pub attests_uploaded :
      (history : List Action) (contract : Contract) (auction_id : ℕ) (time method : String)
      (args : List Arg) (a : String)
      → head? (handle_attest contract auction_id time (after history)).1
        ≡ some (invoke method args a)
      → (hash : DocHash) × (result : UploadResult) × ((after history).wallet_address ≡ some a)
        × ((after history).uploaded_file ≡ some result)
        × (args ≡ arguments auction_id a hash)
        × OfOneUpload (some hash) (some result) history
  attests_uploaded history contract auction_id time method args a h =
      let (hash, found, same) = first_call contract auction_id time (after history) h in
      let (result, stored, hashed, signed) = ready-eq-some (after history) found in
      (hash, result, signed, stored, same, rw (hashed, stored) at (after-OfOneUpload history))

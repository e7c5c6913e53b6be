-- ===== src/CustodianPortal/Overlap.antt =====
-- custodian-portal/src/app/page.tsx: uploads that overlap. `handleFileUpload` waits twice, for the hash
-- and for the upload route, and other uploads go on meanwhile, so that an upload is three steps here.
use stellar_urithi_bidz.Prelude.{
  ℕ, ◌≤◌, String, false, List, [], ◌∷◌, some, ◌≡◌, refl, sym, ap, ◌∙◌, arith, ltb, fail, pass,
  head?, if◌then◌else◌,
}
use stellar_urithi_bidz.Auth.{truthy}
use stellar_urithi_bidz.CustodianPortal.{
  Page, Call, error, invoke, Exception, File, DocHash, UploadResult,
}
use stellar_urithi_bidz.CustodianPortal.Attest.{
  Reply, thrown, stored, Outside, Contract, compute_document_hash, upload_to_pinata, max_size,
  select_file, hash_done, upload_done, upload_failed, handle_file_upload, ready, arguments,
  handle_attest,
}

-- A file is chosen; its hash is there, or failed; the upload route answers, where a hash was there.
pub data Step : Type 0 where
  chosen hashed : File → Step
  replied : Reply → File → Step

unfoldable pub step : Outside → Step → Page → Page × List Call
unfolding select_file hash_done upload_done upload_failed
step outside (chosen file) page =
    if ltb max_size file.size
    then (page, error "File too large (max 10MB)" ∷ [])
    else (select_file file page, [])
step outside (hashed file) page = elim (compute_document_hash outside file) [
  | fail exception ↦ upload_failed exception page
  | pass hash ↦ (hash_done hash page, [])
]
step outside (replied reply file) page = elim (compute_document_hash outside file) [
  | fail exception ↦ (page, [])
  | pass hash ↦ elim (upload_to_pinata reply) [
    | fail exception ↦ upload_failed exception page
    | pass result ↦ upload_done hash result page
  ]
]

unfoldable pub run : Outside → List Step → Page → Page
unfolding step
run outside [] page = page
run outside (s ∷ steps) page = run outside steps (step outside s page).0

module _ (outside : Outside) (file : File) (page : Page) where
  chosen_lem : file.size ≤ max_size → step outside (chosen file) page ≡ (select_file file page, [])
  unfolding step
  chosen_lem small = ground arith

  hashed_lem :
      {hash : DocHash}
      → compute_document_hash outside file ≡ pass hash
      → step outside (hashed file) page ≡ (hash_done hash page, [])
  unfolding step
  hashed_lem e = rw (e, step) refl

  stored_lem :
      {hash : DocHash} (result : UploadResult)
      → compute_document_hash outside file ≡ pass hash
      → step outside (replied (stored result) file) page ≡ upload_done hash result page
  unfolding step upload_to_pinata
  stored_lem result e = rw (e, step) refl

  thrown_lem :
      {hash : DocHash} (exception : Exception)
      → compute_document_hash outside file ≡ pass hash
      → step outside (replied (thrown exception) file) page ≡ upload_failed exception page
  unfolding step upload_to_pinata
  thrown_lem exception e = rw (e, step) refl

run-cons :
    (outside : Outside) (s : Step) (steps : List Step) (page : Page) {later : Page × List Call}
    → step outside s page ≡ later
    → run outside (s ∷ steps) page ≡ run outside steps later.0
unfolding run
run-cons outside s steps page e = ap (λ (l : Page × List Call). run outside steps l.0) e

-- The steps of one upload that is stored, with none in between, leave the page as the whole handler
-- does.
handle_file_upload-run :
    (outside : Outside) (result : UploadResult) (file : File) (hash : DocHash) (page : Page)
    → file.size ≤ max_size
    → compute_document_hash outside file ≡ pass hash
    → (handle_file_upload outside (stored result) file page).0
      ≡ run outside (chosen file ∷ hashed file ∷ replied (stored result) file ∷ []) page
unfolding run handle_file_upload upload_to_pinata
handle_file_upload-run outside result file hash page small e =
    let fits : ltb max_size file.size ≡ false = ground arith in
    rw
      (
        fits,
        e,
        run-cons outside (chosen file) (hashed file ∷ replied (stored result) file ∷ []) page
            (chosen_lem outside file page small),
      )
      (sym (
        run-cons outside (hashed file) (replied (stored result) file ∷ []) (select_file file page)
          (hashed_lem outside file (select_file file page) e)
        ∙ run-cons outside (replied (stored result) file) []
            (hash_done hash (select_file file page))
            (stored_lem outside file (hash_done hash (select_file file page)) result e)))

-- Two uploads that overlap, of files that are not too large and whose hashes can be computed: file `b`
-- is chosen while `a` is being read, `b` is stored, and then the hash of `a` is there, but its upload
-- fails. With a wallet connected, the page then shows the stored `b`, and an attestation sends the
-- hash of `a`.
pub overlap_attests_other :
    (outside : Outside) (a b : File) (hash_a hash_b : DocHash) (result_b : UploadResult)
    (exception : Exception) (contract : Contract) (auction_id : ℕ) (time wallet : String)
    (page : Page)
    → a.size ≤ max_size
    → b.size ≤ max_size
    → compute_document_hash outside a ≡ pass hash_a
    → compute_document_hash outside b ≡ pass hash_b
    → truthy page.wallet_address ≡ some wallet
    → let left =
        run outside
          (chosen a
            ∷ chosen b
            ∷ hashed b
            ∷ replied (stored result_b) b
            ∷ hashed a
            ∷ replied (thrown exception) a
            ∷ [])
          page in
      (left.uploaded_file ≡ some result_b)
      × (left.file_name ≡ some b.name)
      × (head? (handle_attest contract auction_id time left).1
          ≡ some (invoke "attest_physical_item" (arguments auction_id wallet hash_a) wallet))
unfolding run handle_attest ready upload_failed upload_done hash_done select_file
overlap_attests_other outside a b hash_a hash_b result_b exception contract auction_id time wallet
      page small_a small_b first second connected =
    let page_b = select_file b (select_file a page) in
    let stored_b = (upload_done hash_b result_b (hash_done hash_b page_b)).0 in
    let fails = replied (thrown exception) a ∷ [] in
    let stores = replied (stored result_b) b ∷ hashed a ∷ fails in
    let left_is : run outside
          (chosen a
            ∷ chosen b
            ∷ hashed b
            ∷ replied (stored result_b) b
            ∷ hashed a
            ∷ replied (thrown exception) a
            ∷ [])
          page
        ≡ (upload_failed exception (hash_done hash_a stored_b)).0 =
      run-cons outside (chosen a) (chosen b ∷ hashed b ∷ stores) page
        (chosen_lem outside a page small_a)
      ∙ run-cons outside (chosen b) (hashed b ∷ stores) (select_file a page)
          (chosen_lem outside b (select_file a page) small_b)
      ∙ run-cons outside (hashed b) stores page_b (hashed_lem outside b page_b second)
      ∙ run-cons outside (replied (stored result_b) b) (hashed a ∷ fails) (hash_done hash_b page_b)
          (stored_lem outside b (hash_done hash_b page_b) result_b second)
      ∙ run-cons outside (hashed a) fails stored_b (hashed_lem outside a stored_b first)
      ∙ run-cons outside (replied (thrown exception) a) [] (hash_done hash_a stored_b)
          (thrown_lem outside a (hash_done hash_a stored_b) exception first) in
    (rw left_is refl, rw left_is refl, rw left_is (ground (arith, connected)))

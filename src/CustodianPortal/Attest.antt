-- ===== src/CustodianPortal/Attest.antt =====
-- custodian-portal/src/app/page.tsx: the upload of a document, and its attestation, with
-- `computeDocumentHash` of custodian-portal/src/lib/stellar.ts.
use stellar_urithi_bidz.Prelude.{
  ℕ, ◌*◌, String, true, false, not, List, [], ◌∷◌, Option, none, some, str_append, ltb, filter,
  ◌==◌, if◌then◌else◌, Result, fail, pass,
}
use stellar_urithi_bidz.Text.{strip_prefix}
use stellar_urithi_bidz.Values.{decimal}
use stellar_urithi_bidz.Invoke.{Arg, u64, address, bytes_n, Outside as Network, invoke_contract}
use stellar_urithi_bidz.Commitment.Hex.{hex_of}
use stellar_urithi_bidz.Auth.{truthy}
use stellar_urithi_bidz.CustodianPortal.{
  Call, DocHash, Exception, File, Page, PendingAttestation, UploadResult, error, invoke, message_or,
  success, text_or,
}

-- The bytes of a file, and SHA-256
pub record Outside : Type 0 where
  pub array_buffer : File → Result Exception (List ℕ)
  pub digest : List ℕ → List ℕ

unfoldable pub compute_document_hash : Outside → File → Result Exception DocHash
unfolding hex_of
compute_document_hash outside file = elim (outside.array_buffer file) [
  | fail exception ↦ fail exception
  | pass content ↦
      let bytes_ = outside.digest content in pass (record { bytes = bytes_; hex = hex_of bytes_ })
]

-- The upload route's answer: an exception, a status that is not ok, with the `error` of
-- its body where there is one, or a result.
pub data Reply : Type 0 where
  thrown : Exception → Reply
  refused : Option String → Reply
  stored : UploadResult → Reply

unfoldable pub upload_to_pinata : Reply → Result Exception UploadResult
upload_to_pinata (thrown exception) = fail exception
upload_to_pinata (refused reason) = fail (some (text_or "Upload failed" reason))
upload_to_pinata (stored result) = pass result

abbrev pub max_size : ℕ
max_size = 10 * 1024 * 1024

-- `handleFileUpload` up to its first `await`, for a file that is not too large
unfoldable pub select_file : File → Page → Page
unfolding strip_prefix
select_file file page = record page {
  file_name = some file.name;
  uploading = true;
  uploaded_file = none;
  doc_hash = none;
  upload_preview = elim (strip_prefix "image/" file.mime_type) [
    | none ↦ none
    | some t ↦ page.upload_preview
  ];
}

-- `reader.onload`
unfoldable pub preview_read : String → Page → Page
preview_read url page = record page { upload_preview = some url }

-- Its part between the hash and the upload
unfoldable pub hash_done : DocHash → Page → Page
hash_done hash page = record page { doc_hash = some hash }

-- Its part after the upload
unfoldable pub upload_done : DocHash → UploadResult → Page → Page × List Call
upload_done hash result page = (
  record page { uploaded_file = some result; uploading = false },
  success "Verified: SHA-256 " hash.hex ∷ [],
)

-- Its `catch` and `finally`
unfoldable pub upload_failed : Exception → Page → Page × List Call
upload_failed exception page =
    (record page { uploading = false }, error (message_or "Upload/hashing failed" exception) ∷ [])

-- `handleFileUpload` where nothing else happens on the page while it waits
unfoldable pub handle_file_upload : Outside → Reply → File → Page → Page × List Call
handle_file_upload outside reply file page =
    if ltb max_size file.size
    then (page, error "File too large (max 10MB)" ∷ [])
    else elim (compute_document_hash outside file) [
      | fail exception ↦ upload_failed exception (select_file file page)
      | pass hash ↦ elim (upload_to_pinata reply) [
        | fail exception ↦ upload_failed exception (hash_done hash (select_file file page))
        | pass result ↦ upload_done hash result (hash_done hash (select_file file page))
      ]
    ]

unfoldable pub handle_remove_file : Page → Page
handle_remove_file page = record page {
  uploaded_file = none;
  doc_hash = none;
  upload_preview = none;
  file_name = none;
}

abbrev pub without : ℕ → List PendingAttestation → List PendingAttestation
without auction_id = filter (λ p. not (p.auction_id == auction_id))

-- The `try` of `handleAttest` after the answer of the contract, for the hash that it was called with
unfoldable pub attested : ℕ → DocHash → String → Result Exception String → Page → Page × List Call
unfolding handle_remove_file
attested auction_id hash time (fail exception) page =
    (record page { attesting_id = none }, error (message_or "Attestation failed" exception) ∷ [])
attested auction_id hash time (pass tx_hash) page = (
  record (handle_remove_file page) {
    attesting_id = none;
    completed_attestations =
        record {
          auction_id = auction_id;
          doc_hash_hex = hash.hex;
          tx_hash = tx_hash;
          timestamp = time;
        }
        ∷ page.completed_attestations;
    pending_attestations = without auction_id page.pending_attestations;
    attestation_notes = "";
  },
  success (str_append "Auction #" (str_append (decimal auction_id) " attested on-chain! Tx: "))
        tx_hash
      ∷ [],
)

abbrev pub Contract : Type 0
Contract = String → List Arg → String → Result Exception String

-- `invokeContract` of custodian-portal/src/lib/stellar.ts, the same code as the application's
unfoldable pub portal_contract : (String → List Arg → String → Network) → Contract
portal_contract network method args a = elim (invoke_contract (network method args a)) [
  | fail message ↦ fail (some message)
  | pass found ↦ let (tx_hash, outcome) = found in pass tx_hash
]

-- What `handleAttest` attests with, and as whom: the file has to be there, too.
unfoldable pub ready : Page → Option (DocHash × String)
ready page = elim page.uploaded_file [
  | none ↦ none
  | some result ↦ elim page.doc_hash [
    | none ↦ none
    | some hash ↦ elim (truthy page.wallet_address) [ none ↦ none | some a ↦ some (hash, a) ]
  ]
]

abbrev pub arguments : ℕ → String → DocHash → List Arg
arguments auction_id a hash = u64 auction_id ∷ address a ∷ bytes_n hash.bytes ∷ []

unfoldable pub handle_attest : Contract → ℕ → String → Page → Page × List Call
unfolding ready attested
handle_attest contract auction_id time page = elim (ready page) [
  | none ↦ (page, error "Upload and hash an inspection document first" ∷ [])
  | some found ↦
      let (hash, a) = found in
      let args = arguments auction_id a hash in
      let (page', calls) =
        attested auction_id hash time (contract "attest_physical_item" args a)
          (record page { attesting_id = some auction_id }) in
      (page', invoke "attest_physical_item" args a ∷ calls)
]

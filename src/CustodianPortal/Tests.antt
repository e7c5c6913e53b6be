-- ===== src/CustodianPortal/Tests.antt =====
-- custodian-portal/src/app/page.tsx on concrete files.
use stellar_urithi_bidz.Prelude.{
  ℕ, String, List, [], ◌∷◌, some, none, ◌≡◌, refl, arith, pass, head?,
}
use stellar_urithi_bidz.Commitment.Hex.{hex_of}
use stellar_urithi_bidz.Text.{strip_prefix}
use stellar_urithi_bidz.CustodianPortal.{
  Page, first_page, File, UploadResult, DocHash, invoke, connect_wallet,
}
use stellar_urithi_bidz.CustodianPortal.Attest.{
  Outside, Contract, stored, refused, thrown, arguments, handle_file_upload, compute_document_hash,
  upload_to_pinata, select_file, hash_done, upload_done, upload_failed, handle_attest, ready,
}
use stellar_urithi_bidz.CustodianPortal.Documents.{
  Action, upload, connect, after, OfOneUpload, attests_uploaded,
}
use stellar_urithi_bidz.CustodianPortal.Overlap.{
  chosen, hashed, replied, run, overlap_attests_other,
}

abbrev report : File
report = record { name = "report.pdf"; size = 3; mime_type = "application/pdf" }

abbrev photo : File
photo = record { name = "photo.png"; size = 5; mime_type = "image/png" }

abbrev outside : Outside
outside = record { array_buffer = λ file. pass (file.size ∷ []); digest = λ content. 255 ∷ content }

abbrev iso : ℕ → String
iso now = "1970-01-01T00:00:00.000Z"

abbrev on_ipfs : UploadResult
on_ipfs = record {
  cid = "bafy";
  ipfs_uri = "ipfs://bafy";
  gateway_url = "https://ipfs.io/ipfs/bafy";
}

abbrev takes : Contract
takes method args a = pass "hash"

abbrev history : List Action
history =
    upload (stored on_ipfs) report ∷ upload (refused none) photo ∷ connect (pass (some "GC")) ∷ []

abbrev hash : DocHash
hash = record { bytes = 255 ∷ 3 ∷ []; hex = "ff03" }

called :
    head? (handle_attest takes 7 "12:00" (after outside iso history)).1
    ≡ some (invoke "attest_physical_item" (arguments 7 "GC" hash) "GC")
unfolding handle_attest ready connect_wallet handle_file_upload compute_document_hash
    upload_to_pinata select_file hash_done upload_done upload_failed strip_prefix hex_of
called = refl

attests_uploaded_run :
    (found : DocHash) × (result : UploadResult) × ((after outside iso history).wallet_address
      ≡ some "GC")
    × ((after outside iso history).uploaded_file ≡ some result)
    × (arguments 7 "GC" hash ≡ arguments 7 "GC" found)
    × OfOneUpload outside iso (some found) (some result) history
attests_uploaded_run =
    attests_uploaded outside iso history takes 7 "12:00" "attest_physical_item"
      (arguments 7 "GC" hash) "GC" called

abbrev other_hash : DocHash
other_hash = record { bytes = 255 ∷ 5 ∷ []; hex = "ff05" }

abbrev connected : Page
connected = record first_page { wallet_address = some "GC" }

hashes :
    (compute_document_hash outside photo ≡ pass other_hash)
    × (compute_document_hash outside report ≡ pass hash)
unfolding compute_document_hash hex_of
hashes = (refl, refl)

overlap_attests_other_example :
    let left =
      run outside
        (chosen photo
          ∷ chosen report
          ∷ hashed report
          ∷ replied (stored on_ipfs) report
          ∷ hashed photo
          ∷ replied (thrown (some "Failed to fetch")) photo
          ∷ [])
        connected in
    (left.uploaded_file ≡ some on_ipfs)
    × (left.file_name ≡ some "report.pdf")
    × (head? (handle_attest takes 7 "12:00" left).1
        ≡ some (invoke "attest_physical_item" (arguments 7 "GC" other_hash) "GC"))
overlap_attests_other_example =
    overlap_attests_other outside photo report other_hash hash on_ipfs (some "Failed to fetch")
      takes 7 "12:00" "GC" connected (omega arith) (omega arith) hashes.0 hashes.1 refl

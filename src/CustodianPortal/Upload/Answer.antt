-- ===== src/CustodianPortal/Upload/Answer.antt =====
-- custodian-portal/src/app/api/ipfs/upload/route.ts against frontend/src/app/api/ipfs/upload/route.ts:
-- where the two routes answer alike.
use stellar_urithi_bidz.Prelude.{
  ℕ, Bool, false, Option, none, some, str_eq, Result, fail, pass, ◌>>=◌,
}
use stellar_urithi_bidz.Upload.{
  File, FormField, missing, plain, upload, PinataAnswer, UploadError, Uploaded, Environment, cid_of,
  uploaded,
}
use stellar_urithi_bidz.CustodianPortal.Upload.{DocumentError, document_cid}

-- What is stored, or the status of the error
abbrev pub with_status {ℓ} : {E : Type ℓ} → (E → ℕ) → Result E Uploaded → Result ℕ Uploaded
with_status status (fail error) = fail (status error)
with_status status (pass result) = pass result

abbrev is_svg : File → Bool
is_svg file = str_eq "image/svg+xml" file.mime_type

abbrev pub svg_sent : Option FormField → Bool
svg_sent (some (upload file)) = is_svg file
svg_sent (some missing) = false
svg_sent (some (plain s)) = false
svg_sent none = false

module _ (env : Environment) (pinata : File → PinataAnswer) where
  abbrev stored_document : File → Result DocumentError Uploaded
  stored_document file = document_cid (pinata file) >>= (λ cid. pass (uploaded env file cid))

  abbrev stored_file : File → Result UploadError Uploaded
  stored_file file = cid_of (pinata file) >>= (λ cid. pass (uploaded env file cid))

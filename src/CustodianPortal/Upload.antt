-- ===== src/CustodianPortal/Upload.antt =====
-- custodian-portal/src/app/api/ipfs/upload/route.ts: the route that passes a document on to Pinata. The
-- environment, the form and Pinata's answer are those of the application's route (Upload); the
-- checks, the errors with their texts and the answers are this route's own.
pub mod Answer
mod Tests
use stellar_urithi_bidz.Prelude.{
  ℕ, ◌*◌, String, List, [], ◌∷◌, Option, none, some, leb, str_append, Result, fail, pass, ◌>>=◌,
  require,
}
use stellar_urithi_bidz.Upload.{
  File, FormField, missing, plain, upload, PinataAnswer, unreadable, not_ok, answered, Uploaded,
  Environment, Request, includes, non_empty, uploaded,
}

pub data DocumentError : Type 0 where
  no_jwt invalid_form no_file : DocumentError
  type_not_allowed : String → DocumentError
  too_large : DocumentError
  pinata_failed : String → DocumentError
  no_cid internal : DocumentError

-- The body's `error`
unfoldable pub text_of : DocumentError → String
text_of no_jwt = "Pinata JWT not configured on server"
text_of invalid_form = "Invalid form data"
text_of no_file = "No file provided"
text_of (type_not_allowed mime_type) =
    str_append "File type '" (str_append mime_type "' not allowed")
text_of too_large = "File too large (max 10MB)"
text_of (pinata_failed status_text) = str_append "Pinata upload failed: " status_text
text_of no_cid = "No CID returned from Pinata"
text_of internal = "Internal server error during upload"

unfoldable pub document_status : DocumentError → ℕ
document_status no_jwt = 500
document_status invalid_form = 400
document_status no_file = 400
document_status (type_not_allowed _) = 400
document_status too_large = 413
document_status (pinata_failed _) = 502
document_status no_cid = 502
document_status internal = 500

abbrev pub document_types : List String
document_types =
    "image/jpeg" ∷ "image/png" ∷ "image/gif" ∷ "image/webp" ∷ "application/json" ∷ "application/pdf"
    ∷ []

abbrev pub max_document_size : ℕ
max_document_size = 10 * 1024 * 1024

abbrev pub document_form : Option FormField → Result DocumentError FormField
document_form none = fail invalid_form
document_form (some field) = pass field

-- A text has no `type`.
unfoldable pub document_of : FormField → Result DocumentError File
document_of missing = fail no_file
document_of (plain s) = require (non_empty s) no_file (fail (type_not_allowed "undefined"))
document_of (upload file) = pass file

unfoldable pub check_document : File → Result DocumentError File
check_document file =
    require (includes document_types file.mime_type) (type_not_allowed file.mime_type)
      (require (leb file.size max_document_size) too_large (pass file))

unfoldable pub document_cid : PinataAnswer → Result DocumentError String
document_cid unreadable = fail internal
document_cid (not_ok status_text) = fail (pinata_failed status_text)
document_cid (answered none) = fail no_cid
document_cid (answered (some cid)) = require (non_empty cid) no_cid (pass cid)

-- `POST`
unfoldable pub post_document :
    Environment → (File → PinataAnswer) → Request → Result DocumentError Uploaded
unfolding document_of check_document document_cid uploaded
post_document env pinata request =
    require (non_empty env.pinata_jwt) no_jwt (document_form request.form)
    >>= document_of
    >>= check_document
    >>= (λ file. document_cid (pinata file) >>= (λ cid. pass (uploaded env file cid)))

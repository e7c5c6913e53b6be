-- ===== src/CustodianPortal/Upload/Tests.antt =====
-- custodian-portal/src/app/api/ipfs/upload/route.ts: concrete documents.
use stellar_urithi_bidz.Prelude.{some, none, ◌≡◌, refl, fail}
use stellar_urithi_bidz.Upload.{Environment, File, PinataAnswer, answered, upload, Request}
use stellar_urithi_bidz.CustodianPortal.Upload.{
  post_document, check_document, document_of, text_of, type_not_allowed,
}

abbrev env : Environment
env = record { pinata_jwt = "token"; gateway = "" }

abbrev pinata : File → PinataAnswer
pinata file = answered (some "bafy")

abbrev report : Request
report = record {
  forwarded_for = some "1.2.3.4";
  form = some (upload (record { name = "a.pdf"; size = 2048; mime_type = "application/pdf" }));
}

abbrev drawing : Request
drawing = record {
  forwarded_for = none;
  form = some (upload (record { name = "a.svg"; size = 5; mime_type = "image/svg+xml" }));
}

svg_refused : post_document env pinata drawing ≡ fail (type_not_allowed "image/svg+xml")
unfolding post_document check_document document_of
svg_refused = refl

svg_text : text_of (type_not_allowed "image/svg+xml") ≡ "File type 'image/svg+xml' not allowed"
unfolding text_of
svg_text = refl

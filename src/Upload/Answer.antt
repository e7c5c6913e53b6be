-- ===== src/Upload/Answer.antt =====
-- frontend/src/app/api/ipfs/upload/route.ts: which uploads the route answers with a CID.
use stellar_urithi_bidz.Prelude.{
  ℕ, String, true, Option, none, some, ◌≡◌, ◌↔◌, refl, arith, leb, pass, require, require-eq-pass,
  bind-eq-pass,
}
use stellar_urithi_bidz.Upload.{
  Hits, File, FormField, missing, plain, upload, PinataAnswer, unreadable, not_ok, answered,
  Uploaded, Environment, Request, non_empty, includes, allowed_types, max_size, form_of, no_jwt,
  type_not_allowed, too_large, rate_limited, file_of, check_file, cid_of, uploaded, forward,
  admit_ip, ip_of, post_upload,
}

-- An upload that Pinata stores, and the answer that names its CID.
pub record Stored (env : Environment) (pinata : File → PinataAnswer) (request : Request)
    (result : Uploaded) : Type 0 where
  pub configured : non_empty env.pinata_jwt ≡ true
  pub file : File
  pub sent : request.form ≡ some (upload file)
  pub allowed : includes allowed_types file.mime_type ≡ true
  pub small : leb file.size max_size ≡ true
  pub cid : String
  pub stored : pinata file ≡ answered (some cid)
  pub named : non_empty cid ≡ true
  pub says : result ≡ uploaded env file cid

file_of-upload : (field : FormField) {file : File} → file_of field ≡ pass file → field ≡ upload file
unfolding file_of
file_of-upload missing h = cc
file_of-upload (plain s) h = cc
file_of-upload (upload file) h = ground arith

form_of-some :
    (form : Option FormField) {field : FormField} → form_of form ≡ pass field → form ≡ some field
form_of-some none h = cc
form_of-some (some field) h = ground arith

cid_of-answered :
    (answer : PinataAnswer) {cid : String}
    → cid_of answer ≡ pass cid
    → (answer ≡ answered (some cid)) × (non_empty cid ≡ true)
unfolding cid_of
cid_of-answered unreadable h = cc
cid_of-answered (not_ok status_text) h = cc
cid_of-answered (answered none) h = cc
cid_of-answered (answered (some cid)) h = ground arith

check_file-passed :
    (file : File) {checked : File}
    → check_file file ≡ pass checked
    → (includes allowed_types file.mime_type ≡ true)
      × (leb file.size max_size ≡ true)
      × (checked ≡ file)
unfolding check_file
check_file-passed file {checked} h =
    let (allowed, h1) =
      require-eq-pass (includes allowed_types file.mime_type) (type_not_allowed file.mime_type)
        (require (leb file.size max_size) (too_large file.size) (pass file)) h in
    let (small, h2) =
      require-eq-pass (leb file.size max_size) (too_large file.size) (pass file) h1 in
    (allowed, small, ground (arith, h2))

module _ (env : Environment) (pinata : File → PinataAnswer) where
  forward-Stored :
      (request : Request) (result : Uploaded)
      → forward env pinata request ≡ pass result
      → Stored env pinata request result
  unfolding forward
  forward-Stored request result h =
      let (file, h1, h2) = bind-eq-pass _ _ h in
      let (cid, h3, h4) = bind-eq-pass (cid_of (pinata file)) _ h2 in
      let (sent, h5, h6) = bind-eq-pass _ check_file h1 in
      let (field, h7, h8) = bind-eq-pass _ file_of h5 in
      let (configured, h9) =
        require-eq-pass (non_empty env.pinata_jwt) no_jwt (form_of request.form) h7 in
      let (allowed, small, same) = check_file-passed sent h6 in
      let (stored, named) = cid_of-answered (pinata file) h3 in
      record {
        configured = configured;
        file = file;
        sent = ground (arith, form_of-some request.form h9, file_of-upload field h8);
        allowed = rw same allowed;
        small = rw same small;
        cid = cid;
        stored = stored;
        named = named;
        says = ground arith;
      }

  Stored-forward :
      (request : Request) (result : Uploaded)
      → Stored env pinata request result
      → forward env pinata request ≡ pass result
  unfolding forward file_of check_file cid_of
  Stored-forward request result s =
      rw (s.configured, s.sent, s.allowed, s.small, s.stored, s.named, s.says) refl

  -- The route answers with a result exactly if the limiter lets the request through, the server has
  -- a token, the form parses and its field `file` is a file of one of the seven types and of at most
  -- 10 MB, and Pinata answers with a CID that is not empty; the result is that file's.
  pub post_upload_iff :
      (now : ℕ) (request : Request) (hits : Hits) (result : Uploaded)
      → ((post_upload env pinata now request hits).1 ≡ pass result) ↔ (
          ((admit_ip (ip_of request.forwarded_for) now hits).1 ≡ true)
          × Stored env pinata request result)
  unfolding post_upload
  post_upload_iff now request hits result = (
    (λ h.
        let (admitted, passed) =
          require-eq-pass ((admit_ip (ip_of request.forwarded_for) now hits).1) rate_limited
            (forward env pinata request) h in
        (admitted, forward-Stored request result passed)),
    (λ (admitted, stored). rw (admitted, Stored-forward request result stored) refl),
  )

-- ===== src/Upload.antt =====
-- frontend/src/app/api/ipfs/upload/route.ts: the route that passes an upload on to Pinata. The form
-- that the request carries, the environment and Pinata's answer are arguments; the clock is one of
-- each call. Log lines are left out, and so is the text that an error's details are put into.
pub mod Limiter
pub mod Answer
pub mod Window
pub mod Minute
mod Tests
use stellar_urithi_bidz.Prelude.{
  ℕ, suc, ◌+◌, ◌*◌, String, Bool, true, false, not, ◌||◌, List, [], ◌∷◌, Option, none, some, length,
  filter, ltb, leb, str_eq, str_append, if◌then◌else◌, Result, fail, pass, ◌>>=◌, require,
}
use stellar_urithi_bidz.Text.{before, trim}

-- A value of `ipHits`
pub record Hit : Type 0 where
  pub count : ℕ
  pub reset : ℕ

-- `ipHits` in the order of insertion
abbrev pub Hits : Type 0
Hits = List (String × Hit)

abbrev pub rate_limit_window_ms : ℕ
rate_limit_window_ms = 60 * 1000

abbrev pub rate_limit_max : ℕ
rate_limit_max = 30

-- `Map.prototype.get`
unfoldable pub get_hit : String → Hits → Option Hit
get_hit ip [] = none
get_hit ip ((key, hit) ∷ hits) =
    let rest = get_hit ip hits in if str_eq key ip then some hit else rest

-- `Map.prototype.set`: a key that is there keeps its place.
unfoldable pub set_hit : String → Hit → Hits → Hits
set_hit ip hit [] = (ip, hit) ∷ []
set_hit ip hit ((key, old) ∷ hits) =
    let rest = set_hit ip hit hits in if str_eq key ip then (key, hit) ∷ hits else (key, old) ∷ rest

-- The entry after the request is counted; `none` where it is refused.
unfoldable pub count_hit : ℕ → Option Hit → Option Hit
count_hit now none = some (record { count = 1; reset = now + rate_limit_window_ms })
count_hit now (some hit) =
    if ltb now hit.reset
    then if leb rate_limit_max hit.count then none else some (record hit { count = suc hit.count })
    else some (record { count = 1; reset = now + rate_limit_window_ms })

abbrev pub not_over : ℕ → String × Hit → Bool
not_over now (key, hit) = not (ltb hit.reset now)

-- The clean-up of a map of more than 1000 entries
unfoldable pub clean : ℕ → Hits → Hits
clean now hits = if ltb 1000 (length hits) then filter (not_over now) hits else hits

-- The part of `POST` that limits: a refused request returns before the clean-up.
unfoldable pub admit_ip : String → ℕ → Hits → Hits × Bool
admit_ip ip now hits = elim (count_hit now (get_hit ip hits)) [
  | none ↦ (hits, false)
  | some hit ↦ (clean now (set_hit ip hit hits), true)
]

-- `request.headers.get("x-forwarded-for")?.split(",")[0]?.trim() || "anonymous"`
unfoldable pub ip_of : Option String → String
ip_of none = "anonymous"
ip_of (some forwarded) =
    let ip = trim (before b',' forwarded) in if str_eq ip "" then "anonymous" else ip

pub record File : Type 0 where
  pub name : String
  pub size : ℕ
  pub mime_type : String

-- `formData.get("file")`
pub data FormField : Type 0 where
  missing : FormField
  plain : String → FormField
  upload : File → FormField

-- What Pinata does with a file: no answer that can be read, a status that is not ok with its text,
-- or an answer, with the CID where there is one.
pub data PinataAnswer : Type 0 where
  unreadable : PinataAnswer
  not_ok : String → PinataAnswer
  answered : Option String → PinataAnswer

pub data UploadError : Type 0 where
  rate_limited no_jwt invalid_form no_file : UploadError
  type_not_allowed : String → UploadError
  too_large : ℕ → UploadError
  pinata_failed : String → UploadError
  no_cid internal : UploadError

abbrev pub status_of : UploadError → ℕ
status_of rate_limited = 429
status_of no_jwt = 500
status_of invalid_form = 400
status_of no_file = 400
status_of (type_not_allowed _) = 400
status_of (too_large _) = 413
status_of (pinata_failed _) = 502
status_of no_cid = 502
status_of internal = 500

pub record Uploaded : Type 0 where
  pub cid : String
  pub ipfs_uri : String
  pub gateway_url : String
  pub file_name : String
  pub file_size : ℕ
  pub mime_type : String

-- `process.env.PINATA_JWT` and `process.env.NEXT_PUBLIC_PINATA_GATEWAY`; empty and unset are alike.
pub record Environment : Type 0 where
  pub pinata_jwt : String
  pub gateway : String

abbrev pub includes : List String → String → Bool
includes [] s = false
includes (x ∷ xs) s = str_eq x s || includes xs s

abbrev pub allowed_types : List String
allowed_types =
    "image/jpeg" ∷ "image/png" ∷ "image/gif" ∷ "image/webp" ∷ "image/svg+xml" ∷ "application/json"
    ∷ "application/pdf" ∷ []

abbrev pub max_size : ℕ
max_size = 10 * 1024 * 1024

abbrev pub non_empty : String → Bool
non_empty s = not (str_eq s "")

abbrev gateway_of : Environment → String
gateway_of env = if non_empty env.gateway then env.gateway else "https://gateway.pinata.cloud"

-- A text has no `type`.
unfoldable pub file_of : FormField → Result UploadError File
file_of missing = fail no_file
file_of (plain s) = fail (if non_empty s then type_not_allowed "undefined" else no_file)
file_of (upload file) = pass file

unfoldable pub check_file : File → Result UploadError File
check_file file =
    require (includes allowed_types file.mime_type) (type_not_allowed file.mime_type)
      (require (leb file.size max_size) (too_large file.size) (pass file))

unfoldable pub uploaded : Environment → File → String → Uploaded
uploaded env file cid = record {
  cid = cid;
  ipfs_uri = str_append "ipfs://" cid;
  gateway_url = str_append (gateway_of env) (str_append "/ipfs/" cid);
  file_name = file.name;
  file_size = file.size;
  mime_type = file.mime_type;
}

unfoldable pub cid_of : PinataAnswer → Result UploadError String
cid_of unreadable = fail internal
cid_of (not_ok status_text) = fail (pinata_failed status_text)
cid_of (answered none) = fail no_cid
cid_of (answered (some cid)) = require (non_empty cid) no_cid (pass cid)

pub record Request : Type 0 where
  pub forwarded_for : Option String
  -- `none` where `request.formData()` throws
  pub form : Option FormField

abbrev pub form_of : Option FormField → Result UploadError FormField
form_of none = fail invalid_form
form_of (some field) = pass field

module _ (env : Environment) (pinata : File → PinataAnswer) where
  -- What follows the limiter.
  unfoldable pub forward : Request → Result UploadError Uploaded
  unfolding file_of check_file cid_of uploaded
  forward request =
      require (non_empty env.pinata_jwt) no_jwt (form_of request.form)
      >>= file_of
      >>= check_file
      >>= (λ file. cid_of (pinata file) >>= (λ cid. pass (uploaded env file cid)))

  -- `POST`
  unfoldable pub post_upload : ℕ → Request → Hits → Hits × Result UploadError Uploaded
  unfolding admit_ip ip_of forward
  post_upload now request hits =
      let (hits', admitted) = admit_ip (ip_of request.forwarded_for) now hits in
      (hits', require admitted rate_limited (forward request))

-- ===== src/Uploader.antt =====
-- frontend/src/components/ui/IPFSUploader.tsx, with `uploadFile` and `uploadMetadata` of
-- frontend/src/lib/pinata.ts: the state of the uploader and its handlers. A handler runs as one step,
-- at whose end `uploading` is cleared. What the upload route answers, and the data URL of an image,
-- are arguments. A year is a number without a sign; `none` stands for NaN.
pub mod Phases
mod Tests
use stellar_urithi_bidz.Prelude.{
  ℕ, ◌*◌, String, Bool, true, false, List, [], ◌∷◌, Option, none, some, ltb, str_eq, str_append,
  if◌then◌else◌, Result, fail, pass,
}
use stellar_urithi_bidz.Text.{strip_prefix, trim, leading_number}
use stellar_urithi_bidz.Values.{decimal}
use stellar_urithi_bidz.Auth.{truthy}
use stellar_urithi_bidz.Upload.{File, Uploaded}

-- The texts of the metadata form
pub record Meta : Type 0 where
  pub name : String
  pub description : String
  pub artist : String
  pub year : String
  pub medium : String
  pub dimensions : String
  pub provenance : String

pub record Uploader : Type 0 where
  pub drag_over : Bool
  pub uploading : Bool
  pub preview : Option String
  pub file_name : Option String
  pub upload_result : Option Uploaded
  pub error : Option String
  pub meta : Meta

-- The fields that the component sets: the optional ones are absent if their text is empty.
pub record AuctionMetadata : Type 0 where
  pub name : String
  pub description : String
  pub image : String
  pub artist : Option String
  pub year : Option (Option ℕ)
  pub medium : Option String
  pub dimensions : Option String
  pub provenance : Option String

-- A toast of success has the whole CID here.
pub data Call : Type 0 where
  on_upload_complete : String → Uploaded → Call
  toast_success toast_error : String → Call

-- An exception: `none` is one that is no `Error`.
abbrev pub Exception : Type 0
Exception = Option String

-- What `fetch` gives: an exception; a status that is not ok, with the `error` of its body, where
-- there is one, and whether there is a body to read; or the result.
pub data Reply : Type 0 where
  thrown : Exception → Reply
  not_ok : ℕ → Option (Option String) → Reply
  ok : Uploaded → Reply

abbrev reason : String → ℕ → Option (Option String) → String
reason label status none = "Upload failed"
reason label status (some given) = elim (truthy given) [
  | some text ↦ text
  | none ↦ str_append label (decimal status)
]

-- `uploadFile` and `uploadMetadata`, which differ in the label of an error
unfoldable pub upload_answer : String → Reply → Result Exception Uploaded
unfolding decimal
upload_answer label (thrown exception) = fail exception
upload_answer label (not_ok status body) = fail (some (reason label status body))
upload_answer label (ok result) = pass result

abbrev pub file_label : String
file_label = "Upload failed with status "

abbrev pub metadata_label : String
metadata_label = "Metadata upload failed with status "

abbrev message_of : Exception → String
message_of none = "Upload failed"
message_of (some message) = message

-- The `try`, `catch` and `finally` around an upload
unfoldable pub finish_upload :
    (Uploaded → String) → Result Exception Uploaded → Uploader → Uploader × List Call
finish_upload message (fail exception) u = (
  record u { error = some (message_of exception); uploading = false },
  toast_error (message_of exception) ∷ [],
)
finish_upload message (pass result) u = (
  record u { upload_result = some result; uploading = false },
  on_upload_complete result.ipfs_uri result ∷ toast_success (message result) ∷ [],
)

-- `setPreview`, now or when the reader has read the image
unfoldable pub preview_of : File → String → Option String
unfolding strip_prefix
preview_of file data_url = elim (strip_prefix "image/" file.mime_type) [
  | none ↦ none
  | some subtype ↦ some data_url
]

-- `processFile`; `too_large` is the text of its message.
unfoldable pub process_file :
    ℕ → (File → String) → File → String → Reply → Uploader → Uploader × List Call
process_file max_size too_large file data_url reply u =
    if ltb max_size file.size
    then (record u { error = some (too_large file) }, [])
    else finish_upload (λ result. str_append "Uploaded to IPFS! CID: " result.cid)
        (upload_answer file_label reply)
        (record u {
          error = none;
          file_name = some file.name;
          upload_result = none;
          preview = preview_of file data_url;
        })

-- `handleDrop`, with the first file that was dropped
unfoldable pub handle_drop :
    Bool → ℕ → (File → String) → Option File → String → Reply → Uploader → Uploader × List Call
handle_drop file_mode max_size too_large file data_url reply u =
    let dropped = record u { drag_over = false } in
    elim file [
      | none ↦ (dropped, [])
      | some f ↦
          if file_mode
          then process_file max_size too_large f data_url reply dropped
          else (dropped, [])
    ]

abbrev unless_empty : String → Option String
unless_empty s = truthy (some s)

-- The metadata that `handleMetadataUpload` builds
unfoldable pub metadata_of : Option String → Meta → AuctionMetadata
unfolding leading_number
metadata_of image form = record {
  name = form.name;
  description = elim (unless_empty form.description) [
    | some s ↦ s
    | none ↦ str_append form.name " — listed on UrithiBidz"
  ];
  image = elim image [ none ↦ "" | some uri ↦ uri ];
  artist = unless_empty form.artist;
  year = elim (unless_empty form.year) [ none ↦ none | some s ↦ some (leading_number s) ];
  medium = unless_empty form.medium;
  dimensions = unless_empty form.dimensions;
  provenance = unless_empty form.provenance;
}

-- `handleMetadataUpload`
unfoldable pub handle_metadata_upload :
    Option String → (AuctionMetadata → Reply) → Uploader → Uploader × List Call
unfolding upload_answer finish_upload metadata_of trim
handle_metadata_upload image upload u =
    if str_eq (trim u.meta.name) ""
    then (u, toast_error "Please enter a name for your item" ∷ [])
    else finish_upload (λ result. "Metadata uploaded to IPFS!")
        (upload_answer metadata_label (upload (metadata_of image u.meta)))
        (record u { error = none })

unfoldable pub handle_reset : Uploader → Uploader
handle_reset u = record u { preview = none; file_name = none; upload_result = none; error = none }

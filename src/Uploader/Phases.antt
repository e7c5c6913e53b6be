-- ===== src/Uploader/Phases.antt =====
-- frontend/src/components/ui/IPFSUploader.tsx: how an upload ends.
use stellar_urithi_bidz.Prelude.{
  str_append, ℕ, String, false, List, [], ◌∷◌, none, some, ◌≡◌, ◌⊎◌, refl, inl, inr, ltb, Result,
  fail, pass,
}
use stellar_urithi_bidz.Upload.{File, Uploaded}
use stellar_urithi_bidz.Uploader.{
  Uploader, Call, on_upload_complete, toast_success, Reply, upload_answer, finish_upload, Exception,
  file_label, preview_of, process_file,
}

-- The end of an upload: no longer uploading, and either a result without an error, which the
-- callback has got with its URI, or an error.
abbrev Ends : (Uploaded → String) → Uploader → List Call → Type 0
Ends message u calls =
    (u.uploading ≡ false)
    × (((result : Uploaded) × (u.upload_result ≡ some result)
          × (u.error ≡ none)
          × (calls
              ≡ on_upload_complete result.ipfs_uri result ∷ toast_success (message result) ∷ []))
        ⊎ ((text : String) × (u.error ≡ some text) × (u.upload_result ≡ none)))

finish_upload-Ends :
    (message : Uploaded → String) (answer : Result Exception Uploaded) (u : Uploader)
    → u.error ≡ none
    → u.upload_result ≡ none
    → Ends message (finish_upload message answer u).0 (finish_upload message answer u).1
unfolding finish_upload
finish_upload-Ends message (fail exception) u e r = (refl, inr (_, refl, r))
finish_upload-Ends message (pass result) u e r = (refl, inl (result, refl, e, refl))

abbrev stored_as : Uploaded → String
stored_as result = str_append "Uploaded to IPFS! CID: " result.cid

-- A file that is not too large: whatever the route answers, the upload ends with its result handed
-- over, or with an error and no result.
process_file-Ends :
    (max_size : ℕ) (too_large : File → String) (file : File) (data_url : String) (reply : Reply)
    (u : Uploader)
    → ltb max_size file.size ≡ false
    → let (u', calls) = process_file max_size too_large file data_url reply u in
      Ends stored_as u' calls
unfolding process_file
process_file-Ends max_size too_large file data_url reply u small =
    rw (process_file, small)
      (finish_upload-Ends stored_as (upload_answer file_label reply)
        (record u {
          error = none;
          file_name = some file.name;
          upload_result = none;
          preview = preview_of file data_url;
        })
        refl refl)

-- ===== src/Upload/Tests.antt =====
-- frontend/src/app/api/ipfs/upload/route.ts: runs on concrete uploads.
use stellar_urithi_bidz.Prelude.{
  ℕ, zero, suc, ◌≤◌, ◌↔◌, String, true, List, [], ◌∷◌, ◌++◌, some, none, ◌≡◌, refl, arith, empty,
  pass, fail,
}
use stellar_urithi_bidz.Upload.{
  Environment, File, PinataAnswer, answered, upload, Request, uploaded, post_upload, forward,
  type_not_allowed, get_hit, count_hit, set_hit, clean, admit_ip, ip_of, file_of, check_file,
  cid_of,
}
use stellar_urithi_bidz.Upload.Limiter.{answers, ideal_answers, clean_unseen}
use stellar_urithi_bidz.Upload.Window.{passed, after}
use stellar_urithi_bidz.Upload.Minute.{sixty_a_minute}
use stellar_urithi_bidz.Upload.Answer.{post_upload_iff, Stored}

abbrev times : ℕ → ℕ → List (String × ℕ)
times zero t = []
times (suc n) t = ("1.2.3.4", t) ∷ times n t

-- One request, 29 at the end of its window and 30 at the start of the next: 59 in two milliseconds.
late : List (String × ℕ)
late = times 29 59999 ++ times 40 60000

burst : passed "1.2.3.4" late (answers (after [] (times 1 0)) late) ≡ 59
unfolding late passed answers after get_hit set_hit count_hit clean
burst = refl

abbrev two_calls : List (String × ℕ)
two_calls = ("1.2.3.4", 5) ∷ ("5.6.7.8", 9) ∷ []

clean_unseen_example : answers [] two_calls ≡ ideal_answers empty two_calls
clean_unseen_example = clean_unseen two_calls (omega arith, (omega arith, tt))

sixty_a_minute_example :
    passed "1.2.3.4" two_calls (answers (after [] (("1.2.3.4", 1) ∷ [])) two_calls) ≤ 60
sixty_a_minute_example =
    sixty_a_minute "1.2.3.4" (("1.2.3.4", 1) ∷ []) 5 two_calls 9 (omega arith, omega arith)
      (omega arith, (omega arith, omega arith)) (omega arith)

abbrev env : Environment
env = record { pinata_jwt = "token"; gateway = "" }

abbrev pinata : File → PinataAnswer
pinata file = answered (some "bafy")

abbrev photo : File
photo = record { name = "a.png"; size = 2048; mime_type = "image/png" }

abbrev request : Request
request = record { forwarded_for = some "1.2.3.4, 10.0.0.1"; form = some (upload photo) }

post_upload_iff_example :
    ((post_upload env pinata 7 request []).1 ≡ pass (uploaded env photo "bafy")) ↔ (
      ((admit_ip (ip_of request.forwarded_for) 7 []).1 ≡ true)
      × Stored env pinata request (uploaded env photo "bafy"))
post_upload_iff_example = post_upload_iff env pinata 7 request [] (uploaded env photo "bafy")

stored_photo :
    (post_upload env pinata 7 request []).1
    ≡ pass (record {
      cid = "bafy";
      ipfs_uri = "ipfs://bafy";
      gateway_url = "https://gateway.pinata.cloud/ipfs/bafy";
      file_name = "a.png";
      file_size = 2048;
      mime_type = "image/png";
    })
unfolding post_upload forward file_of check_file cid_of uploaded admit_ip ip_of get_hit set_hit
    count_hit clean
stored_photo = refl

abbrev archive : Request
archive = record {
  forwarded_for = none;
  form = some (upload (record { name = "a.zip"; size = 5; mime_type = "application/zip" }));
}

zip_refused : (post_upload env pinata 7 archive []).1 ≡ fail (type_not_allowed "application/zip")
unfolding post_upload forward file_of check_file cid_of uploaded admit_ip ip_of get_hit set_hit
    count_hit clean
zip_refused = refl

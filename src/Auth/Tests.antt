-- ===== src/Auth/Tests.antt =====
-- backend/src/middleware/auth.ts on concrete requests.
use stellar_urithi_bidz.Prelude.{
  fail, pass, ℕ, ◌+◌, ◌≤◌, String, none, some, if◌then◌else◌, [], ◌∷◌, ◌≡◌, ◌≢◌, ◌↔◌, refl, arith,
  str_eq, eq_iff, empty,
}
use stellar_urithi_bidz.Text.{trim, before, parse_digits, strip_prefix}
use stellar_urithi_bidz.Auth.{
  Verifier, SeenNonces, AuthRequest, bad_signature, stellar_auth_middleware, forget_expired, check,
  nonce_in, sent_at, replay_key, verify_ed25519_signature,
}
use stellar_urithi_bidz.Auth.Message.{IsGenuine, next_iff, refusal_keeps_cache}
use stellar_urithi_bidz.Auth.Replay.{apply, forget, run, no_replay, replay_after_forget}

-- Every text "sig" is a signature, and an address "bad" makes the library throw.
abbrev signs : Verifier
signs address message signature =
    if str_eq address "bad" then none else some (str_eq signature "sig")

abbrev bidding : AuthRequest
bidding = record {
  address = some "GA";
  signature = some "sig";
  message = some "stellar-urithi-bidz-auth: 400000:x";
}

abbrev forged : AuthRequest
forged = record {
  address = some "GA";
  signature = some "gis";
  message = some "stellar-urithi-bidz-auth:400000:x";
}

abbrev nonce : String
nonce = "400000:x"

bidding_rest : trim " 400000:x" ≡ nonce
unfolding trim
bidding_rest = refl

bidding_stamp : sent_at nonce ≡ some 400000
unfolding sent_at parse_digits before
bidding_stamp = refl

filled : (◌≢◌ {A = String} "GA" "") × (◌≢◌ {A = String} "sig" "") × (nonce ≢ "")
filled = (
  ground (arith, eq_iff "GA" ""),
  ground (arith, eq_iff "sig" ""),
  ground (arith, eq_iff nonce ""),
)

bidding_message_filled : ◌≢◌ {A = String} "stellar-urithi-bidz-auth: 400000:x" ""
bidding_message_filled = ground (arith, eq_iff "stellar-urithi-bidz-auth: 400000:x" "")

-- The nonce is twenty seconds ahead at 380000, and not ahead at 400000.
abbrev genuine_at :
    (now : ℕ) → now ≤ 700000 → 400000 ≤ now + 30000 → IsGenuine signs bidding now empty
genuine_at now h k = record {
  address = "GA";
  signature = "sig";
  message = "stellar-urithi-bidz-auth: 400000:x";
  nonce = nonce;
  nonce_ms = 400000;
  claimed = refl;
  signed = refl;
  sent = refl;
  rest = " 400000:x";
  prefixed = refl;
  trimmed = bidding_rest;
  stamped = bidding_stamp;
  not_old = h;
  not_future = k;
  unseen = refl;
  verified = refl;
  has_address = filled.0;
  has_signature = filled.1;
  has_message = bidding_message_filled;
  has_nonce = filled.2;
}

forged_refused : (stellar_auth_middleware signs forged 400000 empty).1 ≡ fail bad_signature
unfolding stellar_auth_middleware check verify_ed25519_signature nonce_in strip_prefix trim sent_at
    parse_digits before
forged_refused = refl

next_iff_example :
    ((key : String) × ((stellar_auth_middleware signs bidding 400000 empty).1 ≡ pass key))
    ↔ IsGenuine signs bidding 400000 empty
next_iff_example = next_iff signs bidding 400000 empty

forged_leaves_cache : (stellar_auth_middleware signs forged 400000 empty).0 ≡ empty
forged_leaves_cache = refusal_keeps_cache signs forged 400000 empty bad_signature forged_refused

replay_after_forget_example :
    (stellar_auth_middleware signs bidding 690000
      (forget_expired 685000 (stellar_auth_middleware signs bidding 380000 empty).0)).1
    ≡ pass (replay_key "GA" nonce)
replay_after_forget_example =
    replay_after_forget signs bidding 380000 685000 690000 empty
      (genuine_at 380000 (omega arith) (omega arith)) (omega arith) (omega arith) (omega arith)

abbrev next_bid : AuthRequest
next_bid = record {
  address = some "GA";
  signature = some "sig";
  message = some "stellar-urithi-bidz-auth:410000";
}

abbrev next_seen : SeenNonces
next_seen = run signs (stellar_auth_middleware signs bidding 400000 empty).0 (forget 405000 ∷ [])

next_stamp : (sent_at "410000" ≡ some 410000) × (trim "410000" ≡ "410000")
unfolding sent_at parse_digits before trim
next_stamp = (refl, refl)

next_unseen : next_seen (replay_key "GA" "410000") ≡ none
unfolding run apply stellar_auth_middleware check nonce_in strip_prefix trim sent_at parse_digits
    before verify_ed25519_signature forget_expired
next_unseen = refl

next_filled :
    (◌≢◌ {A = String} "GA" "")
    × (◌≢◌ {A = String} "sig" "")
    × (◌≢◌ {A = String} "stellar-urithi-bidz-auth:410000" "")
    × (◌≢◌ {A = String} "410000" "")
next_filled = (
  ground (arith, eq_iff "GA" ""),
  ground (arith, eq_iff "sig" ""),
  ground (arith, eq_iff "stellar-urithi-bidz-auth:410000" ""),
  ground (arith, eq_iff "410000" ""),
)

next_times : (410000 ≤ 410000 + 300000) × (410000 ≤ 410000 + 30000)
next_times = omega arith

abbrev next_genuine : IsGenuine signs next_bid 410000 next_seen
next_genuine = record {
  address = "GA";
  signature = "sig";
  message = "stellar-urithi-bidz-auth:410000";
  nonce = "410000";
  nonce_ms = 410000;
  claimed = refl;
  signed = refl;
  sent = refl;
  rest = "410000";
  prefixed = refl;
  trimmed = next_stamp.1;
  stamped = next_stamp.0;
  not_old = next_times.0;
  not_future = next_times.1;
  unseen = next_unseen;
  verified = refl;
  has_address = next_filled.0;
  has_signature = next_filled.1;
  has_message = next_filled.2;
  has_nonce = next_filled.3;
}

no_replay_example : ¬ ((next_genuine.address ≡ "GA") × (next_genuine.nonce ≡ nonce))
no_replay_example =
    no_replay signs bidding next_bid 400000 410000 empty (forget 405000 ∷ [])
      (genuine_at 400000 (omega arith) (omega arith)) next_genuine (omega arith) (omega arith)
      (omega arith)

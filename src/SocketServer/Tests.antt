-- ===== src/SocketServer/Tests.antt =====
-- backend/src/ws/socket_server.ts on concrete events.
use stellar_urithi_bidz.Prelude.{
  ◌≤◌, ◌≢◌, String, none, some, List, [], ◌∷◌, ◌≡◌, refl, arith, str_eq, eq_iff, if◌then◌else◌,
}
use stellar_urithi_bidz.Text.{trim, before, parse_digits, strip_prefix}
use stellar_urithi_bidz.Auth.{Verifier, nonce_in, sent_at, verify_ed25519_signature}
use stellar_urithi_bidz.SocketServer.{
  clear_expired, Server, ServerNonce, request_nonce, authenticate, join_bidder, join, bidder_room,
  auth_success, auth_error, check_nonce, verify_stellar_signature, authenticate_as, handle, start,
  is_authenticated_for,
}
use stellar_urithi_bidz.SocketServer.Rooms.{Input, event, timer, after, Signed, bidder_room-Signed}
use stellar_urithi_bidz.SocketServer.Nonces.{server_nonce_spent, request_blocks_timestamps}

abbrev signs : Verifier
signs address message signature =
    if str_eq address "bad" then none else some (str_eq signature "sig")

abbrev history : List Input
history =
    event "s1" (authenticate (some "GA") (some "sig") (some "stellar-urithi-bidz-auth:400000"))
      400000
    ∷ timer 300000
    ∷ []

joins :
    (handle signs "s1" (join_bidder "GA") 400001 (after signs history)).1
    ≡ join (bidder_room "GA") ∷ []
unfolding clear_expired handle authenticate_as verify_stellar_signature check_nonce after
    is_authenticated_for nonce_in strip_prefix trim sent_at parse_digits before
    verify_ed25519_signature
joins = refl

bidder_room-Signed_example : Signed signs "s1" "GA" history
bidder_room-Signed_example =
    bidder_room-Signed signs history "s1" "GA" (join_bidder "GA") 400001 joins

abbrev entry : ServerNonce
entry = record { nonce = "u-1"; expires = 500000 }

abbrev issued : Server
issued = record start { server_nonces = λ a. if str_eq a "GA" then some entry else none }

named : nonce_in "stellar-urithi-bidz-auth:u-1" ≡ some "u-1"
unfolding nonce_in strip_prefix trim
named = refl

random : sent_at "u-1" ≡ none
unfolding sent_at parse_digits before
random = refl

accepted :
    (authenticate_as signs "s1" "GA" "sig" "stellar-urithi-bidz-auth:u-1" 400000 issued).1
    ≡ auth_success "GA" ∷ []
unfolding authenticate_as verify_stellar_signature check_nonce nonce_in strip_prefix trim
    verify_ed25519_signature
accepted = refl

-- The server as it is after another nonce was issued.
abbrev issued_again : Server
issued_again = record issued {
  server_nonces =
      λ a. if str_eq a "GA" then some (record { nonce = "u-2"; expires = 700000 }) else none;
}

not_issued :
    (issued_ : ServerNonce)
    → issued_again.server_nonces "GA" ≡ some issued_
    → issued_.nonce ≢ entry.nonce
not_issued issued_ there same = absurd (ground (arith, eq_iff "u-2" "u-1"))

server_nonce_spent_example :
    ("u-1" ≡ entry.nonce)
    × (400000 ≤ 500000)
    × ((authenticate_as signs "s1" "GA" "sig" "stellar-urithi-bidz-auth:u-1" 400000
            issued).0.server_nonces
          "GA"
        ≡ none)
    × ((authenticate_as signs "s2" "GA" "sig" "stellar-urithi-bidz-auth:u-1" 500001 issued_again).1
        ≡ auth_error "Invalid signature" ∷ [])
server_nonce_spent_example =
    server_nonce_spent signs "GA" "sig" "stellar-urithi-bidz-auth:u-1" "u-1" named "s1" "s2" 400000
      500001 issued issued_again entry refl random accepted not_issued

abbrev timed : String
timed = "stellar-urithi-bidz-auth:400000"

timed_named : (nonce_in timed ≡ some "400000") × (sent_at "400000" ≡ some 400000)
unfolding nonce_in strip_prefix trim sent_at parse_digits before
timed_named = (refl, refl)

request_blocks_timestamps_run :
    (authenticate_as signs "s1" "GA" "sig" timed 400000
      (handle signs "s9" (request_nonce (some "GA") "u-2") 399999 start).0).1
    ≡ auth_error "Invalid signature" ∷ []
request_blocks_timestamps_run =
    request_blocks_timestamps signs "GA" "sig" timed "400000" timed_named.0 "s9" "s1" "u-2" 399999
      400000 start (ground (arith, eq_iff "GA" "")) (ground (arith, eq_iff "400000" "u-2"))

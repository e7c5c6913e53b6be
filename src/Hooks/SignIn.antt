-- ===== src/Hooks/SignIn.antt =====
-- The message that frontend/src/hooks/useWebSocket.ts signs, at backend/src/ws/socket_server.ts.
use stellar_urithi_bidz.Prelude.{
  ℕ, eq_iff, ◌+◌, ◌≤◌, String, none, some, Option, true, [], ◌∷◌, ◌≡◌, ◌≢◌, refl, arith, str_append,
}
use stellar_urithi_bidz.Text.{strip_prefix, parse_digits, before, trim-digits, before-number}
use stellar_urithi_bidz.Values.{decimal}
use stellar_urithi_bidz.Values.Decimal.{parse_digits-decimal}
use stellar_urithi_bidz.Auth.{
  Verifier, auth_prefix, auth_nonce_max_age_ms, clock_skew_ms, nonce_in, sent_at,
  verify_ed25519_signature,
}
use stellar_urithi_bidz.Auth.Message.{nonce_in-append}
use stellar_urithi_bidz.SocketServer.{
  Server, handle, authenticate_as, check_nonce, auth_success, is_authenticated_for,
  authenticate as on_authenticate,
}
use stellar_urithi_bidz.SocketServer.Nonces.{succeeds, success-authenticates}
use stellar_urithi_bidz.Hooks.{authenticate, authenticate_socket}

-- The clock's time is the nonce of the message.
pub nonce_in-decimal : (n : ℕ) → nonce_in (str_append auth_prefix (decimal n)) ≡ some (decimal n)
nonce_in-decimal n =
    rw (nonce_in-append (decimal n), trim-digits (decimal n) (parse_digits-decimal n)) refl

sent_at-decimal : (n : ℕ) → sent_at (decimal n) ≡ some n
unfolding sent_at
sent_at-decimal n = rw (before-number (decimal n) (parse_digits-decimal n)) (parse_digits-decimal n)

stamped-ne-nil : (nonce : String) {sent : ℕ} → sent_at nonce ≡ some sent → nonce ≢ ""
unfolding sent_at parse_digits before
stamped-ne-nil nonce h empty = absurd (ground (arith, rw empty at h))

pub message-ne-nil :
    (message : String) {nonce : String} → nonce_in message ≡ some nonce → message ≢ ""
unfolding nonce_in strip_prefix
message-ne-nil message h empty = absurd (ground (arith, rw empty at h))

-- The handler on an event whose three fields are filled.
pub handle-authenticate :
    (verify : Verifier) (socket_id address signature message : String) (now : ℕ) (server : Server)
    → address ≢ ""
    → signature ≢ ""
    → message ≢ ""
    → handle verify socket_id
        (on_authenticate (some address) (some signature) (some message))
        now
        server
      ≡ authenticate_as verify socket_id address signature message now server
unfolding handle
handle-authenticate verify socket_id address signature message now server a s m =
    ground (arith, eq_iff address "", eq_iff signature "", eq_iff message "")

sends :
    (address signature : String) (sign_message : String → Option String) (sent : ℕ)
    → sign_message (str_append auth_prefix (decimal sent)) ≡ some signature
    → authenticate_socket address sent sign_message
      ≡ authenticate address signature (str_append auth_prefix (decimal sent)) ∷ []
unfolding authenticate_socket decimal
sends address signature sign_message sent signs = rw (authenticate_socket, signs) refl

valid_signature :
    (verify : Verifier) (address message signature : String)
    → verify address message signature ≡ some true
    → verify_ed25519_signature verify address message signature ≡ true
unfolding verify_ed25519_signature
valid_signature verify address message signature h = rw (verify_ed25519_signature, h) refl

fresh_time :
    (verify : Verifier) (address nonce : String) (sent now : ℕ) (server : Server)
    → server.server_nonces address ≡ none
    → sent_at nonce ≡ some sent
    → now ≤ sent + auth_nonce_max_age_ms
    → sent ≤ now + clock_skew_ms
    → (check_nonce verify address nonce now server).1 ≡ true
unfolding check_nonce
fresh_time verify address nonce sent now server free stamped recent past = ground arith

-- The message that the hook has the wallet sign is accepted by the server, and authenticates the
-- socket as the address, where the wallet signs, the signature verifies, the server holds no nonce
-- for the address, and the clocks differ by at most five minutes, or thirty seconds if the
-- browser's is ahead.
pub sign_in_accepted :
    (verify : Verifier) (address signature : String) (sign_message : String → Option String)
    (socket_id : String) (sent now : ℕ) (server : Server)
    → address ≢ ""
    → signature ≢ ""
    → sign_message (str_append auth_prefix (decimal sent)) ≡ some signature
    → verify address (str_append auth_prefix (decimal sent)) signature ≡ some true
    → server.server_nonces address ≡ none
    → now ≤ sent + auth_nonce_max_age_ms
    → sent ≤ now + clock_skew_ms
    → let message = str_append auth_prefix (decimal sent) in
      let (server', effects) =
        handle verify socket_id
          (on_authenticate (some address) (some signature) (some message))
          now
          server in
      (authenticate_socket address sent sign_message ≡ authenticate address signature message ∷ [])
      × (effects ≡ auth_success address ∷ [])
      × (is_authenticated_for socket_id address server' ≡ true)
sign_in_accepted verify address signature sign_message socket_id sent now server a s signs valid
      free recent past =
    let message = str_append auth_prefix (decimal sent) in
    let named = nonce_in-decimal sent in
    let stamped = sent_at-decimal sent in
    let taken =
      handle-authenticate verify socket_id address signature message now server a s
        (message-ne-nil message named) in
    let success =
      succeeds verify address signature message (decimal sent) named socket_id now server
        (ground (arith, eq_iff (decimal sent) "", stamped-ne-nil (decimal sent) stamped))
        (fresh_time verify address (decimal sent) sent now server free stamped recent past)
        (valid_signature verify address message signature valid) in
    (
      sends address signature sign_message sent signs,
      rw taken success,
      rw taken
          (success-authenticates verify socket_id address signature message now server success),
    )

-- ===== src/SocketServer/Nonces.antt =====
-- backend/src/ws/socket_server.ts: server nonces against client timestamps.
use stellar_urithi_bidz.Prelude.{
  List, Bool-cases, Option-cases, inl, inr, ℕ, ◌≤◌, String, true, false, [], ◌∷◌, none, some, ◌≡◌,
  ◌≢◌, refl, arith, str_eq, eq_iff, str_eq_refl,
}
use stellar_urithi_bidz.Auth.{Verifier, nonce_in, sent_at, verify_ed25519_signature}
use stellar_urithi_bidz.SocketServer.{
  Server, ServerNonce, add, includes, addresses_of, is_authenticated_for, request_nonce,
  auth_success, auth_error, check_nonce, verify_stellar_signature, authenticate_as, handle,
}

module _ (verify : Verifier) (address signature message nonce : String)
    (named : nonce_in message ≡ some nonce) where
  -- What a success says, behind `check_nonce`.
  success :
      (socket_id : String) (now : ℕ) (server : Server)
      → (authenticate_as verify socket_id address signature message now server).1
        ≡ auth_success address ∷ []
      → (str_eq nonce "" ≡ false)
        × ((check_nonce verify address nonce now server).1 ≡ true)
        × (verify_ed25519_signature verify address message signature ≡ true)
        × ((authenticate_as verify socket_id address signature message now server).0.server_nonces
            ≡ (check_nonce verify address nonce now server).0.server_nonces)
  unfolding authenticate_as verify_stellar_signature
  success socket_id now server h = ground arith

  -- And the other way round.
  pub succeeds :
      (socket_id : String) (now : ℕ) (server : Server)
      → str_eq nonce "" ≡ false
      → (check_nonce verify address nonce now server).1 ≡ true
      → verify_ed25519_signature verify address message signature ≡ true
      → (authenticate_as verify socket_id address signature message now server).1
        ≡ auth_success address ∷ []
  unfolding authenticate_as verify_stellar_signature
  succeeds socket_id now server a b c = ground arith

  -- A nonce that is no time of a client and not the one that the server holds.
  unknown_nonce :
      (now : ℕ) (server : Server)
      → sent_at nonce ≡ none
      → ((issued : ServerNonce) → server.server_nonces address ≡ some issued → issued.nonce ≢ nonce)
      → (check_nonce verify address nonce now server).1 ≡ false
  unfolding check_nonce
  unknown_nonce now server random unissued = elim (Option-cases (server.server_nonces address)) [
    | inl e ↦ rw (e, random, check_nonce) refl
    | inr (issued, e) ↦ let other = unissued issued e in ground (arith, eq_iff nonce issued.nonce)
  ]

  refused :
      (socket_id : String) (now : ℕ) (server : Server)
      → (check_nonce verify address nonce now server).1 ≡ false
      → (authenticate_as verify socket_id address signature message now server).1
        ≡ auth_error "Invalid signature" ∷ []
  unfolding authenticate_as verify_stellar_signature
  refused socket_id now server b = ground arith

  -- While the server holds a nonce for an address whose part before the first colon is not all digits, as of
  -- a UUID, only the message with that nonce, sent in time, authenticates as the address. The nonce is
  -- then spent: from any state in which the server holds no nonce for the address, or another one, the
  -- same message sent again is refused, on any socket and at any time.
  pub server_nonce_spent :
      (socket_id other : String) (now later : ℕ) (server afterwards : Server) (entry : ServerNonce)
      → server.server_nonces address ≡ some entry
      → sent_at entry.nonce ≡ none
      → (authenticate_as verify socket_id address signature message now server).1
        ≡ auth_success address ∷ []
      → ((issued : ServerNonce)
          → afterwards.server_nonces address ≡ some issued
          → issued.nonce ≢ entry.nonce)
      → (nonce ≡ entry.nonce)
        × (now ≤ entry.expires)
        × ((authenticate_as verify socket_id address signature message now server).0.server_nonces
              address
            ≡ none)
        × ((authenticate_as verify other address signature message later afterwards).1
            ≡ auth_error "Invalid signature" ∷ [])
  unfolding check_nonce
  server_nonce_spent socket_id other now later server afterwards entry held random h unissued =
      let (_, passes, _, nonces) = success socket_id now server h in
      let same : nonce ≡ entry.nonce = ground (arith, eq_iff nonce entry.nonce) in
      (
        same,
        ground arith,
        ground (arith, str_eq_refl address),
        refused other later afterwards (
            unknown_nonce later afterwards (rw same random)
              (λ issued there. rw same (unissued issued there))),
      )

  -- After anyone's request of a nonce for an address, the next message for the address is refused if
  -- it has another nonce, be it a signed time of the client.
  pub request_blocks_timestamps :
      (requester socket_id random : String) (now later : ℕ) (server : Server)
      → address ≢ ""
      → nonce ≢ random
      → (authenticate_as verify socket_id address signature message later
          (handle verify requester (request_nonce (some address) random) now server).0).1
        ≡ auth_error "Invalid signature" ∷ []
  unfolding handle check_nonce
  request_blocks_timestamps requester socket_id random now later server filled differs =
      refused socket_id later
        (handle verify requester (request_nonce (some address) random) now server).0
        (ground (arith, eq_iff address "", eq_iff nonce random, str_eq_refl address))

includes-add_self : (a : String) (xs : List String) → includes a (add a xs) ≡ true
includes-add_self a xs = ground (arith, str_eq_refl a)

-- A success authenticates the socket as the address.
pub success-authenticates :
    (verify : Verifier) (socket_id address signature message : String) (now : ℕ) (server : Server)
    → (authenticate_as verify socket_id address signature message now server).1
      ≡ auth_success address ∷ []
    → is_authenticated_for socket_id address
        (authenticate_as verify socket_id address signature message now server).0
      ≡ true
unfolding authenticate_as is_authenticated_for
success-authenticates verify socket_id address signature message now server h =
    elim (Bool-cases (verify_stellar_signature verify address message signature now server).1) [
      | inl valid ↦
          let checked = (verify_stellar_signature verify address message signature now server).0 in
          let addresses = addresses_of (checked.authenticated_sockets socket_id) in
          rw (valid, str_eq_refl socket_id) (includes-add_self address addresses)
      | inr invalid ↦ absurd (ground arith)
    ]

-- ===== src/SocketServer/Rooms.antt =====
-- backend/src/ws/socket_server.ts: who enters a bidder's room, over every history of events.
use Prim.Native.Char.{code}
use text.Mathlib.TextLemmas.{cons-append, cons-eq-cons, append_cancel_left}
use stellar_urithi_bidz.Prelude.{
  sym, ap, ◌∙◌, ℕ, String, true, List, [], ◌∷◌, none, some, ◌≡◌, ◌≢◌, ◌⊎◌, inl, inr, arith, str_eq,
  eq_iff, Bool-cases, Option-cases,
}
use stellar_urithi_bidz.Auth.{Verifier, nonce_in, verify_ed25519_signature}
use stellar_urithi_bidz.SocketServer.{
  Server, Event, request_nonce, authenticate, join_auction, leave_auction, join_bidder,
  leave_bidder, disconnect, join, auction_room, bidder_room, is_authenticated_for, start,
  clear_expired, addresses_of, add, includes, check_nonce, verify_stellar_signature,
  authenticate_as, handle,
}

-- What reaches the server: an event of a socket with its time, or the timer.
pub data Input : Type 0 where
  event : String → Event → ℕ → Input
  timer : ℕ → Input

module _ (verify : Verifier) where
  -- The server after a history, the latest input first.
  unfoldable pub after : List Input → Server
  after [] = start
  after (event socket_id e now ∷ earlier) = (handle verify socket_id e now (after earlier)).0
  after (timer now ∷ earlier) = clear_expired now (after earlier)

  -- This event shows a signature that verifies for `address`.
  abbrev pub Signs : String → Event → Type 0
  Signs address (authenticate (some a) (some signature) (some message)) =
      (a ≡ address) × (verify address message signature ≡ some true)
  Signs address _ = ⊥

  -- Since the socket last disconnected, it sent an event that signs for `address`.
  abbrev pub Signed : String → String → List Input → Type 0
  Signed socket_id address [] = ⊥
  Signed socket_id address (timer now ∷ earlier) = Signed socket_id address earlier
  Signed socket_id address (event other e now ∷ earlier) =
      ((other ≡ socket_id) × Signs address e)
      ⊎ (((e ≡ disconnect) → other ≢ socket_id) × Signed socket_id address earlier)

  check_nonce-keeps :
      (address nonce : String) (now : ℕ) (server : Server)
      → (check_nonce verify address nonce now server).0.authenticated_sockets
        ≡ server.authenticated_sockets
  unfolding check_nonce
  check_nonce-keeps address nonce now server = ground arith

  verify-keeps :
      (address message signature : String) (now : ℕ) (server : Server)
      → (verify_stellar_signature verify address message signature now
          server).0.authenticated_sockets
        ≡ server.authenticated_sockets
  unfolding verify_stellar_signature
  verify-keeps address message signature now server = elim (Option-cases (nonce_in message)) [
    | inl e ↦ rw (e, verify_stellar_signature)
    | inr (nonce, e) ↦
        rw (e, verify_stellar_signature)
          (ground (arith, check_nonce-keeps address nonce now server))
  ]

  verify_sound :
      (address message signature : String) (now : ℕ) (server : Server)
      → (verify_stellar_signature verify address message signature now server).1 ≡ true
      → verify address message signature ≡ some true
  unfolding verify_stellar_signature verify_ed25519_signature
  verify_sound address message signature now server h = ground arith

  includes-add :
      (a b : String) (xs : List String)
      → includes b (add a xs) ≡ true
      → (a ≡ b) ⊎ (includes b xs ≡ true)
  includes-add a b xs h = ground (arith, eq_iff a b)

  -- What `authenticate` adds is an address whose signature verifies.
  pub authenticate_as-adds :
      (socket_id address signature message : String) (now : ℕ) (server : Server) (s a : String)
      → is_authenticated_for s a
          (authenticate_as verify socket_id address signature message now server).0
        ≡ true
      → (is_authenticated_for s a server ≡ true)
        ⊎ ((socket_id ≡ s) × (address ≡ a) × (verify address message signature ≡ some true))
  unfolding authenticate_as is_authenticated_for
  authenticate_as-adds socket_id address signature message now server s a h = ground (
    arith,
    verify-keeps address message signature now server,
    verify_sound address message signature now server,
    eq_iff socket_id s,
    includes-add address a (addresses_of (server.authenticated_sockets socket_id)),
  )

  -- The handler refuses an empty field, or goes on to `authenticate_as`.
  handle-authenticate :
      (socket_id address signature message : String) (now : ℕ) (server : Server)
      → let after =
          (handle verify socket_id
            (authenticate (some address) (some signature) (some message))
            now
            server).0 in
        (after ≡ server)
        ⊎ (after ≡ (authenticate_as verify socket_id address signature message now server).0)
  unfolding handle
  handle-authenticate socket_id address signature message now server = ground arith

  step-Signed :
      (socket_id : String) (e : Event) (now : ℕ) (earlier : List Input) (s a : String)
      → ((s' a' : String)
          → is_authenticated_for s' a' (after earlier) ≡ true
          → Signed s' a' earlier)
      → is_authenticated_for s a (handle verify socket_id e now (after earlier)).0 ≡ true
      → Signed s a (event socket_id e now ∷ earlier)
  unfolding handle is_authenticated_for
  step-Signed socket_id (request_nonce payload random) now earlier s a ih h =
      inr (λ e. cc, ih s a (ground arith))
  step-Signed socket_id (join_auction id) now earlier s a ih h = inr (λ e. cc, ih s a h)
  step-Signed socket_id (leave_auction id) now earlier s a ih h = inr (λ e. cc, ih s a h)
  step-Signed socket_id (join_bidder address) now earlier s a ih h =
      inr (λ e. cc, ih s a (ground arith))
  step-Signed socket_id (leave_bidder address) now earlier s a ih h = inr (λ e. cc, ih s a h)
  step-Signed socket_id disconnect now earlier s a ih h = elim (Bool-cases (str_eq socket_id s)) [
    | inl same ↦ absurd (ground arith)
    | inr other ↦ inr (λ _ e. absurd (ground (arith, eq_iff socket_id s)), ih s a (ground arith))
  ]
  step-Signed socket_id (authenticate (some address) (some signature) (some message)) now earlier s
        a ih h =
      elim (handle-authenticate socket_id address signature message now (after earlier)) [
        | inl same ↦ inr (λ e. cc, ih s a (rw same at h))
        | inr new ↦
            elim (authenticate_as-adds socket_id address signature message now (after earlier) s a
              (rw new at h)) [
                | inl old ↦ inr (λ e. cc, ih s a old)
                | inr (this, claimed, valid) ↦ inl (this, (claimed, rw claimed at valid))
              ]
      ]
  step-Signed socket_id (authenticate none signature message) now earlier s a ih h =
      inr (λ e. cc, ih s a h)
  step-Signed socket_id (authenticate (some address) none message) now earlier s a ih h =
      inr (λ e. cc, ih s a (ground arith))
  step-Signed socket_id (authenticate (some address) (some signature) none) now earlier s a ih h =
      inr (λ e. cc, ih s a (ground arith))

auction_room-ne-bidder_room : (id address : String) → auction_room id ≢ bidder_room address
auction_room-ne-bidder_room id address e =
    let codes = cons-eq-cons.0 (sym (cons-append _ _ id) ∙ e ∙ cons-append _ _ address) in
    omega (arith, ap code codes.0)

bidder_room_inj : (a b : String) → bidder_room a ≡ bidder_room b → a ≡ b
bidder_room_inj a b e = append_cancel_left "bidder:" a b e

module _ (verify : Verifier) where
  after-Signed :
      (history : List Input) (socket_id address : String)
      → is_authenticated_for socket_id address (after verify history) ≡ true
      → Signed verify socket_id address history
  unfolding after is_authenticated_for
  after-Signed [] socket_id address h = cc
  after-Signed (timer now ∷ earlier) socket_id address h =
      after-Signed earlier socket_id address (unfold clear_expired in h)
  after-Signed (event other e now ∷ earlier) socket_id address h =
      step-Signed verify other e now earlier socket_id address (after-Signed earlier) h

  -- Over every history from the server's start: an event makes its socket join the room of a bidder
  -- only if the same socket, since it last disconnected, sent an `authenticate` with that bidder's
  -- address and a signature that verifies for it. No auction's room has the name of a bidder's room.
  pub bidder_room-Signed :
      (history : List Input) (socket_id address : String) (e : Event) (now : ℕ)
      → (handle verify socket_id e now (after verify history)).1 ≡ join (bidder_room address) ∷ []
      → Signed verify socket_id address history
  unfolding handle authenticate_as
  bidder_room-Signed history socket_id address (request_nonce payload random) now h =
      absurd (ground arith)
  bidder_room-Signed history socket_id address (authenticate a s m) now h = absurd (ground arith)
  bidder_room-Signed history socket_id address (join_auction id) now h =
      absurd (auction_room-ne-bidder_room id address (ground arith))
  bidder_room-Signed history socket_id address (leave_auction id) now h = cc
  bidder_room-Signed history socket_id address (join_bidder other) now h =
      after-Signed history socket_id address (ground (arith, bidder_room_inj other address))
  bidder_room-Signed history socket_id address (leave_bidder other) now h = cc
  bidder_room-Signed history socket_id address disconnect now h = cc

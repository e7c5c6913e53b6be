-- ===== src/SocketServer.antt =====
-- backend/src/ws/socket_server.ts: socket authentication and rooms. socket.io is not modelled: a
-- handler returns the calls that it makes of it, as `Effect`s. The clock and the random nonce are
-- arguments, `Keypair` is the parameter `verify`, and log lines are left out.
pub mod Rooms
pub mod Nonces
mod Tests
use stellar_urithi_bidz.Prelude.{
  ℕ, ◌+◌, ◌*◌, String, Bool, true, false, ◌&&◌, ◌||◌, List, [], ◌∷◌, Option, none, some, StrMap,
  empty, insert, delete, retain, ltb, leb, str_eq, str_append, if◌then◌else◌,
}
use stellar_urithi_bidz.Auth.{
  Verifier, auth_nonce_max_age_ms, nonce_in, sent_at, is_fresh, auth_prefix, truthy,
  verify_ed25519_signature,
}

pub record ServerNonce : Type 0 where
  pub nonce : String
  pub expires : ℕ

-- `serverNonces` by address, and `authenticatedSockets` by socket
pub record Server : Type 0 where
  pub server_nonces : StrMap ServerNonce
  pub authenticated_sockets : StrMap (List String)

abbrev pub start : Server
start = record { server_nonces = empty; authenticated_sockets = empty }

abbrev pub auction_room : String → String
auction_room auction_id = str_append "auction:" auction_id

abbrev pub bidder_room : String → String
bidder_room address = str_append "bidder:" address

-- The calls of a socket: `emit` with the event's name and fields, `join` and `leave`.
pub data Effect : Type 0 where
  auth_error : String → Effect
  auth_nonce : String → String → Effect
  auth_success : String → Effect
  join leave : String → Effect

-- What a client sends; a missing field is `none`. An auction's id is the text that the template
-- literal makes of it. A nonce request carries the random text that answers it.
pub data Event : Type 0 where
  request_nonce : Option String → String → Event
  authenticate : Option String → Option String → Option String → Event
  join_auction leave_auction join_bidder leave_bidder : String → Event
  disconnect : Event

-- The timer that runs every minute.
unfoldable pub clear_expired : ℕ → Server → Server
clear_expired now server = record server {
  server_nonces = retain (λ entry. leb now entry.expires) server.server_nonces;
}

abbrev includes : String → List String → Bool
includes a [] = false
includes a (x ∷ xs) = str_eq x a || includes a xs

-- `Set.prototype.add`
abbrev add : String → List String → List String
add a xs = if includes a xs then xs else a ∷ xs

abbrev addresses_of : Option (List String) → List String
addresses_of none = []
addresses_of (some addresses) = addresses

unfoldable pub is_authenticated_for : String → String → Server → Bool
is_authenticated_for socket_id address server =
    includes address (addresses_of (server.authenticated_sockets socket_id))

abbrev forget_nonce : String → Server → Server
forget_nonce address server = record server { server_nonces = delete address server.server_nonces }

abbrev missing_fields : String
missing_fields = "Missing address, signature, or message"

module _ (verify : Verifier) where
  -- The nonce against the entry of `serverNonces`, if there is one: the server after the check, and
  -- whether the signature is to be verified.
  unfoldable pub check_nonce : String → String → ℕ → Server → Server × Bool
  check_nonce address nonce now server = elim (server.server_nonces address) [
    | some entry ↦
        if ltb entry.expires now
        then (forget_nonce address server, false)
        else if str_eq nonce entry.nonce
        then (forget_nonce address server, true)
        else (server, false)
    | none ↦ (server, elim (sent_at nonce) [ none ↦ false | some nonce_ms ↦ is_fresh now nonce_ms ])
  ]

  unfoldable pub verify_stellar_signature : String → String → String → ℕ → Server → Server × Bool
  verify_stellar_signature address message signature now server = elim (nonce_in message) [
    | none ↦ (server, false)
    | some nonce ↦
        if str_eq nonce ""
        then (server, false)
        else let (server', go) = check_nonce address nonce now server in
          (server', go && verify_ed25519_signature verify address message signature)
  ]

  -- `authenticate`, once its three fields are there.
  unfoldable pub authenticate_as :
      String → String → String → String → ℕ → Server → Server × List Effect
  authenticate_as socket_id address signature message now server =
      let (server', valid) = verify_stellar_signature address message signature now server in
      if valid
      then (
        record server' {
          authenticated_sockets =
              insert socket_id
                (add address (addresses_of (server'.authenticated_sockets socket_id)))
                server'.authenticated_sockets;
        },
        auth_success address ∷ [],
      )
      else (server', auth_error "Invalid signature" ∷ [])

  -- The handlers of `io.on("connection", …)` for one socket.
  unfoldable pub handle : String → Event → ℕ → Server → Server × List Effect
  handle socket_id (request_nonce payload random) now server = elim (truthy payload) [
    | none ↦ (server, auth_error "Missing address" ∷ [])
    | some address ↦ (
      record server {
        server_nonces =
            insert address (record { nonce = random; expires = now + auth_nonce_max_age_ms })
              server.server_nonces;
      },
      auth_nonce random (str_append auth_prefix random) ∷ [],
    )
  ]
  handle socket_id (authenticate payload_address payload_signature payload_message) now server =
      elim (truthy payload_address) [
        | none ↦ (server, auth_error missing_fields ∷ [])
        | some address ↦ elim (truthy payload_signature) [
          | none ↦ (server, auth_error missing_fields ∷ [])
          | some signature ↦ elim (truthy payload_message) [
            | none ↦ (server, auth_error missing_fields ∷ [])
            | some message ↦ authenticate_as socket_id address signature message now server
          ]
        ]
      ]
  handle socket_id (join_auction auction_id) now server =
      (server, join (auction_room auction_id) ∷ [])
  handle socket_id (leave_auction auction_id) now server =
      (server, leave (auction_room auction_id) ∷ [])
  handle socket_id (join_bidder address) now server =
      if is_authenticated_for socket_id address server
      then (server, join (bidder_room address) ∷ [])
      else (server, auth_error "Authentication required. Send authenticate event first." ∷ [])
  handle socket_id (leave_bidder address) now server = (server, leave (bidder_room address) ∷ [])
  handle socket_id disconnect now server =
      (record server { authenticated_sockets = delete socket_id server.authenticated_sockets }, [])

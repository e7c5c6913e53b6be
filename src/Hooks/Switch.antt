-- ===== src/Hooks/Switch.antt =====
-- frontend/src/hooks/useWebSocket.ts with backend/src/ws/socket_server.ts: the wallet changes while a
-- socket is being authenticated.
use stellar_urithi_bidz.Prelude.{
  ℕ, ◌+◌, ◌≤◌, String, str_append, true, false, List, [], ◌∷◌, ◌++◌, Option, none, some, ◌≡◌, ◌≢◌,
  refl, ap, ◌∙◌, arith, Bool-cases, inl, inr, str_eq_refl,
}
use stellar_urithi_bidz.Values.{text, decimal}
use stellar_urithi_bidz.Auth.{Verifier, auth_prefix, auth_nonce_max_age_ms, clock_skew_ms}
use stellar_urithi_bidz.SocketServer.{
  Server, Event, Effect, auth_error, auth_nonce, auth_success, join, leave,
  join_auction as on_join_auction, leave_auction as on_leave_auction, join_bidder as on_join_bidder,
  authenticate as on_authenticate, authenticate_as, is_authenticated_for, handle,
}
use stellar_urithi_bidz.SocketServer.Rooms.{authenticate_as-adds}
use stellar_urithi_bidz.Hooks.{
  Sent, join_auction, leave_auction, join_bidder, authenticate, BidderHook, hear_bidder,
  is_socket_authenticated, authenticate_socket,
}
use stellar_urithi_bidz.Hooks.SignIn.{
  handle-authenticate, message-ne-nil, nonce_in-decimal, sign_in_accepted,
}

abbrev pub required : String
required = "Authentication required. Send authenticate event first."

still_unknown :
    (verify : Verifier) (socket_id a b signature message : String) (now : ℕ) (server : Server)
    → a ≢ b
    → is_authenticated_for socket_id b server ≡ false
    → is_authenticated_for socket_id b
        (authenticate_as verify socket_id a signature message now server).0
      ≡ false
still_unknown verify socket_id a b signature message now server other unknown =
    elim (Bool-cases (
      is_authenticated_for socket_id b
        (authenticate_as verify socket_id a signature message now server).0)) [
          | inl known ↦
              elim (authenticate_as-adds verify socket_id a signature message now server socket_id b
                known) [
                  | inl before ↦ absurd (ground (arith, before, unknown))
                  | inr (_, same, _) ↦ absurd (other same)
                ]
          | inr e ↦ e
        ]

-- A message of the hooks as the event that the server gets
unfoldable pub event_of : Sent → Event
unfolding decimal
event_of (join_auction auction_id) = on_join_auction (decimal auction_id)
event_of (leave_auction auction_id) = on_leave_auction (decimal auction_id)
event_of (join_bidder address) = on_join_bidder address
event_of (authenticate address signature message) =
    on_authenticate (some address) (some signature) (some message)

-- What the server emits to the socket, at the listeners of the hook: rooms are the server's alone.
unfoldable pub hear_effect : String → String → Effect → BidderHook → BidderHook × List Sent
unfolding hear_bidder
hear_effect address socket_id (auth_error error) hook =
    hear_bidder address socket_id "auth:error" (("error", text error) ∷ []) hook
hear_effect address socket_id (auth_nonce nonce_address nonce) hook =
    hear_bidder address socket_id "auth:nonce"
      (("address", text nonce_address) ∷ ("nonce", text nonce) ∷ []) hook
hear_effect address socket_id (auth_success signed_in) hook =
    hear_bidder address socket_id "auth:success" (("address", text signed_in) ∷ []) hook
hear_effect address socket_id (join room) hook = (hook, [])
hear_effect address socket_id (leave room) hook = (hook, [])

unfoldable pub hear_effects : String → String → List Effect → BidderHook → BidderHook × List Sent
unfolding hear_effect
hear_effects address socket_id [] hook = (hook, [])
hear_effects address socket_id (effect ∷ effects) hook =
    let (heard, sent) = hear_effect address socket_id effect hook in
    let (hook', others) = hear_effects address socket_id effects heard in (hook', sent ++ others)

-- A hook that is mounted for `b` when the server's answer to a sign-in of `a` arrives
answered_for_other :
    (a b socket_id : String) (effects : List Effect) (hook : BidderHook)
    → effects ≡ auth_success a ∷ []
    → hear_effects b socket_id effects hook ≡ (
      record hook { is_authenticated = true; cached_auth = some (b, socket_id) },
      join_bidder b ∷ [],
    )
unfolding hear_effects hear_effect hear_bidder
answered_for_other a b socket_id effects hook e = rw e refl

join_refused :
    (verify : Verifier) (socket_id b : String) (later : ℕ) (server : Server)
    → is_authenticated_for socket_id b server ≡ false
    → handle verify socket_id (event_of (join_bidder b)) later server
      ≡ (server, auth_error required ∷ [])
unfolding event_of handle
join_refused verify socket_id b later server unknown = ground arith

still_cached :
    (b socket_id : String) (hook : BidderHook) (effects : List Effect)
    → effects ≡ auth_error required ∷ []
    → hook.cached_auth ≡ some (b, socket_id)
    → is_socket_authenticated b (some socket_id) (hear_effects b socket_id effects hook).0 ≡ true
unfolding hear_effects hear_effect hear_bidder is_socket_authenticated
still_cached b socket_id hook effects e cached =
    rw (e, hear_effects, cached, str_eq_refl b, str_eq_refl socket_id) refl

-- The hook signs in as `a`, and the server accepts; but the wallet is at another address `b` by the
-- time this answer arrives, and `b` is not authenticated on the socket. The hook takes the answer for
-- one to `b`, and asks for the room of `b`; the server refuses, and behind this refusal
-- `isSocketAuthenticated` still says that the socket is authenticated for `b`.
pub success_for_other :
    (verify : Verifier) (a b signature : String) (sign_message : String → Option String)
    (socket_id : String) (sent now later : ℕ) (server : Server) (hook : BidderHook)
    → a ≢ b
    → is_authenticated_for socket_id b server ≡ false
    → a ≢ ""
    → signature ≢ ""
    → sign_message (str_append auth_prefix (decimal sent)) ≡ some signature
    → verify a (str_append auth_prefix (decimal sent)) signature ≡ some true
    → server.server_nonces a ≡ none
    → now ≤ sent + auth_nonce_max_age_ms
    → sent ≤ now + clock_skew_ms
    → let message = str_append auth_prefix (decimal sent) in
      let signed =
        handle verify socket_id (event_of (authenticate a signature message)) now server in
      let heard = hear_effects b socket_id signed.1 hook in
      let answer = handle verify socket_id (event_of (join_bidder b)) later signed.0 in
      let refused = hear_effects b socket_id answer.1 heard.0 in
      (authenticate_socket a sent sign_message ≡ authenticate a signature message ∷ [])
      × (heard.1 ≡ join_bidder b ∷ [])
      × (answer.1 ≡ auth_error required ∷ [])
      × (is_authenticated_for socket_id b answer.0 ≡ false)
      × (is_socket_authenticated b (some socket_id) refused.0 ≡ true)
unfolding event_of
success_for_other verify a b signature sign_message socket_id sent now later server hook other
      unknown filled signature_filled signs valid free recent past =
    let message = str_append auth_prefix (decimal sent) in
    let (sends, success, _) =
      sign_in_accepted verify a signature sign_message socket_id sent now server filled
        signature_filled signs valid free recent past in
    let taken =
      handle-authenticate verify socket_id a signature message now server filled signature_filled
        (message-ne-nil message (nonce_in-decimal sent)) in
    let signed = handle verify socket_id (event_of (authenticate a signature message)) now server in
    let unknown_still : is_authenticated_for socket_id b signed.0 ≡ false =
      rw taken (still_unknown verify socket_id a b signature message now server other unknown) in
    let heard = answered_for_other a b socket_id signed.1 hook success in
    let refusal = join_refused verify socket_id b later signed.0 unknown_still in
    (
      sends,
      ap (λ (h : BidderHook × List Sent). h.1) heard,
      ap (λ (r : Server × List Effect). r.1) refusal,
      ap (λ (r : Server × List Effect). is_authenticated_for socket_id b r.0) refusal
          ∙ unknown_still,
      still_cached b socket_id (hear_effects b socket_id signed.1 hook).0 _
          (ap (λ (r : Server × List Effect). r.1) refusal)
          (ap (λ (h : BidderHook × List Sent). h.0.cached_auth) heard),
    )

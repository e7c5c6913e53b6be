-- ===== src/Hooks/Tests.antt =====
-- frontend/src/hooks/useWebSocket.ts: the hooks on concrete events.
use stellar_urithi_bidz.Prelude.{
  eq_iff, str_append, arith, true, false, [], ◌∷◌, some, none, All, ◌≡◌, refl, str_eq,
  if◌then◌else◌,
}
use stellar_urithi_bidz.Values.{undefined, text, number, truth, decimal}
use stellar_urithi_bidz.Indexer.{EventData}
use stellar_urithi_bidz.Broadcast.{on_event, amount_text}
use stellar_urithi_bidz.Hooks.{
  BidderHook, fresh, hear, mount, join_auction, join_bidder, is_socket_authenticated, authenticate,
  authenticate_socket,
}
use stellar_urithi_bidz.Auth.{Verifier, auth_prefix}
use stellar_urithi_bidz.SocketServer.{
  handle, start, auth_success, auth_error, is_authenticated_for, authenticate as on_authenticate,
}
use stellar_urithi_bidz.Hooks.SignIn.{sign_in_accepted}
use stellar_urithi_bidz.Hooks.Switch.{required, event_of, hear_effects, success_for_other}
use stellar_urithi_bidz.Hooks.Delivery.{hear_all, bid_reaches_hook, LeavesOut, broadcasts-LeavesOut}

abbrev offer : EventData
offer key =
    if str_eq key "bidder" then text "GA" else if str_eq key "amount" then number 500 else undefined

abbrev nobody : BidderHook
nobody = record { notification = none; is_authenticated = false; cached_auth = none }

offer_heard : hear_all 7 (on_event "bid_placed" 7 offer) fresh ≡ record fresh {
  latest_bid = some (record {
    auction_id = number 7;
    bidder = text "GA";
    amount = text (amount_text (number 500));
    timestamp = undefined;
    is_winning = truth true;
  });
}
offer_heard = bid_reaches_hook 7 offer fresh

nothing_left : All (LeavesOut 7 "GA" "s1" fresh nobody) (on_event "auction_closed" 7 offer)
nothing_left = broadcasts-LeavesOut "auction_closed" 7 offer "GA" "s1" fresh nobody tt

mounted :
    mount (some 7) true fresh ≡ (record fresh { is_connected = true }, join_auction 7 ∷ [], true)
unfolding mount hear
mounted = refl

first_auction : mount (some 0) true fresh ≡ (fresh, [], false)
unfolding mount hear
first_auction = refl

signs_in :
    authenticate_socket "GA" 17 (λ message. some "sig")
    ≡ authenticate "GA" "sig" "stellar-urithi-bidz-auth:17" ∷ []
unfolding authenticate_socket decimal
signs_in = refl

abbrev on_sig : Verifier
on_sig address message signature = some (str_eq signature "sig")

sign_in_accepted_example :
    let message = str_append auth_prefix (decimal 1000) in
    let (server', effects) =
      handle on_sig "s1" (on_authenticate (some "GA") (some "sig") (some message)) 1500 start in
    (authenticate_socket "GA" 1000 (λ m. some "sig") ≡ authenticate "GA" "sig" message ∷ [])
    × (effects ≡ auth_success "GA" ∷ [])
    × (is_authenticated_for "s1" "GA" server' ≡ true)
sign_in_accepted_example =
    sign_in_accepted on_sig "GA" "sig" (λ m. some "sig") "s1" 1000 1500 start
      (ground (arith, eq_iff "GA" "")) (ground (arith, eq_iff "sig" "")) refl refl refl
      (omega arith) (omega arith)

success_for_other_example :
    let message = str_append auth_prefix (decimal 1000) in
    let signed = handle on_sig "s1" (event_of (authenticate "GA" "sig" message)) 1500 start in
    let heard = hear_effects "GB" "s1" signed.1 nobody in
    let answer = handle on_sig "s1" (event_of (join_bidder "GB")) 1600 signed.0 in
    let refused = hear_effects "GB" "s1" answer.1 heard.0 in
    (authenticate_socket "GA" 1000 (λ m. some "sig") ≡ authenticate "GA" "sig" message ∷ [])
    × (heard.1 ≡ join_bidder "GB" ∷ [])
    × (answer.1 ≡ auth_error required ∷ [])
    × (is_authenticated_for "s1" "GB" answer.0 ≡ false)
    × (is_socket_authenticated "GB" (some "s1") refused.0 ≡ true)
unfolding is_authenticated_for
success_for_other_example =
    success_for_other on_sig "GA" "GB" "sig" (λ m. some "sig") "s1" 1000 1500 1600 start nobody
      (ground (arith, eq_iff "GA" "GB")) refl (ground (arith, eq_iff "GA" ""))
      (ground (arith, eq_iff "sig" "")) refl refl refl (omega arith) (omega arith)

-- ===== src/Hooks.antt =====
-- frontend/src/hooks/useWebSocket.ts: the state of the two hooks and their listeners. An event comes
-- as its name and fields, as the server of Broadcast emits it; a field that is missing is
-- `undefined`. socket.io, the timer of ten seconds and React's order of effects are not modelled.
pub mod Delivery
pub mod SignIn
pub mod Switch
mod Tests
use stellar_urithi_bidz.Prelude.{
  ℕ, String, Bool, true, false, ◌&&◌, List, [], ◌∷◌, Option, none, some, str_eq, str_append, ◌==◌,
  if◌then◌else◌,
}
use stellar_urithi_bidz.Auth.{truthy}
use stellar_urithi_bidz.Values.{Value, undefined, text, number, decimal, to_text}

abbrev pub Fields : Type 0
Fields = List (String × Value)

unfoldable pub field : String → Fields → Value
field name [] = undefined
field name ((key, value) ∷ fields) =
    let rest = field name fields in if str_eq key name then value else rest

pub record BidEvent : Type 0 where
  pub auction_id : Value
  pub bidder : Value
  pub amount : Value
  pub timestamp : Value
  pub is_winning : Value

pub record AuctionClosedEvent : Type 0 where
  pub auction_id : Value
  pub winner : Value
  pub winning_bid : Value
  pub format : Value

pub record AuctionSettledEvent : Type 0 where
  pub auction_id : Value
  pub seller_proceeds : Value
  pub royalty_amount : Value
  pub platform_fee : Value

pub record AuctionExtendedEvent : Type 0 where
  pub auction_id : Value
  pub new_end_time : Value

-- The fields that a reader of each type takes from an event
unfoldable pub bid_event : Fields → BidEvent
unfolding field
bid_event fields = record {
  auction_id = field "auctionId" fields;
  bidder = field "bidder" fields;
  amount = field "amount" fields;
  timestamp = field "timestamp" fields;
  is_winning = field "is_winning" fields;
}

unfoldable pub closed_event : Fields → AuctionClosedEvent
unfolding field
closed_event fields = record {
  auction_id = field "auctionId" fields;
  winner = field "winner" fields;
  winning_bid = field "winningBid" fields;
  format = field "format" fields;
}

unfoldable pub settled_event : Fields → AuctionSettledEvent
unfolding field
settled_event fields = record {
  auction_id = field "auctionId" fields;
  seller_proceeds = field "seller_proceeds" fields;
  royalty_amount = field "royalty_amount" fields;
  platform_fee = field "platform_fee" fields;
}

unfoldable pub extended_event : Fields → AuctionExtendedEvent
unfolding field
extended_event fields = record {
  auction_id = field "auctionId" fields;
  new_end_time = field "newEndTime" fields;
}

-- The state of `useAuctionSocket`
pub record AuctionHook : Type 0 where
  pub is_connected : Bool
  pub latest_bid : Option BidEvent
  pub auction_closed : Option AuctionClosedEvent
  pub auction_settled : Option AuctionSettledEvent
  pub auction_extended : Option AuctionExtendedEvent

abbrev pub fresh : AuctionHook
fresh = record {
  is_connected = false;
  latest_bid = none;
  auction_closed = none;
  auction_settled = none;
  auction_extended = none;
}

-- What the hooks emit
pub data Sent : Type 0 where
  join_auction leave_auction : ℕ → Sent
  join_bidder : String → Sent
  authenticate : String → String → String → Sent

abbrev cancelled_as_closed : ℕ → AuctionClosedEvent
cancelled_as_closed auction_id = record {
  auction_id = number auction_id;
  winner = text "";
  winning_bid = text "0";
  format = text "english";
}

-- The listeners that the effect puts on the socket
unfoldable pub hear : ℕ → String → Fields → AuctionHook → AuctionHook × List Sent
unfolding bid_event closed_event settled_event extended_event
hear auction_id event fields hook =
    if str_eq event "connect"
    then (record hook { is_connected = true }, join_auction auction_id ∷ [])
    else if str_eq event "disconnect"
    then (record hook { is_connected = false }, [])
    else if str_eq event "auction:new_bid"
    then (record hook { latest_bid = some (bid_event fields) }, [])
    else if str_eq event "auction:closed"
    then (record hook { auction_closed = some (closed_event fields) }, [])
    else if str_eq event "auction:settled"
    then (record hook { auction_settled = some (settled_event fields) }, [])
    else if str_eq event "auction:extended"
    then (record hook { auction_extended = some (extended_event fields) }, [])
    else if str_eq event "auction:cancelled"
    then (record hook { auction_closed = some (cancelled_as_closed auction_id) }, [])
    else (hook, [])

-- The effect: nothing for a missing id, which 0 counts as; else the listeners, of which the one for
-- "connect" runs at once on a socket that is connected. The `Bool` is whether they are there.
unfoldable pub mount : Option ℕ → Bool → AuctionHook → AuctionHook × List Sent × Bool
unfolding hear
mount none connected hook = (hook, [], false)
mount (some auction_id) connected hook =
    let (hook', sent) = hear auction_id "connect" [] hook in
    if auction_id == 0
    then (hook, [], false)
    else if connected
    then (hook', sent, true)
    else (hook, [], true)

unfoldable pub unmount : ℕ → List Sent
unmount auction_id = leave_auction auction_id ∷ []

unfoldable pub clear_latest_bid : AuctionHook → AuctionHook
clear_latest_bid hook = record hook { latest_bid = none }

pub record Notification : Type 0 where
  pub kind : String
  pub auction_id : Value
  pub message : String

-- The state of `useBidderSocket`, and the module's `cachedAuth`: an address and a socket's id
pub record BidderHook : Type 0 where
  pub notification : Option Notification
  pub is_authenticated : Bool
  pub cached_auth : Option (String × String)

unfoldable pub refunded_notification : Fields → Notification
unfolding field to_text
refunded_notification fields = record {
  kind = "refunded";
  auction_id = field "auctionId" fields;
  message =
      str_append "You've been refunded "
        (str_append (to_text (field "amount" fields)) " stroops — you were outbid!");
}

unfoldable pub won_notification : Fields → Notification
unfolding field to_text
won_notification fields = record {
  kind = "won";
  auction_id = field "auctionId" fields;
  message = str_append "You won auction #" (
      str_append (to_text (field "auctionId" fields)) (
        str_append " with a bid of "
          (str_append (to_text (field "winningBid" fields)) " stroops!")));
}

-- The listeners of both effects, for an address that is to be authenticated. Those of "connect" start
-- `authenticateSocket`.
unfoldable pub hear_bidder : String → String → String → Fields → BidderHook → BidderHook × List Sent
unfolding refunded_notification won_notification
hear_bidder address socket_id event fields hook =
    if str_eq event "auth:success"
    then (
      record hook { is_authenticated = true; cached_auth = some (address, socket_id) },
      join_bidder address ∷ [],
    )
    else if str_eq event "auth:error"
    then (record hook { is_authenticated = false }, [])
    else if str_eq event "bidder:refunded"
    then (record hook { notification = some (refunded_notification fields) }, [])
    else if str_eq event "bidder:won"
    then (record hook { notification = some (won_notification fields) }, [])
    else (hook, [])

unfoldable pub clear_notification : BidderHook → BidderHook
clear_notification hook = record hook { notification = none }

-- `authenticateSocket` up to its message, for a wallet that signs (`none` where it throws)
unfoldable pub authenticate_socket : String → ℕ → (String → Option String) → List Sent
unfolding decimal
authenticate_socket address now sign_message =
    let message = str_append "stellar-urithi-bidz-auth:" (decimal now) in
    elim (sign_message message) [
      | none ↦ []
      | some signature ↦ authenticate address signature message ∷ []
    ]

-- `doAuth`, on a connection and where the effect starts on a connected socket
unfoldable pub do_auth : String → (String → Option String) → ℕ → Bool → List Sent
unfolding authenticate_socket
do_auth address sign_message now connected =
    if connected then authenticate_socket address now sign_message else []

-- The first effect of `useBidderSocket`: what it sends, and whether it listens
unfoldable pub mount_bidder :
    Option String → Bool → Option (String → Option String) → ℕ → Bool → List Sent × Bool
unfolding do_auth
mount_bidder (some address) true (some sign_message) now connected = elim (truthy (some address)) [
  | none ↦ ([], false)
  | some a ↦ (do_auth a sign_message now connected, true)
]
mount_bidder _ _ _ now connected = ([], false)

-- What settles the promise of `authenticateSocket`: the first of two events and a timer, or a wallet
-- that throws
pub data Settled : Type 0 where
  succeeded errored timed_out not_signed : Settled

abbrev resolved : Settled → Bool
resolved succeeded = true
resolved _ = false

-- `doAuth` behind its `await`
unfoldable pub auth_settled : Settled → BidderHook → BidderHook
auth_settled settled hook = record hook { is_authenticated = resolved settled }

unfoldable pub is_socket_authenticated : String → Option String → BidderHook → Bool
is_socket_authenticated address none hook = false
is_socket_authenticated address (some socket_id) hook = elim hook.cached_auth [
  | none ↦ false
  | some cached ↦
      let (cached_address, cached_socket) = cached in
      str_eq cached_address address && str_eq cached_socket socket_id
]

-- ===== src/Wallet/Signer.antt =====
-- frontend/src/providers/wallet.tsx: the address that the pages act for.
use stellar_urithi_bidz.Prelude.{
  String, Bool, true, false, List, [], ◌∷◌, Option, none, some, ◌≡◌, refl, arith, Result, fail,
  pass, Bool-cases, inl, inr, str_eq,
}
use stellar_urithi_bidz.Auth.{truthy}
use stellar_urithi_bidz.AuctionPage.{signer}
use stellar_urithi_bidz.Wallet.{
  Mock, Provider, Exception, hold, check_mock, request_access, revoke, ask_freighter,
  check_connection, connect_wallet, disconnect_wallet,
}

-- What happens to the provider, with what Freighter answers.
pub data Action : Type 0 where
  on_mount : Result Exception Bool → Result Exception (Option String) → Action
  connect : Result Exception (Unit {0}) → Result Exception (Option String) → Action
  disconnect : Result Exception (Unit {0}) → Action

abbrev pub act : Action → Provider → Provider
act (on_mount freighter given) p = check_connection freighter given p
act (connect access given) p = (connect_wallet access given p).0
act (disconnect allowed) p = (disconnect_wallet allowed p).0

-- The provider after a history, the latest action first; a mock that is there has its address.
abbrev pub after : Option Mock → List Action → Provider
after mock [] = record { address = none; is_connecting = false; is_connected = false; mock = mock }
after mock (action ∷ history) = act action (after mock history)

abbrev HasAddress : Option String → Type 0
HasAddress o = (a : String) × (o ≡ some a) × (str_eq a "" ≡ false)

abbrev pub MockHasAddress : Option Mock → Type 0
MockHasAddress none = Unit
MockHasAddress (some m) = HasAddress m.mock_address

-- The flag and the address go together.
abbrev Agree : Bool → Option String → Type 0
Agree true none = ⊥
Agree true (some a) = str_eq a "" ≡ false
Agree false none = Unit
Agree false (some a) = ⊥

abbrev IsSound : Provider → Type 0
IsSound p = Agree p.is_connected p.address × MockHasAddress p.mock

truthy-filled : (o : Option String) {a : String} → truthy o ≡ some a → str_eq a "" ≡ false
truthy-filled none h = cc
truthy-filled (some s) h = ground arith

hold-IsSound :
    (o : Option String) (p : Provider)
    → ((a : String) → o ≡ some a → str_eq a "" ≡ false)
    → IsSound p
    → IsSound (hold o p)
hold-IsSound none p filled h = h
hold-IsSound (some a) p filled h = (filled a refl, h.1)

ask_freighter-IsSound :
    (freighter : Result Exception Bool) (given : Result Exception (Option String)) (p : Provider)
    → IsSound p
    → IsSound (ask_freighter freighter given p)
ask_freighter-IsSound (fail exception) given p h = h
ask_freighter-IsSound (pass false) given p h = h
ask_freighter-IsSound (pass true) (fail exception) p h = h
ask_freighter-IsSound (pass true) (pass given) p h =
    hold-IsSound (truthy given) p (λ a e. truthy-filled given e) h

-- An address of a mock agrees with the flag.
mock-Agrees : (o : Option String) → HasAddress o → Agree true o
mock-Agrees none (a, given, filled) = absurd (ground arith)
mock-Agrees (some b) (a, given, filled) = ground (arith, given)

check_mock-IsSound :
    (o : Option Mock) (ask : Provider → Provider) (p : Provider)
    → MockHasAddress o
    → IsSound p
    → IsSound (ask p)
    → IsSound (check_mock o ask p)
check_mock-IsSound none ask p mock h asked = asked
check_mock-IsSound (some m) ask p mock h asked = elim (Bool-cases m.mock_connected) [
  | inl e ↦ rw e (mock-Agrees m.mock_address mock, h.1)
  | inr e ↦ rw e asked
]

request_access-IsSound :
    (o : Option Mock) (access : Result Exception (Unit {0}))
    (given : Result Exception (Option String)) (p : Provider)
    → MockHasAddress o
    → IsSound p
    → IsSound (request_access o access given p).0
request_access-IsSound (some m) access given p mock h = (mock-Agrees m.mock_address mock, mock)
request_access-IsSound none (fail exception) given p mock h = h
request_access-IsSound none (pass _) (fail exception) p mock h = h
request_access-IsSound none (pass _) (pass given) p mock h =
    hold-IsSound (truthy given) p (λ a e. truthy-filled given e) h

revoke-IsSound :
    (o : Option Mock) (allowed : Result Exception (Unit {0})) (p : Provider)
    → MockHasAddress o
    → IsSound p
    → IsSound (revoke o allowed p).0
revoke-IsSound (some m) allowed p mock h = (tt, mock)
revoke-IsSound none (fail exception) p mock h = (tt, h.1)
revoke-IsSound none (pass _) p mock h = (tt, h.1)

act-IsSound : (action : Action) (p : Provider) → IsSound p → IsSound (act action p)
unfolding check_connection connect_wallet disconnect_wallet
act-IsSound (on_mount freighter given) p h =
    check_mock-IsSound p.mock (ask_freighter freighter given) p h.1 h
      (ask_freighter-IsSound freighter given p h)
act-IsSound (connect access given) p h = request_access-IsSound p.mock access given p h.1 h
act-IsSound (disconnect allowed) p h = revoke-IsSound p.mock allowed p h.1 h

after-IsSound :
    (mock : Option Mock) (history : List Action)
    → MockHasAddress mock
    → IsSound (after mock history)
after-IsSound mock [] h = (tt, h)
after-IsSound mock (action ∷ history) h =
    act-IsSound action (after mock history) (after-IsSound mock history h)

signer-Agree :
    (flag : Bool) (address : Option String)
    → Agree flag address
    → signer (record { is_connected = flag; address = address }) ≡ address
unfolding signer
signer-Agree true none h = absurd h
signer-Agree true (some a) h = rw h refl
signer-Agree false none h = refl
signer-Agree false (some a) h = absurd h

-- Whatever Freighter answers: a handler of a page acts for the address that the provider holds, and
-- as nobody while it holds none, where a mock of the tests has an address.
pub signer-after :
    (mock : Option Mock) (history : List Action)
    → MockHasAddress mock
    → let p = after mock history in
      signer (record { is_connected = p.is_connected; address = p.address }) ≡ p.address
signer-after mock history h =
    let p = after mock history in
    signer-Agree p.is_connected p.address (after-IsSound mock history h).0

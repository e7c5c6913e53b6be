-- ===== src/Wallet.antt =====
-- frontend/src/providers/wallet.tsx: the connection to Freighter. What each call of Freighter gives is
-- an argument. The state that end-to-end tests put into the window is part of the provider's.
pub mod Signer
mod Tests
use stellar_urithi_bidz.Prelude.{
  ℕ, String, Bool, true, false, List, [], ◌∷◌, Option, none, some, str_eq, if◌then◌else◌, Result,
  fail, pass,
}
use stellar_urithi_bidz.Text.{contains}
use stellar_urithi_bidz.Auth.{truthy}

-- `window.__mockFreighterState`
pub record Mock : Type 0 where
  pub mock_connected : Bool
  pub mock_address : Option String

pub record Provider : Type 0 where
  pub address : Option String
  pub is_connecting : Bool
  pub is_connected : Bool
  pub mock : Option Mock

pub data Toast : Type 0 where
  success error : String → Toast

-- An exception: `none` is one that is no `Error`.
abbrev pub Exception : Type 0
Exception = Option String

abbrev message_or : String → Exception → String
message_or default none = default
message_or default (some message) = message

abbrev connected : Option String → Provider → Provider
connected a p = record p { address = a; is_connected = true }

abbrev disconnected : Provider → Provider
disconnected p = record p { address = none; is_connected = false }

abbrev hold : Option String → Provider → Provider
hold none p = p
hold (some a) p = connected (some a) p

-- `getAddress` after Freighter said that it is connected
abbrev with_address : Result Exception (Option String) → Provider → Provider
with_address (fail exception) p = p
with_address (pass given) p = hold (truthy given) p

abbrev ask_freighter :
    Result Exception Bool → Result Exception (Option String) → Provider → Provider
ask_freighter (fail exception) given p = p
ask_freighter (pass false) given p = p
ask_freighter (pass true) given p = with_address given p

abbrev check_mock : Option Mock → (Provider → Provider) → Provider → Provider
check_mock none ask p = ask p
check_mock (some m) ask p = if m.mock_connected then connected m.mock_address p else ask p

-- `checkConnection`: a mock that is not connected leaves the question to Freighter.
unfoldable pub check_connection :
    Result Exception Bool → Result Exception (Option String) → Provider → Provider
check_connection freighter given p = check_mock p.mock (ask_freighter freighter given) p

abbrev refused : Exception → List Toast
refused exception =
    let message = message_or "Failed to connect wallet" exception in
    if contains "not installed" message
    then error "Please install Freighter wallet extension" ∷ []
    else error message ∷ []

abbrev welcome : Option String → List Toast
welcome none = []
welcome (some a) = success "Wallet connected!" ∷ []

abbrev accessed : Result Exception (Option String) → Provider → Provider × List Toast
accessed (fail exception) p = (p, refused exception)
accessed (pass given) p = (hold (truthy given) p, welcome (truthy given))

-- Freighter is asked where there is no mock.
abbrev request_access :
    Option Mock
    → Result Exception (Unit {0})
    → Result Exception (Option String)
    → Provider
    → Provider × List Toast
request_access (some m) access given p = (
  connected m.mock_address (record p { mock = some (record m { mock_connected = true }) }),
  success "Wallet connected!" ∷ [],
)
request_access none (fail exception) given p = (p, refused exception)
request_access none (pass _) given p = accessed given p

-- `connectWallet`, on what `requestAccess` and `getAddress` give
unfoldable pub connect_wallet :
    Result Exception (Unit {0})
    → Result Exception (Option String)
    → Provider
    → Provider × List Toast
unfolding contains
connect_wallet access given p =
    let (p', toasts) = request_access p.mock access given p in
    (record p' { is_connecting = false }, toasts)

abbrev revoke : Option Mock → Result Exception (Unit {0}) → Provider → Provider × List Toast
revoke (some m) allowed p = (
  disconnected (record p { mock = some (record m { mock_connected = false }) }),
  success "Wallet disconnected" ∷ [],
)
revoke none (fail exception) p = (disconnected p, [])
revoke none (pass _) p = (disconnected p, success "Wallet disconnected" ∷ [])

-- `disconnectWallet`, on what `setAllowed` gives
unfoldable pub disconnect_wallet : Result Exception (Unit {0}) → Provider → Provider × List Toast
disconnect_wallet allowed p = revoke p.mock allowed p

-- `signedMessage`: nothing, a text, a buffer, or what `String` makes of anything else
pub data Signed : Type 0 where
  nothing : Signed
  base64_text : String → Signed
  buffer : List ℕ → Signed
  other : String → Signed

abbrev no_message : Result Exception String × List Toast
no_message = (
  fail (some "No signedMessage returned from Freighter"),
  error "No signedMessage returned from Freighter" ∷ [],
)

-- `signAuthMessage`, on what `signMessage` gives; `base64` is `toString("base64")`.
unfoldable pub sign_auth_message :
    (List ℕ → String) → Result Exception Signed → Result Exception String × List Toast
sign_auth_message base64 (fail exception) =
    (fail exception, error (message_or "Failed to sign message" exception) ∷ [])
sign_auth_message base64 (pass nothing) = no_message
sign_auth_message base64 (pass (base64_text s)) = if str_eq s "" then no_message else (pass s, [])
sign_auth_message base64 (pass (buffer bytes)) = (pass (base64 bytes), [])
sign_auth_message base64 (pass (other s)) = (pass s, [])

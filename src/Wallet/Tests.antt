-- ===== src/Wallet/Tests.antt =====
-- frontend/src/providers/wallet.tsx on concrete answers of Freighter.
use stellar_urithi_bidz.Prelude.{true, [], ◌∷◌, some, none, ◌≡◌, refl, fail, pass, List}
use stellar_urithi_bidz.Wallet.{
  check_connection, connect_wallet, disconnect_wallet, sign_auth_message, buffer, error,
}
use stellar_urithi_bidz.Wallet.Signer.{Action, on_mount, connect, disconnect, after}

abbrev disconnected_visit : List Action
disconnected_visit = disconnect (pass tt) ∷ connect (pass tt) (pass (some "GA")) ∷ []

no_address : (after none disconnected_visit).address ≡ none
unfolding connect_wallet disconnect_wallet
no_address = refl

-- The next check of the connection finds Freighter still connected.
connected_again :
    (after none (on_mount (pass true) (pass (some "GA")) ∷ disconnected_visit)).address ≡ some "GA"
unfolding check_connection connect_wallet disconnect_wallet
connected_again = refl

not_installed :
    (connect_wallet (fail (some "Freighter is not installed")) (fail none) (after none [])).1
    ≡ error "Please install Freighter wallet extension" ∷ []
unfolding connect_wallet
not_installed = refl

signed_buffer : sign_auth_message (λ bytes. "AQ==") (pass (buffer (1 ∷ []))) ≡ (pass "AQ==", [])
unfolding sign_auth_message
signed_buffer = refl

-- ===== src/CreatePage/Tests.antt =====
-- frontend/src/app/create/page.tsx: concrete forms.
use stellar_urithi_bidz.Prelude.{none, some, false, [], ◌∷◌, ◌≡◌, refl, pass}
use stellar_urithi_bidz.Text.{plus, leading_int, parse_digits}
use stellar_urithi_bidz.Database.{sealed_bid}
use stellar_urithi_bidz.Routes.{big_int}
use stellar_urithi_bidz.AuctionPage.{Wallet, signer}
use stellar_urithi_bidz.CreatePage.{
  Form, new_form, CreateParams, digital_item, params_of, seconds_of, deadlines, item_of, sum,
  as_u64, in_order, handle_submit, error, connect_wallet, times_accepted,
}

abbrev sealed_form : Form
sealed_form = record new_form {
  format = sealed_bid;
  reserve_price = "100";
  duration = "20";
  metadata_uri = "ipfs://b";
}

abbrev params : CreateParams
params = record {
  seller = "GA";
  original_creator = "GA";
  format = sealed_bid;
  item = digital_item "CT" 1;
  payment_token = "CT";
  reserve_price = 100;
  royalty_bps = some (plus 500);
  start_time = 61;
  end_time = plus 72061;
  metadata_uri = "ipfs://b";
  min_increment = 0;
  start_price = 0;
  price_decay_per_second = 0;
  commit_deadline = plus 43261;
  reveal_deadline = plus 86461;
  max_bidders = 50;
}

-- Twenty hours are too few for twelve to commit and twelve to reveal.
too_short : times_accepted params ≡ false
unfolding times_accepted as_u64 in_order
too_short = refl

-- An hour less than none reaches the contract as a deadline before the start.
negative_hours :
    params_of "CT" 7200000 "GA" (record sealed_form { commit_duration = "-1" })
    ≡ pass (record params {
      start_time = 7260;
      end_time = plus 79260;
      commit_deadline = plus 3660;
      reveal_deadline = plus 46860;
    })
unfolding params_of seconds_of deadlines item_of sum leading_int big_int parse_digits
negative_hours = refl

abbrev nobody : Wallet
nobody = record { is_connected = false; address = none }

no_wallet_yet :
    handle_submit (λ p. pass "h") "CT" 1000 nobody sealed_form
    ≡ (sealed_form, error "Connect your wallet to create an auction" ∷ connect_wallet ∷ [])
unfolding handle_submit signer
no_wallet_yet = refl

-- ===== src/Database/Analytics.antt =====
-- backend/src/db/index.ts: `getAnalytics`. COUNT and SUM are sums over the rows of the table; a row
-- of a NUMERIC column is a text of digits. The four queries read one state of the table.
pub mod Moves
mod Tests
use stellar_urithi_bidz.Prelude.{
  ℕ, ◌+◌, String, Bool, true, false, List, [], ◌∷◌, Option, none, some, if◌then◌else◌,
}
use stellar_urithi_bidz.Text.{parse_digits}
use stellar_urithi_bidz.Values.{decimal}
use stellar_urithi_bidz.Database.{AuctionRecord, Status, active, settled}

pub record Analytics : Type 0 where
  pub total_auctions : ℕ
  pub total_volume : String
  pub active_auctions : ℕ
  pub settled_auctions : ℕ

abbrev pub sum_of : (AuctionRecord → ℕ) → List AuctionRecord → ℕ
sum_of weight [] = 0
sum_of weight (row ∷ rows) = weight row + sum_of weight rows

abbrev pub is_active : Status → Bool
is_active active = true
is_active _ = false

abbrev pub is_settled : Status → Bool
is_settled settled = true
is_settled _ = false

abbrev pub one : AuctionRecord → ℕ
one row = 1

-- `WHERE status='active'` and `WHERE status='settled'`
abbrev pub one_active : AuctionRecord → ℕ
one_active row = if is_active row.status then 1 else 0

abbrev pub one_settled : AuctionRecord → ℕ
one_settled row = if is_settled row.status then 1 else 0

unfoldable pub amount_of : String → ℕ
amount_of text = elim (parse_digits text) [ none ↦ 0 | some n ↦ n ]

-- A row's part of `SUM(highest_bid)`
abbrev pub volume : AuctionRecord → ℕ
volume row = if is_settled row.status then amount_of row.highest_bid else 0

unfoldable pub get_analytics : List AuctionRecord → Analytics
get_analytics rows = record {
  total_auctions = sum_of one rows;
  total_volume = decimal (sum_of volume rows);
  active_auctions = sum_of one_active rows;
  settled_auctions = sum_of one_settled rows;
}

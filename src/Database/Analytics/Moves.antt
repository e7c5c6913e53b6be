-- ===== src/Database/Analytics/Moves.antt =====
-- backend/src/db/index.ts: what a settlement and a late bid do to the analytics, and that the order of
-- the rows does not matter.
use mathlib.Core.List.{Permᴰ}
use mathlib.Core.Quot
use text.Mathlib.TextEquality.{IsScalar-prop}
use mathlib.Core.Quot.{Quot}
use stellar_urithi_bidz.Prelude.{
  ℕ, ◌+◌, ◌==◌, String, Bool, true, false, List, [], ◌∷◌, Option, none, some, ◌≡◌, refl, ap, arith,
  some-injective, Bool-cases, inl, inr, if◌then◌else◌,
}
use stellar_urithi_bidz.Values.{Value, decimal}
use stellar_urithi_bidz.Database.{
  AuctionRecord, Database, Statement, settle, set_highest, effect, update, has_auction, active,
  coalesce, outbid_bids, query, update_auction_on_bid, settled,
}
use stellar_urithi_bidz.Database.Keys.{DistinctIds}
use stellar_urithi_bidz.Database.Analytics.{
  Analytics, sum_of, one, one_active, one_settled, volume, amount_of, is_settled, get_analytics,
}

-- The row of an auction
abbrev pub row_of : ℕ → List AuctionRecord → Option AuctionRecord
row_of id [] = none
row_of id (row ∷ rows) = let later = row_of id rows in if row.id == id then some row else later

update-absent :
    (weight : AuctionRecord → ℕ) (id : ℕ) (change : AuctionRecord → AuctionRecord)
    (rows : List AuctionRecord)
    → has_auction id rows ≡ false
    → sum_of weight (update (λ row. row.id == id) change rows) ≡ sum_of weight rows
update-absent weight id change [] h = refl
update-absent weight id change (row ∷ rows) h = ground (arith, update-absent weight id change rows)

-- An update of one row exchanges its weight.
sum_of-update :
    (weight : AuctionRecord → ℕ) (id : ℕ) (change : AuctionRecord → AuctionRecord)
    (row : AuctionRecord) (rows : List AuctionRecord)
    → DistinctIds rows
    → row_of id rows ≡ some row
    → sum_of weight (update (λ r. r.id == id) change rows) + weight row
      ≡ sum_of weight rows + weight (change row)
sum_of-update weight id change row [] d h = absurd (ground arith)
sum_of-update weight id change row (first ∷ rows) d h = elim (Bool-cases (first.id == id)) [
  | inl here ↦
      let same : first ≡ row = some-injective (rw here at h) in
      let absent : has_auction id rows ≡ false = ground (arith, here, d.0) in
      ground (
        arith,
        here,
        ap weight same,
        ap (λ r. weight (change r)) same,
        update-absent weight id change rows absent,
      )
  | inr later ↦
      let ih = sum_of-update weight id change row rows d.1 (rw later at h) in
      ground (arith, later, ih)
]

sum_of-Perm :
    (weight : AuctionRecord → ℕ) {xs ys : List AuctionRecord}
    → Permᴰ xs ys
    → sum_of weight xs ≡ sum_of weight ys
sum_of-Perm weight Permᴰ.nil = refl
sum_of-Perm weight (Permᴰ.cons {a} {b} same p) = omega (arith, ap weight same, sum_of-Perm weight p)
sum_of-Perm weight (Permᴰ.swap {a} {b} same same') = omega (arith, ap weight same, ap weight same')
sum_of-Perm weight (Permᴰ.trans p q) = omega (arith, sum_of-Perm weight p, sum_of-Perm weight q)

-- A table, whose rows have no order
abbrev pub Table : Type 0
Table = Quot (Permᴰ {A = AuctionRecord})

get_analytics-Perm :
    (xs ys : List AuctionRecord) → Permᴰ xs ys → get_analytics xs ≡ get_analytics ys
unfolding get_analytics
get_analytics-Perm xs ys p =
    rw
      (sum_of-Perm one p, sum_of-Perm volume p, sum_of-Perm one_active p, sum_of-Perm one_settled p)
      refl

-- The order in which the rows are listed does not matter: the analytics are a function of the table.
pub analytics_of_table :
    (analytics : Table → Analytics) × ((rows : List AuctionRecord)
      → analytics (Quot.mk rows) ≡ get_analytics rows)
analytics_of_table =
    (Quot.lift (hlevel (IsScalar-prop)) get_analytics get_analytics-Perm, λ rows. refl)

abbrev settled_row : Option String → Option String → Option String → AuctionRecord → AuctionRecord
settled_row proceeds royalty fee row = record row {
  status = settled;
  seller_proceeds = coalesce proceeds row.seller_proceeds;
  royalty_amount = coalesce royalty row.royalty_amount;
  platform_fee_amount = coalesce fee row.platform_fee_amount;
  settled_at = true;
}

-- What counts of a row that a settlement changes: nothing of one that is settled already
abbrev pub newly : AuctionRecord → ℕ → ℕ
newly row n = if is_settled row.status then 0 else n

-- A settlement of an auction that is there adds it to the settled ones and its highest bid to the
-- volume, once: where it is settled already, neither changes. It takes an active auction from the
-- active ones, and the number of auctions stays.
pub settle_moves :
    (db : Database) (id : ℕ) (row : AuctionRecord) (proceeds royalty fee : Option String)
    → DistinctIds db.auctions
    → row_of id db.auctions ≡ some row
    → let after = get_analytics (effect (settle id proceeds royalty fee) db).auctions in
      let before = get_analytics db.auctions in
      (after.total_auctions ≡ before.total_auctions)
      × (after.settled_auctions ≡ before.settled_auctions + newly row 1)
      × (after.active_auctions + one_active row ≡ before.active_auctions)
      × (after.total_volume
          ≡ decimal (sum_of volume db.auctions + newly row (amount_of row.highest_bid)))
unfolding get_analytics effect
settle_moves db id row proceeds royalty fee d h =
    let moved = λ (weight : AuctionRecord → ℕ).
      sum_of-update weight id (settled_row proceeds royalty fee) row db.auctions d h in
    (
      omega (arith, moved one),
      ground (arith, moved one_settled),
      omega (arith, moved one_active),
      ap decimal (ground (arith, moved volume)),
    )

abbrev highest_row : Value → String → AuctionRecord → AuctionRecord
highest_row bidder amount row = record row {
  highest_bidder = bidder;
  highest_bid = amount;
  status = active;
}

bid_auctions :
    (accepts : Statement → Bool) (db : Database) (id : ℕ) (bidder : Value) (amount : String)
    → accepts (outbid_bids id) ≡ true
    → accepts (set_highest id bidder amount) ≡ true
    → (update_auction_on_bid accepts id bidder amount db).0.auctions
      ≡ update (λ r. r.id == id) (highest_row bidder amount) db.auctions
unfolding update_auction_on_bid query effect
bid_auctions accepts db id bidder amount a b = rw (query, a, b) refl

-- A bid that is handled after the settlement, and whose two statements are accepted, makes the
-- auction active: it is no longer counted as settled, and its highest bid leaves the volume.
pub late_bid_reopens :
    (accepts : Statement → Bool) (db : Database) (id : ℕ) (row : AuctionRecord) (bidder : Value)
    (amount : String)
    → accepts (outbid_bids id) ≡ true
    → accepts (set_highest id bidder amount) ≡ true
    → DistinctIds db.auctions
    → row_of id db.auctions ≡ some row
    → row.status ≡ settled
    → let after = get_analytics (update_auction_on_bid accepts id bidder amount db).0.auctions in
      let before = get_analytics db.auctions in
      (after.settled_auctions + 1 ≡ before.settled_auctions)
      × (after.active_auctions ≡ before.active_auctions + 1)
      × ((v : ℕ) × (before.total_volume ≡ decimal (v + amount_of row.highest_bid))
          × (after.total_volume ≡ decimal v))
unfolding get_analytics
late_bid_reopens accepts db id row bidder amount a b d h settled_before =
    let moved = λ (weight : AuctionRecord → ℕ).
      sum_of-update weight id (highest_row bidder amount) row db.auctions d h in
    let rows = bid_auctions accepts db id bidder amount a b in
    rw rows (
      ground (arith, moved one_settled, settled_before),
      ground (arith, moved one_active, settled_before),
      (
        sum_of volume (update (λ r. r.id == id) (highest_row bidder amount) db.auctions),
        ap decimal (ground (arith, moved volume, settled_before)),
        refl,
      ),
    )

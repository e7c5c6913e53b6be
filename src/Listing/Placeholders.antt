-- ===== src/Listing/Placeholders.antt =====
-- backend/src/db/index.ts: which value a placeholder stands for.
use stellar_urithi_bidz.Prelude.{
  ℕ, ◌+◌, String, List, [], ◌∷◌, ◌++◌, append_assoc, append-nil, length, Option, none, some, ◌≡◌,
  sym, refl, ◌∙◌, arith,
}
use stellar_urithi_bidz.Values.{Value, text, number}
use stellar_urithi_bidz.Auth.{truthy}
use stellar_urithi_bidz.Listing.{
  AuctionFilter, BidFilter, Builder, no_conditions, placeholder, push, add_condition, SqlQuery,
  condition, number_or, select_from, paged, get_auctions, get_bid_history,
}

-- The filters that are there and not empty
abbrev pub given : List (String × Option String) → List (String × String)
given [] = []
given (f ∷ fs) = let (column, value) = f in push column (truthy value) (given fs)

-- Each column with the number of its place, from `i` on
abbrev pub numbered : ℕ → List (String × String) → List String
numbered i [] = []
numbered i (f ∷ fs) = let (column, value) = f in placeholder column i ∷ numbered (i + 1) fs

abbrev pub texts : List (String × String) → List Value
texts [] = []
texts (f ∷ fs) = let (column, value) = f in text value ∷ texts fs

-- All the conditions, the first filter first
abbrev conditions : List (String × Option String) → Builder → Builder
conditions [] b = b
conditions (f ∷ fs) b = let (column, value) = f in conditions fs (condition column value b)

-- What `done` adds to `b`
abbrev Adds : Builder → List (String × String) → Builder → Type 0
Adds b filters done =
    (done.conds ≡ b.conds ++ numbered b.i filters)
    × (done.vals ≡ b.vals ++ texts filters)
    × (done.i ≡ b.i + length filters)

add_condition-Adds :
    (column : String) (o : Option String) (b : Builder) (rest : List (String × String))
    (done : Builder)
    → Adds (add_condition column o b) rest done
    → Adds b (push column o rest) done
add_condition-Adds column none b rest done h = h
add_condition-Adds column (some v) b rest done (conds, vals, i) = (
  conds ∙ append_assoc b.conds (placeholder column b.i ∷ []) (numbered (b.i + 1) rest),
  vals ∙ append_assoc b.vals (text v ∷ []) (texts rest),
  omega (arith, i),
)

conditions-Adds :
    (filters : List (String × Option String)) (b : Builder)
    → Adds b (given filters) (conditions filters b)
unfolding condition
conditions-Adds [] b = (sym (append-nil b.conds), sym (append-nil b.vals), omega arith)
conditions-Adds ((column, value) ∷ filters) b =
    add_condition-Adds column (truthy value) b (given filters)
      (conditions filters (add_condition column (truthy value) b))
      (conditions-Adds filters (add_condition column (truthy value) b))

-- The query on the filters that are given, and its values
abbrev pub Matches :
    String → List (String × Option String) → Option ℕ → Option ℕ → SqlQuery → Type 0
Matches table filters limit offset statement =
    let found = given filters in
    (statement.sql ≡ select_from table (numbered 1 found) (1 + length found))
    × (statement.values
        ≡ texts found ++ number (number_or 50 limit) ∷ number (number_or 0 offset) ∷ [])

paged-Matches :
    (table : String) (filters : List (String × Option String)) (limit offset : Option ℕ)
    → Matches table filters limit offset
        (paged table (conditions filters no_conditions) limit offset)
unfolding paged
paged-Matches table filters limit offset =
    let (conds, vals, i) = conditions-Adds filters no_conditions in rw (conds, vals, i) (refl, refl)

-- Both queries for a page of a list: the conditions are those of the filters that are present and
-- not empty, in their order, the placeholder of each stands for its value, and the last two
-- placeholders are the limit, 50 where it is missing or 0, and the offset.
pub pages-Matches :
    (auctions : AuctionFilter) (bids : BidFilter)
    → Matches "auctions"
        (("status", auctions.status)
          ∷ ("format", auctions.format)
          ∷ ("seller", auctions.seller)
          ∷ [])
        auctions.limit
        auctions.offset
        (get_auctions auctions)
      × Matches "bids" (("bidder", bids.bidder) ∷ []) bids.limit bids.offset (get_bid_history bids)
unfolding get_auctions get_bid_history
pages-Matches auctions bids = (
  paged-Matches "auctions"
      (("status", auctions.status) ∷ ("format", auctions.format) ∷ ("seller", auctions.seller) ∷ [])
      auctions.limit auctions.offset,
  paged-Matches "bids" (("bidder", bids.bidder) ∷ []) bids.limit bids.offset,
)

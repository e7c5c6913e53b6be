-- ===== src/Database.antt =====
-- backend/src/db/index.ts: the tables and the statements that write to them. A statement is a
-- constructor with the values that the source passes. PostgreSQL itself is the parameter `accepts`:
-- whether it takes the values (column types, CHECK constraints, the connection). Foreign keys, the
-- primary key of `auctions` and the unique index of `events` are modelled. The serial `id` and
-- `created_at` of a row are its place in the list; `settled_at` is whether it is set.
mod Tables
pub mod Keys
pub mod Analytics
use stellar_urithi_bidz.Prelude.{
  ℕ, String, Bool, true, false, ◌&&◌, ◌||◌, not, List, [], ◌∷◌, ◌++◌, Option, none, some, map,
  StrMap, str_eq, ◌==◌, if◌then◌else◌, Result, fail, pass,
}
use stellar_urithi_bidz.Values.{Value}
pub use Tables.*

-- `UPDATE … WHERE`
abbrev pub update {ℓ} : {A : Type ℓ} → (A → Bool) → (A → A) → List A → List A
update where_ change = map (λ row. if where_ row then change row else row)

abbrev pub any {ℓ} : {A : Type ℓ} → (A → Bool) → List A → Bool
any p [] = false
any p (x ∷ xs) = p x || any p xs

abbrev pub has_auction : ℕ → List AuctionRecord → Bool
has_auction id = any (λ row. row.id == id)

-- The columns of the unique index `idx_events_dedup`.
abbrev pub same_event : EventRecord → EventRecord → Bool
same_event e f =
    (e.ledger_sequence == f.ledger_sequence)
    && (str_eq e.event_type f.event_type && (e.auction_id == f.auction_id))

-- Equality of `bidder` in `WHERE … bidder = $2`: NULL equals nothing.
abbrev pub same_value : Value → Value → Bool
same_value (Value.text a) (Value.text b) = str_eq a b
same_value (Value.number a) (Value.number b) = a == b
same_value _ _ = false

-- `DO UPDATE SET` of the columns that the source lists; `settled_at` is not among the inserted
-- values, so EXCLUDED holds NULL for it.
abbrev pub overwrite : AuctionRecord → AuctionRecord → AuctionRecord
overwrite excluded row = record row {
  status = excluded.status;
  highest_bidder = excluded.highest_bidder;
  highest_bid = excluded.highest_bid;
  current_dutch_price = excluded.current_dutch_price;
  attested = excluded.attested;
  seller_proceeds = excluded.seller_proceeds;
  royalty_amount = excluded.royalty_amount;
  platform_fee_amount = excluded.platform_fee_amount;
  settled_at = false;
}

-- `COALESCE($1, column)`
abbrev pub coalesce {ℓ} : {A : Type ℓ} → Option A → Option A → Option A
coalesce none old = old
coalesce (some a) old = some a

-- What a statement does to the tables, its constraints apart.
unfoldable pub effect : Statement → Database → Database
effect (upsert_auction auction) db = record db {
  auctions =
      if has_auction auction.id db.auctions
      then update (λ row. row.id == auction.id) (overwrite auction) db.auctions
      else db.auctions ++ record auction { settled_at = false } ∷ [];
}
effect (outbid_bids id) db = record db {
  bids =
      update (λ bid. (bid.auction_id == id) && bid.is_winning)
        (λ bid. record bid { is_winning = false }) db.bids;
}
effect (set_highest id bidder amount) db = record db {
  auctions =
      update (λ row. row.id == id)
        (λ row. record row { highest_bidder = bidder; highest_bid = amount; status = active })
        db.auctions;
}
effect (close_with id status bidder amount) db = record db {
  auctions =
      update (λ row. row.id == id)
        (λ row. record row {
          status = status;
          highest_bidder = Value.text bidder;
          highest_bid = amount;
        })
        db.auctions;
}
effect (close_bare id status) db = record db {
  auctions = update (λ row. row.id == id) (λ row. record row { status = status }) db.auctions;
}
effect (settle id proceeds royalty fee) db = record db {
  auctions =
      update (λ row. row.id == id)
        (λ row. record row {
          status = settled;
          seller_proceeds = coalesce proceeds row.seller_proceeds;
          royalty_amount = coalesce royalty row.royalty_amount;
          platform_fee_amount = coalesce fee row.platform_fee_amount;
          settled_at = true;
        })
        db.auctions;
}
effect (cancel id) db = record db {
  auctions = update (λ row. row.id == id) (λ row. record row { status = cancelled }) db.auctions;
}
effect (attest id hash) db = record db {
  auctions =
      update (λ row. row.id == id) (λ row. record row { attested = true; attestation_hash = hash })
        db.auctions;
}
effect (mark_refunded id bidder) db = record db {
  bids =
      update (λ bid. (bid.auction_id == id) && same_value bid.bidder bidder)
        (λ bid. record bid { refunded = true; is_winning = false }) db.bids;
}
effect (insert_bid bid) db = record db { bids = db.bids ++ record bid { refunded = false } ∷ [] }
effect (insert_event event) db = record db {
  events = if any (same_event event) db.events then db.events else db.events ++ event ∷ [];
}
effect (save_cursor ledger) db = record db { last_ledger = ledger }

-- `bids.auction_id REFERENCES auctions(id)`
abbrev pub keeps_foreign_key : Statement → Database → Bool
keeps_foreign_key (insert_bid bid) db = has_auction bid.auction_id db.auctions
keeps_foreign_key _ db = true

-- `value || null`
abbrev pub or_null : Option String → Option String
or_null none = none
or_null (some s) = if str_eq s "" then none else some s

-- An action on the database; what it did before it failed stays done.
abbrev pub Action : Type 0
Action = Database → Database × Result DatabaseError (Unit {0})

abbrev pub done : Action
done db = (db, pass tt)

infixl 5 ◌>>◌
abbrev pub ◌>>◌ : Action → Action → Action
◌>>◌ first next db =
    let (db', outcome) = first db in elim outcome [ fail e ↦ (db', fail e) | pass _ ↦ next db' ]

module _ (accepts : Statement → Bool) where
  -- `pool.query`
  unfoldable pub query : Statement → Action
  query statement db =
      if accepts statement
      then if keeps_foreign_key statement db
        then (effect statement db, pass tt)
        else (db, fail foreign_key)
      else (db, fail not_accepted)

  -- BEGIN … COMMIT, and ROLLBACK where a statement fails
  abbrev pub transaction : Action → Action
  transaction body db =
      let (db', outcome) = body db in
      elim outcome [ fail e ↦ (db, fail e) | pass _ ↦ (db', pass tt) ]

  unfoldable pub update_auction_on_bid : ℕ → Value → String → Action
  update_auction_on_bid id bidder amount =
      transaction (query (outbid_bids id) >> query (set_highest id bidder amount))

  -- `if (highestBidder && highestBid)`, for texts that the handler leaves out where empty
  unfoldable pub update_auction_on_close : ℕ → Status → Option String → Option String → Action
  update_auction_on_close id status (some bidder) (some amount) = query (
      if not (str_eq bidder "") && not (str_eq amount "")
      then close_with id status bidder amount
      else close_bare id status)
  update_auction_on_close id status _ _ = query (close_bare id status)

  abbrev pub update_auction_on_settle : ℕ → Option String → Option String → Option String → Action
  update_auction_on_settle id proceeds royalty fee =
      query (settle id (or_null proceeds) (or_null royalty) (or_null fee))

-- ===== src/Database/Keys.antt =====
-- backend/src/db/index.ts: primary key, unique index and foreign key over every statement.
use stellar_urithi_bidz.Prelude.{
  ℕ, Bool, true, false, ◌||◌, List, [], ◌∷◌, ◌++◌, eq_iff, ◌==◌, ◌≡◌, refl, inl, inr, arith,
  Bool-cases,
}
use stellar_urithi_bidz.Database.{
  AuctionRecord, BidRecord, EventRecord, Database, Statement, upsert_auction, outbid_bids,
  set_highest, close_with, close_bare, settle, cancel, attest, mark_refunded, insert_bid,
  insert_event, save_cursor, update, any, has_auction, same_event, effect, Action, ◌>>◌, query,
  transaction, keeps_foreign_key, overwrite,
}

-- No two auctions have one id.
abbrev pub DistinctIds : List AuctionRecord → Type 0
DistinctIds [] = Unit {0}
DistinctIds (row ∷ rows) = (has_auction row.id rows ≡ false) × DistinctIds rows

-- No two events have one ledger, type and auction.
abbrev pub DistinctEvents : List EventRecord → Type 0
DistinctEvents [] = Unit {0}
DistinctEvents (e ∷ es) = (any (same_event e) es ≡ false) × DistinctEvents es

abbrev pub References : List AuctionRecord → List BidRecord → Type 0
References rows [] = Unit {0}
References rows (bid ∷ bids) = (has_auction bid.auction_id rows ≡ true) × References rows bids

pub record IsConsistent (db : Database) : Type 0 where
  pub ids : DistinctIds db.auctions
  pub references : References db.auctions db.bids
  pub events : DistinctEvents db.events

-- An update that keeps every id keeps which ids there are.
module _ (test : AuctionRecord → Bool) (change : AuctionRecord → AuctionRecord)
    (same : (row : AuctionRecord) → (change row).id ≡ row.id) where
  has_auction-update :
      (id : ℕ) (rows : List AuctionRecord)
      → has_auction id (update test change rows) ≡ has_auction id rows
  has_auction-update id [] = refl
  has_auction-update id (row ∷ rows) = ground (arith, same row, has_auction-update id rows)

  update-DistinctIds :
      (rows : List AuctionRecord) → DistinctIds rows → DistinctIds (update test change rows)
  update-DistinctIds [] d = tt
  update-DistinctIds (row ∷ rows) d =
      ground (arith, same row, has_auction-update row.id rows, update-DistinctIds rows d.1)

  update-References :
      (rows : List AuctionRecord) (bids : List BidRecord)
      → References rows bids
      → References (update test change rows) bids
  update-References rows [] r = tt
  update-References rows (bid ∷ bids) r =
      (rw (has_auction-update bid.auction_id rows) (r.0), update-References rows bids r.1)

any-append {ℓ} :
    {A : Type ℓ} (p : A → Bool) (xs : List A) (x : A) → any p (xs ++ x ∷ []) ≡ (any p xs || p x)
any-append p [] x = ground arith
any-append p (y ∷ xs) x = ground (arith, any-append p xs x)

append-DistinctIds :
    (rows : List AuctionRecord) (row : AuctionRecord)
    → has_auction row.id rows ≡ false
    → DistinctIds rows
    → DistinctIds (rows ++ row ∷ [])
append-DistinctIds [] row new d = (refl, tt)
append-DistinctIds (r ∷ rows) row new d =
    ground (arith, any-append (λ a. a.id == r.id) rows row, append-DistinctIds rows row)

append-References :
    (rows : List AuctionRecord) (row : AuctionRecord) (bids : List BidRecord)
    → References rows bids
    → References (rows ++ row ∷ []) bids
append-References rows row [] r = tt
append-References rows row (bid ∷ bids) r =
    ground (
      arith,
      any-append (λ a. a.id == bid.auction_id) rows row,
      append-References rows row bids r.1,
    )

References-append :
    (rows : List AuctionRecord) (bids : List BidRecord) (bid : BidRecord)
    → has_auction bid.auction_id rows ≡ true
    → References rows bids
    → References rows (bids ++ bid ∷ [])
References-append rows [] bid h r = (h, tt)
References-append rows (b ∷ bids) bid h r = (r.0, References-append rows bids bid h r.1)

References-update :
    (test : BidRecord → Bool) (change : BidRecord → BidRecord)
    → ((bid : BidRecord) → (change bid).auction_id ≡ bid.auction_id)
    → (rows : List AuctionRecord) (bids : List BidRecord) → References rows bids
    → References rows (update test change bids)
References-update test change same rows [] r = tt
References-update test change same rows (bid ∷ bids) r =
    ground (arith, same bid, References-update test change same rows bids r.1)

same_event_symm : (e f : EventRecord) → same_event e f ≡ same_event f e
same_event_symm e f =
    ground (arith, eq_iff e.event_type f.event_type, eq_iff f.event_type e.event_type)

append-DistinctEvents :
    (es : List EventRecord) (e : EventRecord)
    → any (same_event e) es ≡ false
    → DistinctEvents es
    → DistinctEvents (es ++ e ∷ [])
append-DistinctEvents [] e new d = (refl, tt)
append-DistinctEvents (f ∷ es) e new d =
    ground (arith, any-append (same_event f) es e, same_event_symm e f, append-DistinctEvents es e)

updated :
    (db : Database)
    → IsConsistent db
    → (test : AuctionRecord → Bool) (change : AuctionRecord → AuctionRecord)
    → ((row : AuctionRecord) → (change row).id ≡ row.id)
    → IsConsistent (record db { auctions = update test change db.auctions })
updated db v test change same = record {
  ids = update-DistinctIds test change same db.auctions v.ids;
  references = update-References test change same db.auctions db.bids v.references;
  events = v.events;
}

-- Every statement keeps the keys: what it inserts under a key that is there changes or adds no row.
effect-IsConsistent :
    (statement : Statement) (db : Database)
    → keeps_foreign_key statement db ≡ true
    → IsConsistent db
    → IsConsistent (effect statement db)
unfolding effect
effect-IsConsistent (upsert_auction auction) db h v =
    elim (Bool-cases (has_auction auction.id db.auctions)) [
      | inl old ↦ rw old (record {
        ids =
            update-DistinctIds (λ row. row.id == auction.id) (overwrite auction) (λ row. refl)
              db.auctions v.ids;
        references =
            update-References (λ row. row.id == auction.id) (overwrite auction) (λ row. refl)
              db.auctions db.bids v.references;
        events = v.events;
      })
      | inr new ↦ rw new (record {
        ids = append-DistinctIds db.auctions (record auction { settled_at = false }) new v.ids;
        references =
            append-References db.auctions (record auction { settled_at = false }) db.bids
              v.references;
        events = v.events;
      })
    ]
effect-IsConsistent (outbid_bids id) db h v = record {
  ids = v.ids;
  references = References-update _ _ (λ bid. refl) db.auctions db.bids v.references;
  events = v.events;
}
effect-IsConsistent (set_highest id bidder amount) db h v = updated db v _ _ (λ row. refl)
effect-IsConsistent (close_with id status bidder amount) db h v = updated db v _ _ (λ row. refl)
effect-IsConsistent (close_bare id status) db h v = updated db v _ _ (λ row. refl)
effect-IsConsistent (settle id proceeds royalty fee) db h v = updated db v _ _ (λ row. refl)
effect-IsConsistent (cancel id) db h v = updated db v _ _ (λ row. refl)
effect-IsConsistent (attest id hash) db h v = updated db v _ _ (λ row. refl)
effect-IsConsistent (mark_refunded id bidder) db h v = record {
  ids = v.ids;
  references = References-update _ _ (λ bid. refl) db.auctions db.bids v.references;
  events = v.events;
}
effect-IsConsistent (insert_bid bid) db h v = record {
  ids = v.ids;
  references =
      References-append db.auctions db.bids (record bid { refunded = false }) h v.references;
  events = v.events;
}
effect-IsConsistent (insert_event e) db h v = elim (Bool-cases (any (same_event e) db.events)) [
  | inl old ↦ rw old (record { ids = v.ids; references = v.references; events = v.events })
  | inr new ↦ rw new (record {
    ids = v.ids;
    references = v.references;
    events = append-DistinctEvents db.events e new v.events;
  })
]
effect-IsConsistent (save_cursor ledger) db h v = record {
  ids = v.ids;
  references = v.references;
  events = v.events;
}

-- An action that keeps the keys, whether it fails or not.
abbrev pub Keeps : Action → Type 0
Keeps action = (db : Database) → IsConsistent db → IsConsistent (action db).0

pub query-Keeps :
    (accepts : Statement → Bool) (statement : Statement) → Keeps (query accepts statement)
unfolding query
query-Keeps accepts statement db v = ground (arith, effect-IsConsistent statement db)

pub >>-Keeps : (first next : Action) → Keeps first → Keeps next → Keeps (first >> next)
>>-Keeps first next k l db v = ground (arith, k db v, l (first db).0)

pub transaction-Keeps :
    (accepts : Statement → Bool) (body : Action) → Keeps body → Keeps (transaction accepts body)
transaction-Keeps accepts body k db v = ground (arith, k db v)

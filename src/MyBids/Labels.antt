-- ===== src/MyBids/Labels.antt =====
-- frontend/src/app/my-bids/page.tsx with backend/src/indexer/event_indexer.ts: what a bidder reads
-- about a bid after the next one.
use stellar_urithi_bidz.Prelude.{
  ℕ, String, Bool, false, List, [], ◌∷◌, ◌++◌, Option, ◌≡◌, ◌≢◌, arith, pass, eq_iff,
}
use stellar_urithi_bidz.Database.{BidRecord, Database, Statement}
use stellar_urithi_bidz.Indexer.{EventData, bid_placed}
use stellar_urithi_bidz.Indexer.Winning.{NoWinner, bid_placed-NoWinner}
use stellar_urithi_bidz.AuctionPage.{BidItem}
use stellar_urithi_bidz.MyBids.{bid_label}

NoWinner-at :
    (id : ℕ) (before after : List BidRecord) (row : BidRecord)
    → NoWinner id (before ++ row ∷ after)
    → row.auction_id ≡ id
    → row.is_winning ≡ false
NoWinner-at id [] after row n h = ground (arith, n.0, h)
NoWinner-at id (other ∷ before) after row n h = NoWinner-at id before after row n.1 h

-- After a `bid_placed` event that is handled without an error, no bid of the auction is labelled as
-- leading, the new one included.
nobody_leads :
    (accepts : Statement → Bool) (auction_id : ℕ) (data_ : EventData) (ledger now : ℕ)
    (tx_hash : Option String) (db : Database) (before after : List BidRecord) (row : BidRecord)
    (item : BidItem)
    → (bid_placed accepts auction_id data_ ledger tx_hash now db).1 ≡ pass tt
    → (bid_placed accepts auction_id data_ ledger tx_hash now db).0.bids ≡ before ++ row ∷ after
    → row.auction_id ≡ auction_id
    → item.is_winning ≡ row.is_winning
    → bid_label item ≢ "Leading"
unfolding bid_label
nobody_leads accepts auction_id data_ ledger now tx_hash db before after row item placed rows same
      read =
    let none_wins = bid_placed-NoWinner accepts auction_id data_ ledger now tx_hash db placed in
    let lost = NoWinner-at auction_id before after row (rw rows at none_wins) same in
    λ h. ground (arith, lost, read, h, eq_iff "Outbid" "Leading", eq_iff "Refunded" "Leading")

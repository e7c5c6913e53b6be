-- ===== src/Database/Tables.antt =====
-- backend/src/db/index.ts: the rows of the tables, and the statements with the values they take.
use stellar_urithi_bidz.Prelude.{ℕ, String, Bool, List, Option, StrMap}
use stellar_urithi_bidz.Values.{Value}

pub data Format : Type 0 where
  english dutch sealed_bid : Format

pub data Status : Type 0 where
  created active ended closed settled cancelled : Status

-- Fields that the source casts are `Value`s; those that it passes through `String` are texts.
pub record AuctionRecord : Type 0 where
  pub id : ℕ
  pub seller : Value
  pub original_creator : Value
  pub format : Format
  pub status : Status
  pub item_type : Value
  pub nft_contract : Value
  pub token_id : Value
  pub custodian : Value
  pub attestation_hash : Value
  pub payment_token : Value
  pub reserve_price : String
  pub royalty_bps : Value
  pub platform_fee_bps : Value
  pub start_time : Value
  pub end_time : Value
  pub commit_deadline : Value
  pub reveal_deadline : Value
  pub metadata_uri : Value
  pub min_increment : String
  pub start_price : String
  pub price_decay_per_second : String
  pub highest_bidder : Value
  pub highest_bid : String
  pub current_dutch_price : String
  pub attested : Bool
  pub seller_proceeds : Option String
  pub royalty_amount : Option String
  pub platform_fee_amount : Option String
  pub settled_at : Bool

pub record BidRecord : Type 0 where
  pub auction_id : ℕ
  pub bidder : Value
  pub amount : String
  pub format : Format
  pub timestamp : Value
  pub is_winning : Bool
  pub refunded : Bool

-- What the `data` column of an event holds before `JSON.stringify`.
pub data Payload : Type 0 where
  of_auction : AuctionRecord → Payload
  of_bid : BidRecord → Payload
  of_data : StrMap Value → Payload

pub record EventRecord : Type 0 where
  pub event_type : String
  pub auction_id : ℕ
  pub payload : Payload
  pub ledger_sequence : ℕ
  pub tx_hash : Option String

-- The four tables that the indexer writes.
pub record Database : Type 0 where
  pub auctions : List AuctionRecord
  pub bids : List BidRecord
  pub events : List EventRecord
  pub last_ledger : ℕ

pub data Statement : Type 0 where
  upsert_auction : AuctionRecord → Statement
  outbid_bids : ℕ → Statement
  set_highest : ℕ → Value → String → Statement
  close_with : ℕ → Status → String → String → Statement
  close_bare : ℕ → Status → Statement
  settle : ℕ → Option String → Option String → Option String → Statement
  cancel : ℕ → Statement
  attest : ℕ → Value → Statement
  mark_refunded : ℕ → Value → Statement
  insert_bid : BidRecord → Statement
  insert_event : EventRecord → Statement
  save_cursor : ℕ → Statement

pub data DatabaseError : Type 0 where
  not_accepted foreign_key : DatabaseError

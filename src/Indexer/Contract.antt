-- ===== src/Indexer/Contract.antt =====
-- backend/src/indexer/event_indexer.ts against contracts/auction/src/events.rs: the handlers' keys
-- and the first topics of the events that the contract emits.
use stellar_urithi_bidz.Prelude.{
  ℕ, String, Bool, true, List, [], ◌∷◌, Option, none, str_eq, ◌≡◌, refl, All, Option-cases,
  Bool-cases, eq_iff, inl, inr,
}
use stellar_urithi_bidz.Database.{Database, Statement, any}
use stellar_urithi_bidz.Indexer.{EventData, handler}
use stellar_urithi_bidz.Indexer.Events.{
  Native, string, dispatch, process_topics, process_event, auction_id_of, extract_topic_value,
}

-- The symbols of contracts/auction/src/events.rs but "auc_ext" and "bid_out".
abbrev pub unhandled_symbols : List String
unhandled_symbols =
    "auc_new" ∷ "bid_new" ∷ "bid_ref" ∷ "cmt_stor" ∷ "bid_rev" ∷ "auc_end" ∷ "auc_set" ∷ "att_rec"
    ∷ "auc_cxl" ∷ "nft_appr" ∷ "urv_ref" ∷ []

-- An event with this first topic changes no table.
abbrev IsIgnored : (accepts : Statement → Bool) → String → Type 0
IsIgnored accepts symbol =
    (rest : List Native) (payload : EventData) (ledger now : ℕ) (tx_hash : Option String)
    (db : Database)
    → (process_event accepts
        (record {
          topics = string symbol ∷ rest;
          payload = payload;
          ledger = ledger;
          tx_hash = tx_hash;
        })
        now db).0
      ≡ db

unhandled_skips :
    (accepts : Statement → Bool) (symbol : String)
    → ((id : ℕ) (data_ : EventData) (ledger now : ℕ) (tx_hash : Option String)
        → handler accepts id data_ ledger tx_hash now symbol ≡ none)
    → IsIgnored accepts symbol
unfolding process_event process_topics dispatch
unhandled_skips accepts symbol h [] payload ledger now tx_hash db = refl
unhandled_skips accepts symbol h (second ∷ rest) payload ledger now tx_hash db =
    elim (Option-cases (auction_id_of (extract_topic_value second))) [
      | inl e ↦ rw (e, dispatch)
      | inr (id, e) ↦ rw (e, dispatch, h id payload ledger now tx_hash)
    ]

All-IsIgnored : (accepts : Statement → Bool) → All (IsIgnored accepts) unhandled_symbols
unfolding handler
All-IsIgnored accepts =
    let no = unhandled_skips accepts in
    (
      no "auc_new" (λ id d l n t. refl),
      (
        no "bid_new" (λ id d l n t. refl),
        (
          no "bid_ref" (λ id d l n t. refl),
          (
            no "cmt_stor" (λ id d l n t. refl),
            (
              no "bid_rev" (λ id d l n t. refl),
              (
                no "auc_end" (λ id d l n t. refl),
                (
                  no "auc_set" (λ id d l n t. refl),
                  (
                    no "att_rec" (λ id d l n t. refl),
                    (
                      no "auc_cxl" (λ id d l n t. refl),
                      (no "nft_appr" (λ id d l n t. refl), (no "urv_ref" (λ id d l n t. refl), tt)),
                    ),
                  ),
                ),
              ),
            ),
          ),
        ),
      ),
    )

pick :
    (P : String → Type 0) (xs : List String) (x : String)
    → All P xs
    → any (λ y. str_eq x y) xs ≡ true
    → P x
pick P [] x _ h = cc
pick P (y ∷ ys) x (p, ps) h = elim (Bool-cases (str_eq x y)) [
  | inl same ↦ rw ((eq_iff x y).0 same) p
  | inr other ↦ pick P ys x ps (rw other at h)
]

-- An event whose first topic is one of these eleven symbols changes no table, whatever it carries.
pub contract_events_ignored :
    (accepts : Statement → Bool) (symbol : String) (rest : List Native) (payload : EventData)
    (ledger now : ℕ) (tx_hash : Option String) (db : Database)
    → any (λ y. str_eq symbol y) unhandled_symbols ≡ true
    → (process_event accepts
        (record {
          topics = string symbol ∷ rest;
          payload = payload;
          ledger = ledger;
          tx_hash = tx_hash;
        })
        now
        db).0
      ≡ db
contract_events_ignored accepts symbol rest payload ledger now tx_hash db h =
    pick (IsIgnored accepts) unhandled_symbols symbol (All-IsIgnored accepts) h rest payload ledger
      now tx_hash db

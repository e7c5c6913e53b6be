-- ===== src/Indexer/Events.antt =====
-- backend/src/indexer/event_indexer.ts: topic parsing and `processEvent`. An auction's id is a u64 of
-- the contract: there are no negative ids here, so `parse_int` reads none behind a minus sign.
use Prim.Native.Char.{code}
use stellar_urithi_bidz.Prelude.{
  ℕ, ◌+◌, ◌-◌, ◌*◌, String, Bool, List, ◌∷◌, Option, none, some, if◌then◌else◌, ◌==◌, ◌≡◌, refl,
}
use stellar_urithi_bidz.Text.{is_digit, trim_start}
use stellar_urithi_bidz.Values.{decimal}
use stellar_urithi_bidz.Database.{Statement, Action, done}
use stellar_urithi_bidz.Indexer.{EventData, handler}

-- What `scValToNative` makes of a topic, as `extractTopicValue` tells its cases apart; an `Address`
-- and any other object carry the text that `String` or `JSON.stringify` makes of them.
pub data Native : Type 0 where
  string : String → Native
  numeric : ℕ → Native
  address : String → Native
  object : String → Native
  boolean : Bool → Native
  nullish : Native

pub data TopicValue : Type 0 where
  of_string : String → TopicValue
  of_number : ℕ → TopicValue

unfoldable pub extract_topic_value : Native → TopicValue
extract_topic_value (string s) = of_string s
extract_topic_value (numeric n) = of_number n
extract_topic_value (address s) = of_string s
extract_topic_value (object json) = of_string json
extract_topic_value (boolean b) = of_string (if b then "true" else "false")
extract_topic_value nullish = of_string "0"

abbrev shifted : Option ℕ → ℕ
shifted none = 0
shifted (some n) = n * 10

-- The leading digits of a text behind the number read so far, `none` if there was no digit yet.
digits_behind : Option ℕ → String → Option ℕ
digits_behind read String.[] = read
digits_behind read (String.◌∷◌ c s) =
    let more = digits_behind (some (shifted read + (code c - b'0'))) s in
    if is_digit (code c) then more else read

drop_plus : String → String
drop_plus String.[] = ""
drop_plus (String.◌∷◌ c s) = if code c == b'+' then s else String.◌∷◌ c s

-- `parseInt(s, 10)`; `none` is NaN
unfoldable pub parse_int : String → Option ℕ
unfolding digits_behind drop_plus trim_start
parse_int s = digits_behind none (drop_plus (trim_start s))

unfoldable pub auction_id_of : TopicValue → Option ℕ
auction_id_of (of_number n) = some n
auction_id_of (of_string s) = parse_int s

-- The key by which a topic looks up `handlers`.
abbrev pub key_of : Native → String
key_of (string s) = s
key_of (numeric n) = decimal n
key_of (address s) = s
key_of (object json) = json
key_of (boolean b) = if b then "true" else "false"
key_of nullish = "null"

pub record ContractEvent : Type 0 where
  pub topics : List Native
  pub payload : EventData
  pub ledger : ℕ
  pub tx_hash : Option String

abbrev pub or_skip : Option Action → Action
or_skip none = done
or_skip (some action) = action

module _ (accepts : Statement → Bool) where
  -- The two topics that are read.
  unfoldable pub dispatch : Native → Native → ContractEvent → ℕ → Action
  dispatch first second event now = elim (auction_id_of (extract_topic_value second)) [
    | none ↦ done
    | some auction_id ↦
        or_skip
          (handler accepts auction_id event.payload event.ledger event.tx_hash now (key_of first))
  ]

  -- `processEvent`, by its topics.
  unfoldable pub process_topics : List Native → ContractEvent → ℕ → Action
  process_topics (first ∷ second ∷ others) event now = dispatch first second event now
  process_topics _ event now = done

  unfoldable pub process_event : ContractEvent → ℕ → Action
  unfolding process_topics
  process_event event now = process_topics event.topics event now

padded_id : parse_int " +042x" ≡ some 42
unfolding parse_int
padded_id = refl

no_id : parse_int "GABC" ≡ none
unfolding parse_int
no_id = refl

-- ===== src/Schemas.antt =====
-- backend/src/schemas/auctions.ts: the schemas, built with the Zod that Schemas/Builders describes.
pub mod Bodies
pub mod Fields
pub mod Limits
pub mod Query
pub mod Texts
pub mod Builders
mod Tests
use stellar_urithi_bidz.Prelude.{
  ℕ, String, Bool, true, false, List, [], ◌∷◌, Option, none, some, ltb,
}
use stellar_urithi_bidz.Text.{parse_digits}
use stellar_urithi_bidz.Values.{Value}
use stellar_urithi_bidz.Schemas.Texts.{starts}
use stellar_urithi_bidz.Schemas.Builders.{Body, Zod, is_digits}

-- `(v) => BigInt(v) > 0n`, of digits
abbrev pub is_positive : String → Bool
is_positive s = elim (parse_digits s) [ none ↦ false | some n ↦ ltb 0 n ]

abbrev pub auction_statuses : List String
auction_statuses = "created" ∷ "active" ∷ "ended" ∷ "settled" ∷ "cancelled" ∷ []

abbrev pub auction_formats : List String
auction_formats = "english" ∷ "dutch" ∷ "sealed_bid" ∷ []

-- `(data) => data.end_time > data.start_time`
abbrev ends_later : Body → Bool
ends_later body = later (body "start_time") (body "end_time")
  where
    later : Value → Value → Bool
    later (Value.number start) (Value.number end_) = ltb start end_
    later _ _ = false

module _ {Schema : Type 0} (zod : Zod Schema) where
  -- A text of 56 characters that is a public key
  unfoldable pub address_field : Schema
  address_field = zod.regex (starts b'G') (zod.max_length 56 (zod.min_length 56 zod.string))

  unfoldable pub digits_field : Schema
  digits_field = zod.regex is_digits zod.string

  unfoldable pub limit_field : Schema
  limit_field = zod.optional (
      zod.pipe (zod.transform_number (zod.regex is_digits zod.string))
        (zod.max 500 (zod.min 1 (zod.int zod.number))))

  unfoldable pub offset_field : Schema
  offset_field = zod.optional (
      zod.pipe (zod.transform_number (zod.regex is_digits zod.string))
        (zod.min 0 (zod.int zod.number)))

  unfoldable pub positive_field : Schema
  positive_field = zod.min 1 (zod.int zod.number)

  abbrev pub list_auctions_schema : List (String × Schema)
  list_auctions_schema =
      ("status", zod.optional (zod.enum auction_statuses))
      ∷ ("format", zod.optional (zod.enum auction_formats))
      ∷ ("seller", zod.optional address_field)
      ∷ ("limit", limit_field)
      ∷ ("offset", offset_field)
      ∷ []

  abbrev pub bid_history_schema : List (String × Schema)
  bid_history_schema =
      ("bidder", zod.optional address_field)
      ∷ ("limit", limit_field)
      ∷ ("offset", offset_field)
      ∷ []

  abbrev pub auction_id_schema : List (String × Schema)
  auction_id_schema =
      ("id", zod.pipe (zod.transform_number (zod.regex is_digits zod.string)) positive_field) ∷ []

  abbrev pub create_auction_body_schema : List (String × Schema)
  create_auction_body_schema =
      ("seller", address_field)
      ∷ ("original_creator", address_field)
      ∷ ("format", zod.enum auction_formats)
      ∷ ("item_type", zod.enum ("digital" ∷ "physical" ∷ []))
      ∷ ("nft_contract", zod.optional (zod.regex (starts b'C') zod.string))
      ∷ ("token_id", zod.optional positive_field)
      ∷ ("custodian", zod.optional (zod.regex (starts b'G') zod.string))
      ∷ ("payment_token", zod.min_length 1 zod.string)
      ∷ ("reserve_price", zod.refine is_positive digits_field)
      ∷ ("royalty_bps", zod.max 10000 (zod.min 0 (zod.int zod.number)))
      ∷ ("start_time", positive_field)
      ∷ ("end_time", positive_field)
      ∷ ("metadata_uri", zod.min_length 1 zod.string)
      ∷ ("min_increment", zod.optional digits_field)
      ∷ ("start_price", zod.optional digits_field)
      ∷ ("price_decay_per_second", zod.optional digits_field)
      ∷ ("commit_deadline", zod.optional positive_field)
      ∷ ("reveal_deadline", zod.optional positive_field)
      ∷ ("max_bidders", zod.optional (zod.max 1000 (zod.min 1 (zod.int zod.number))))
      ∷ []

  abbrev pub place_bid_body_schema : List (String × Schema)
  place_bid_body_schema =
      ("bidder", address_field)
      ∷ ("bid_amount", zod.refine is_positive digits_field)
      ∷ ("format", zod.enum auction_formats)
      ∷ []

  unfoldable pub parse_create_auction : Body → Option Body
  parse_create_auction = zod.parse_refined create_auction_body_schema ends_later

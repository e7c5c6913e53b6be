-- ===== src/Schemas/Tests.antt =====
-- backend/src/schemas/auctions.ts: a Zod that does what is documented, and concrete requests.
use stellar_urithi_bidz.Prelude.{
  ℕ, ◌≤◌, String, List, [], ◌∷◌, ◌++◌, Option, none, some, pass, ◌≡◌, ◌↔◌, refl, if◌then◌else◌, ◌/◌,
  ◌*◌, leb, arith, some-injective,
}
use stellar_urithi_bidz.Text.{parse_digits, decimal_from}
use stellar_urithi_bidz.Values.{Value}
use stellar_urithi_bidz.Format.{str_length}
use stellar_urithi_bidz.Upload.{includes}
use stellar_urithi_bidz.Listing.{AuctionFilter, get_auctions}
use stellar_urithi_bidz.Schemas.{
  limit_field, offset_field, address_field, digits_field, list_auctions_schema,
  place_bid_body_schema,
}
use stellar_urithi_bidz.Schemas.Builders.{
  Body, Zod, IsZod, and_then, keep_text, keep_number, number_of, all_texts, all_numbers, is_from,
  is_to, no_fields, put,
}
use stellar_urithi_bidz.Schemas.Texts.{starts, base32}
use stellar_urithi_bidz.Schemas.Bodies.{IsBid, bid_fields, parses_iff}
use stellar_urithi_bidz.Listing.Request.{number_of as digits_of, lookup}
use stellar_urithi_bidz.Schemas.Query.{IsExact, list_parser, list_parser_keeps}
use stellar_urithi_bidz.Schemas.Limits.{rows_bounded}

-- A schema is what it makes of a value.
abbrev Parser : Type 0
Parser = Value → Option Value

abbrev optional : Parser → Parser
optional s Value.undefined = some Value.undefined
optional s (Value.text t) = s (Value.text t)
optional s (Value.number n) = s (Value.number n)
optional s (Value.truth b) = s (Value.truth b)

abbrev object : List (String × Parser) → Body → Option Body
object [] body = some no_fields
object ((name, s) ∷ fields) body =
    let rest = object fields body in
    and_then (s (body name)) (λ v. and_then rest (λ parsed. some (put name v parsed)))

-- Up to 2 ^ 54: from 2 ^ 53 on the odd numbers are rounded.
abbrev even_from_two_53 : ℕ → Option ℕ
even_from_two_53 n = some (if leb n 9007199254740992 then n else n / 2 * 2)

even_from_two_53-exact : (n : ℕ) → n ≤ 9007199254740992 → even_from_two_53 n ≡ some n
even_from_two_53-exact n small = ground arith

abbrev parsers : Zod Parser
parsers = record {
  string = keep_text all_texts;
  number = keep_number all_numbers;
  enum = λ options. keep_text (includes options);
  min_length = λ n s v. and_then (s v) (keep_text (λ t. is_from n (str_length t)));
  max_length = λ n s v. and_then (s v) (keep_text (λ t. is_to n (str_length t)));
  regex = λ test s v. and_then (s v) (keep_text test);
  refine = λ test s v. and_then (s v) (keep_text test);
  int = λ s. s;
  min = λ n s v. and_then (s v) (keep_number (is_from n));
  max = λ n s v. and_then (s v) (keep_number (is_to n));
  transform_number = λ s v. and_then (s v) (number_of even_from_two_53);
  to_number = even_from_two_53;
  pipe = λ s next v. and_then (s v) next;
  optional = optional;
  parse = λ s. s;
  parse_object = object;
  parse_refined = λ fields test body.
      and_then (object fields body) (λ parsed. if test parsed then some parsed else none);
}

parsers-IsZod : IsZod parsers
parsers-IsZod = record {
  string_law = λ v. refl;
  number_law = λ v. refl;
  enum_law = λ options v. refl;
  min_length_law = λ n s v. refl;
  max_length_law = λ n s v. refl;
  regex_law = λ test s v. refl;
  refine_law = λ test s v. refl;
  int_law = λ s v. refl;
  min_law = λ n s v. refl;
  max_law = λ n s v. refl;
  transform_number_law = λ s v. refl;
  exact_law = even_from_two_53-exact;
  pipe_law = λ s next v. refl;
  optional_undefined = λ s. refl;
  optional_text = λ s t. refl;
  optional_number = λ s n. refl;
  optional_truth = λ s b. refl;
  object_empty = λ body. refl;
  object_field = λ name s fields body. refl;
  refined_law = λ fields test body. refl;
}

abbrev bidder : String
bidder = "GAAAAAAAAAAAAAAAAAAAAAAAAAAAAAAAAAAAAAAAAAAAAAAAAAAAAAA7"

abbrev bid : Body
bid =
    put "bidder" (Value.text bidder)
      (put "bid_amount" (Value.text "150") (put "format" (Value.text "english") no_fields))

parses_iff_example :
    (parsers.parse_object (place_bid_body_schema parsers) bid ≡ some (bid_fields bid))
    ↔ (IsBid bid × (bid_fields bid ≡ bid_fields bid))
parses_iff_example = parses_iff parsers parsers-IsZod bid (bid_fields bid)

-- An amount of zero is refused.
worthless :
    parsers.parse_object (place_bid_body_schema parsers) (put "bid_amount" (Value.text "00") bid)
    ≡ none
unfolding address_field digits_field starts base32 parse_digits decimal_from
worthless = refl

abbrev asked : Body
asked = put "limit" (Value.text "20") no_fields

abbrev parsed : Body
parsed = put "status" Value.undefined (
    put "format" Value.undefined (
      put "seller" Value.undefined
        (put "limit" (Value.number 20) (put "offset" Value.undefined no_fields))))

abbrev filter : AuctionFilter
filter = record { status = none; format = none; seller = none; limit = some 20; offset = none }

reads_limit : parsers.parse_object (list_auctions_schema parsers) asked ≡ some parsed
unfolding limit_field offset_field address_field parse_digits decimal_from
reads_limit = refl

rows_bounded_example :
    (conditions : List Value) × (limit : ℕ) × (offset : ℕ) × ((get_auctions filter).values
      ≡ conditions ++ Value.number limit ∷ Value.number offset ∷ [])
    × (1 ≤ limit)
    × (limit ≤ 500)
rows_bounded_example = rows_bounded parsers parsers-IsZod asked parsed filter reads_limit refl

-- A limit of 0 is refused, though the asked would take it for 50.
no_rows :
    parsers.parse_object (list_auctions_schema parsers) (put "limit" (Value.text "0") no_fields)
    ≡ none
unfolding limit_field offset_field address_field parse_digits decimal_from
no_rows = refl

twenty : list_parser parsers (λ body. []) (lookup (("limit", "20") ∷ [])) ≡ pass filter
unfolding limit_field offset_field address_field parse_digits decimal_from
twenty = refl

abbrev asked_for : String → Option String
asked_for = lookup (("limit", "20") ∷ [])

twenty-IsExact : IsExact (asked_for "limit")
unfolding parse_digits decimal_from
twenty-IsExact n h = omega (arith, some-injective h)

list_parser_keeps_example :
    (filter.status ≡ asked_for "status")
    × (filter.format ≡ asked_for "format")
    × (filter.seller ≡ asked_for "seller")
    × (filter.limit ≡ digits_of (asked_for "limit"))
    × (filter.offset ≡ digits_of (asked_for "offset"))
list_parser_keeps_example =
    list_parser_keeps parsers parsers-IsZod (λ body. []) asked_for filter twenty-IsExact (λ n h. cc)
      twenty

-- An offset of 2 ^ 53 + 1 is rounded.
far :
    list_parser parsers (λ body. []) (lookup (("offset", "9007199254740993") ∷ []))
    ≡ pass (record filter { limit = none; offset = some 9007199254740992 })
unfolding limit_field offset_field address_field parse_digits decimal_from
far = refl

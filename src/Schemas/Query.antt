-- ===== src/Schemas/Query.antt =====
-- backend/src/schemas/auctions.ts under backend/src/middleware/validate.ts: what `listAuctionsSchema`
-- makes of the parameters of a query.
use stellar_urithi_bidz.Prelude.{
  ℕ, String, Bool, List, some-injective, Option, none, some, ◌≡◌, ◌≤◌, ap, sym, ◌∙◌, arith,
  Bool-cases, Option-cases, inl, inr, fail, pass, pass-injective,
}
use stellar_urithi_bidz.Text.{parse_digits}
use stellar_urithi_bidz.Values.{Value}
use stellar_urithi_bidz.Listing.{AuctionFilter, zod_error}
use stellar_urithi_bidz.Listing.Request.{Parser, number_of as digits_of}
use stellar_urithi_bidz.Schemas.{
  list_auctions_schema, limit_field, offset_field, auction_statuses, auction_formats,
}
use stellar_urithi_bidz.Schemas.Builders.{
  Body, Zod, IsZod, and_then, keep_text, keep_number, number_of, all_texts, all_numbers, is_from,
  is_to, is_digits,
}
use stellar_urithi_bidz.Schemas.Fields.{field_iff, keeps, address_lem}
use stellar_urithi_bidz.Schemas.Limits.{limit_of}

-- A parameter of the query: a text, or nothing
abbrev pub value_of : Option String → Value
value_of none = Value.undefined
value_of (some s) = Value.text s

abbrev pub text_of : Value → Option String
text_of (Value.text s) = some s
text_of _ = none

abbrev pub filter_of : Body → AuctionFilter
filter_of parsed = record {
  status = text_of (parsed "status");
  format = text_of (parsed "format");
  seller = text_of (parsed "seller");
  limit = limit_of (parsed "limit");
  offset = limit_of (parsed "offset");
}

-- No number, or one that `Number(…)` reads exactly
abbrev pub IsExact : Option String → Type 0
IsExact o = (n : ℕ) → digits_of o ≡ some n → n ≤ 9007199254740992

module _ {Schema : Type 0} (zod : Zod Schema) where
  -- The query as an object of Zod: a parameter that is missing is `undefined`.
  abbrev pub list_parser : (Body → List (List String × String)) → Parser
  list_parser errors query =
      elim (zod.parse_object (list_auctions_schema zod) (λ name. value_of (query name))) [
        | none ↦ fail (zod_error (errors (λ name. value_of (query name))))
        | some parsed ↦ pass (filter_of parsed)
      ]

-- A number that a schema lets through stays.
keep_number-same : (test : ℕ → Bool) (v w : Value) → keep_number test v ≡ some w → w ≡ v
keep_number-same test Value.undefined w h = cc
keep_number-same test (Value.text s) w h = cc
keep_number-same test (Value.truth b) w h = cc
keep_number-same test (Value.number n) w h = elim (Bool-cases (test n)) [
  | inl e ↦ sym (some-injective (rw e at h))
  | inr e ↦ absurd (ground (arith, e, h))
]

module _ {Schema : Type 0} (zod : Zod Schema) (is_zod : IsZod zod) where
  -- A schema that lets a number through only as it is
  abbrev KeepsNumbers : Schema → Type 0
  KeepsNumbers s = (v w : Value) → zod.parse s v ≡ some w → w ≡ v

  number-KeepsNumbers : KeepsNumbers zod.number
  number-KeepsNumbers v w h = keep_number-same all_numbers v w (sym (is_zod.number_law v) ∙ h)

  int-KeepsNumbers : (s : Schema) → KeepsNumbers s → KeepsNumbers (zod.int s)
  int-KeepsNumbers s k v w h = k v w (sym (is_zod.int_law s v) ∙ h)

  bounded :
      (s : Schema) (test : ℕ → Bool)
      → KeepsNumbers s
      → (v w : Value) → and_then (zod.parse s v) (keep_number test) ≡ some w
      → w ≡ v
  bounded s test k v w h = elim (Option-cases (zod.parse s v)) [
    | inl e ↦ absurd (ground (arith, e, h))
    | inr (u, e) ↦ keep_number-same test u w (rw e at h) ∙ k v u e
  ]

  min-KeepsNumbers : (n : ℕ) (s : Schema) → KeepsNumbers s → KeepsNumbers (zod.min n s)
  min-KeepsNumbers n s k v w h = bounded s (is_from n) k v w (sym (is_zod.min_law n s v) ∙ h)

  max-KeepsNumbers : (n : ℕ) (s : Schema) → KeepsNumbers s → KeepsNumbers (zod.max n s)
  max-KeepsNumbers n s k v w h = bounded s (is_to n) k v w (sym (is_zod.max_law n s v) ∙ h)

  text_field :
      (s : Schema) (test : String → Bool)
      → ((v : Value) → zod.parse s v ≡ keep_text test v)
      → (o : Option String) (w : Value) → zod.parse (zod.optional s) (value_of o) ≡ some w
      → text_of w ≡ o
  text_field s test law none w h =
      ap text_of (sym (some-injective (sym (is_zod.optional_undefined s) ∙ h)))
  text_field s test law (some t) w h =
      let (_, _, _, same) =
        keeps zod is_zod s test law (Value.text t) w (sym (is_zod.optional_text s t) ∙ h) in
      ap text_of same

  number_text :
      (t : String) (n : ℕ)
      → parse_digits t ≡ some n
      → n ≤ 9007199254740992
      → and_then
          (and_then (keep_text all_texts (Value.text t)) (keep_text is_digits))
          (number_of zod.to_number)
        ≡ some (Value.number n)
  number_text t n e small = ground (arith, e, is_zod.exact_law n small)

  no_digits :
      (t : String)
      → parse_digits t ≡ none
      → and_then
          (and_then (keep_text all_texts (Value.text t)) (keep_text is_digits))
          (number_of zod.to_number)
        ≡ none
  no_digits t e = ground (arith, e)

  number_field :
      (next : Schema)
      → KeepsNumbers next
      → (o : Option String) → IsExact o
      → (w : Value)
      → zod.parse
          (zod.optional (zod.pipe (zod.transform_number (zod.regex is_digits zod.string)) next))
          (value_of o)
        ≡ some w
      → limit_of w ≡ digits_of o
  number_field next k none exact w h =
      ap limit_of (sym (some-injective (sym (is_zod.optional_undefined _) ∙ h)))
  number_field next k (some t) exact w h =
      let front =
        is_zod.transform_number_law zod.string (Value.text t)
        ∙ ap (λ o. and_then o (number_of zod.to_number))
            (is_zod.regex_law is_digits zod.string (Value.text t)
              ∙ ap (λ o. and_then o (keep_text is_digits)) (is_zod.string_law (Value.text t))) in
      let all = sym (is_zod.pipe_law _ next (Value.text t)) ∙ sym (is_zod.optional_text _ t) ∙ h in
      elim (Option-cases (parse_digits t)) [
        | inl e ↦
            absurd (cc (sym (ap (λ o. and_then o (zod.parse next)) (front ∙ no_digits t e)) ∙ all))
        | inr (n, e) ↦
            ap limit_of (
              k (Value.number n) w (
                sym (ap (λ o. and_then o (zod.parse next)) (front ∙ number_text t n e (exact n e)))
                ∙ all))
            ∙ sym e
      ]

  fields_kept :
      (query : String → Option String) (parsed : Body)
      → IsExact (query "limit")
      → IsExact (query "offset")
      → zod.parse_object (list_auctions_schema zod) (λ name. value_of (query name)) ≡ some parsed
      → (text_of (parsed "status") ≡ query "status")
        × (text_of (parsed "format") ≡ query "format")
        × (text_of (parsed "seller") ≡ query "seller")
        × (limit_of (parsed "limit") ≡ digits_of (query "limit"))
        × (limit_of (parsed "offset") ≡ digits_of (query "offset"))
  unfolding limit_field offset_field
  fields_kept query parsed small_limit small_offset h =
      let body = λ (name : String). value_of (query name) in
      let (v1, p1, h1, k1, e1) = (field_iff zod is_zod "status" _ _ body parsed).0 h in
      let (v2, p2, h2, k2, e2) = (field_iff zod is_zod "format" _ _ body p1).0 k1 in
      let (v3, p3, h3, k3, e3) = (field_iff zod is_zod "seller" _ _ body p2).0 k2 in
      let (v4, p4, h4, k4, e4) = (field_iff zod is_zod "limit" _ _ body p3).0 k3 in
      let (v5, p5, h5, k5, e5) = (field_iff zod is_zod "offset" _ _ body p4).0 k4 in
      let at = λ (name : String) (b c : Body) (e : b ≡ c). ap (λ (f : Body). f name) (sym e) in
      let in_range =
        max-KeepsNumbers 500 _ (min-KeepsNumbers 1 _ (int-KeepsNumbers _ number-KeepsNumbers)) in
      let from_zero = min-KeepsNumbers 0 _ (int-KeepsNumbers _ number-KeepsNumbers) in
      (
        ap text_of (at "status" _ _ e1)
            ∙ text_field _ _ (is_zod.enum_law auction_statuses) (query "status") v1 h1,
        ap text_of (at "format" _ _ e1 ∙ at "format" _ _ e2)
            ∙ text_field _ _ (is_zod.enum_law auction_formats) (query "format") v2 h2,
        ap text_of (at "seller" _ _ e1 ∙ at "seller" _ _ e2 ∙ at "seller" _ _ e3)
            ∙ text_field _ _ (address_lem zod is_zod) (query "seller") v3 h3,
        ap limit_of (at "limit" _ _ e1 ∙ at "limit" _ _ e2 ∙ at "limit" _ _ e3 ∙ at "limit" _ _ e4)
            ∙ number_field _ in_range (query "limit") small_limit v4 h4,
        ap limit_of (
              at "offset" _ _ e1
              ∙ at "offset" _ _ e2
              ∙ at "offset" _ _ e3
              ∙ at "offset" _ _ e4
              ∙ at "offset" _ _ e5)
            ∙ number_field _ from_zero (query "offset") small_offset v5 h5,
      )

  -- Where the schema of GET /api accepts a query whose limit and offset are missing, or have digits
  -- that spell numbers up to 2 ^ 53, it keeps the texts of the status, the format and the seller, and
  -- makes of the limit and the offset the numbers that their digits spell.
  pub list_parser_keeps :
      (errors : Body → List (List String × String)) (query : String → Option String)
      (params : AuctionFilter)
      → IsExact (query "limit")
      → IsExact (query "offset")
      → list_parser zod errors query ≡ pass params
      → (params.status ≡ query "status")
        × (params.format ≡ query "format")
        × (params.seller ≡ query "seller")
        × (params.limit ≡ digits_of (query "limit"))
        × (params.offset ≡ digits_of (query "offset"))
  list_parser_keeps errors query params small_limit small_offset h =
      elim (Option-cases
        (zod.parse_object (list_auctions_schema zod) (λ name. value_of (query name)))) [
          | inl e ↦ absurd (ground (arith, e, h))
          | inr (parsed, e) ↦
              let same : filter_of parsed ≡ params = pass-injective (rw (list_parser, e) at h) in
              rw (← same) (fields_kept query parsed small_limit small_offset e)
        ]

-- ===== src/Schemas/Limits.antt =====
-- backend/src/schemas/auctions.ts and backend/src/db/index.ts: how many rows a list can ask for.
use stellar_urithi_bidz.Prelude.{
  ℕ, ◌≤◌, List, [], ◌∷◌, ◌++◌, some-injective, Option, none, some, ◌≡◌, refl, ap, sym, ◌∙◌, arith,
  Bool-cases, Option-cases, inl, inr,
}
use stellar_urithi_bidz.Values.{Value}
use stellar_urithi_bidz.Listing.{AuctionFilter, number_or, get_auctions, paged}
use stellar_urithi_bidz.Schemas.{limit_field, list_auctions_schema}
use stellar_urithi_bidz.Schemas.Builders.{
  Body, Zod, IsZod, and_then, keep_number, all_numbers, is_from, is_to, is_digits,
}
use stellar_urithi_bidz.Schemas.Fields.{field_iff}

-- `params.limit` of what the schema lets through
abbrev pub limit_of : Value → Option ℕ
limit_of (Value.number n) = some n
limit_of _ = none

-- A limit that the query can carry
abbrev pub IsAllowed : Value → Type 0
IsAllowed v = (1 ≤ number_or 50 (limit_of v)) × (number_or 50 (limit_of v) ≤ 500)

in_range :
    (o : Option Value) (w : Value)
    → and_then
        (and_then (and_then o (keep_number all_numbers)) (keep_number (is_from 1)))
        (keep_number (is_to 500))
      ≡ some w
    → IsAllowed w
in_range none w h = cc
in_range (some Value.undefined) w h = cc
in_range (some (Value.text t)) w h = cc
in_range (some (Value.truth b)) w h = cc
in_range (some (Value.number n)) w h = elim (Bool-cases (is_from 1 n)) [
  | inl low ↦ elim (Bool-cases (is_to 500 n)) [
    | inl high ↦
        let same = some-injective (rw (low, high) at h) in
        let allowed : IsAllowed (Value.number n) = (ground (arith, low), ground (arith, high)) in
        rw (← same) allowed
    | inr big ↦ absurd (ground (arith, rw (low, big) at h))
  ]
  | inr small ↦ absurd (ground (arith, rw small at h))
]

module _ {Schema : Type 0} (zod : Zod Schema) (is_zod : IsZod zod) where
  abbrev number_field : Schema
  number_field = zod.max 500 (zod.min 1 (zod.int zod.number))

  number_field_lem :
      (u : Value)
      → zod.parse number_field u
        ≡ and_then
            (and_then (keep_number all_numbers u) (keep_number (is_from 1)))
            (keep_number (is_to 500))
  number_field_lem u =
      is_zod.max_law 500 _ u
      ∙ ap (λ o. and_then o (keep_number (is_to 500)))
          (is_zod.min_law 1 _ u
            ∙ ap (λ o. and_then o (keep_number (is_from 1)))
                (is_zod.int_law _ u ∙ is_zod.number_law u))

  limit_text :
      (v w : Value)
      → zod.parse
          (zod.pipe
            (zod.transform_number (zod.regex is_digits zod.string))
            (zod.max 500 (zod.min 1 (zod.int zod.number))))
          v
        ≡ some w
      → IsAllowed w
  limit_text v w h =
      elim (Option-cases (zod.parse (zod.transform_number (zod.regex is_digits zod.string)) v)) [
        | inl e ↦ in_range none w (
            sym (ap (λ o. and_then o (zod.parse number_field)) e)
            ∙ sym (is_zod.pipe_law _ number_field v)
            ∙ h)
        | inr (u, e) ↦ in_range (some u) w (
            sym (number_field_lem u)
            ∙ sym (ap (λ o. and_then o (zod.parse number_field)) e)
            ∙ sym (is_zod.pipe_law _ number_field v)
            ∙ h)
      ]

  limit_field-IsAllowed : (v w : Value) → zod.parse (limit_field zod) v ≡ some w → IsAllowed w
  unfolding limit_field
  limit_field-IsAllowed Value.undefined w h =
      let same = some-injective (sym (is_zod.optional_undefined _) ∙ h) in
      rw (← same) (omega arith, omega arith)
  limit_field-IsAllowed (Value.text t) w h = limit_text _ w (sym (is_zod.optional_text _ t) ∙ h)
  limit_field-IsAllowed (Value.number n) w h = limit_text _ w (sym (is_zod.optional_number _ n) ∙ h)
  limit_field-IsAllowed (Value.truth b) w h = limit_text _ w (sym (is_zod.optional_truth _ b) ∙ h)

  -- Whatever a client sends to GET /api: where the schema accepts it, the query asks for at least one
  -- row and for at most 500.
  pub rows_bounded :
      (query parsed : Body) (filter : AuctionFilter)
      → zod.parse_object (list_auctions_schema zod) query ≡ some parsed
      → filter.limit ≡ limit_of (parsed "limit")
      → (conditions : List Value) × (limit : ℕ) × (offset : ℕ) × ((get_auctions filter).values
          ≡ conditions ++ Value.number limit ∷ Value.number offset ∷ [])
        × (1 ≤ limit)
        × (limit ≤ 500)
  unfolding get_auctions paged
  rows_bounded query parsed filter h same =
      let (v1, p1, h1, k1, e1) = (field_iff zod is_zod "status" _ _ query parsed).0 h in
      let (v2, p2, h2, k2, e2) = (field_iff zod is_zod "format" _ _ query p1).0 k1 in
      let (v3, p3, h3, k3, e3) = (field_iff zod is_zod "seller" _ _ query p2).0 k2 in
      let (v4, p4, h4, k4, e4) = (field_iff zod is_zod "limit" _ _ query p3).0 k3 in
      let (low, high) = limit_field-IsAllowed (query "limit") v4 h4 in
      let there : parsed "limit" ≡ v4 =
        ap (λ (b : Body). b "limit") (sym e1)
        ∙ ap (λ (b : Body). b "limit") (sym e2)
        ∙ ap (λ (b : Body). b "limit") (sym e3)
        ∙ ap (λ (b : Body). b "limit") (sym e4) in
      let asked : filter.limit ≡ limit_of v4 = same ∙ ap limit_of there in
      (_, number_or 50 filter.limit, number_or 0 filter.offset, refl, rw asked low, rw asked high)

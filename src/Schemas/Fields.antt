-- ===== src/Schemas/Fields.antt =====
-- backend/src/schemas/auctions.ts: what the fields of an object let through.
use stellar_urithi_bidz.Prelude.{
  ℕ, ◌<◌, String, Bool, true, List, ◌∷◌, Option, none, some, ◌≡◌, ◌↔◌, refl, ap, sym, ◌∙◌, arith,
  some-injective, Bool-cases, Option-cases, inl, inr,
}
use stellar_urithi_bidz.Text.{parse_digits}
use stellar_urithi_bidz.Values.{Value}
use stellar_urithi_bidz.Format.{str_length}
use stellar_urithi_bidz.Schemas.{is_positive, address_field, digits_field}
use stellar_urithi_bidz.Schemas.Builders.{
  Body, Zod, IsZod, and_then, all_texts, keep_text, is_from, is_to, is_digits, put,
}
use stellar_urithi_bidz.Schemas.Texts.{starts, starts-length}

both_iff {ℓ κ μ} :
    {A : Type ℓ} {B : Type κ} {C : Type μ} (o : Option A) (p : Option B) (f : A → B → C) (c : C)
    → (and_then o (λ a. and_then p (λ b. some (f a b))) ≡ some c)
      ↔ ((a : A) × (b : B) × (o ≡ some a) × (p ≡ some b) × (f a b ≡ c))
both_iff none p f c = (λ h. cc, λ (_, _, h, _, _). cc)
both_iff (some a) none f c = (λ h. cc, λ (_, _, _, h, _). cc)
both_iff (some a) (some b) f c = (
  λ h. (a, b, refl, refl, some-injective h),
  λ (_, _, h, k, e). ap some (ap (λ x. f x b) (some-injective h) ∙ ap (f _) (some-injective k) ∙ e),
)

text-injective : {a b : String} → Value.text a ≡ Value.text b → a ≡ b
text-injective h = cc

pub is_positive_iff :
    (t : String) → (is_positive t ≡ true) ↔ ((n : ℕ) × (parse_digits t ≡ some n) × (0 < n))
is_positive_iff t = elim (Option-cases (parse_digits t)) [
  | inl e ↦ (λ h. absurd (ground (arith, e, h)), λ (n, k, _). absurd (ground (arith, e, k)))
  | inr (n, e) ↦ (λ h. (n, e, ground (arith, e, h)), λ (m, k, below). ground (arith, e, k, below))
]

keep_text_iff :
    (test : String → Bool) (v w : Value)
    → (keep_text test v ≡ some w) ↔ ((t : String) × (v ≡ Value.text t) × (test t ≡ true) × (w ≡ v))
keep_text_iff test Value.undefined w = (λ h. cc, λ (_, h, _, _). cc)
keep_text_iff test (Value.text t) w = elim (Bool-cases (test t)) [
  | inl e ↦ (
    λ h. (t, refl, e, sym (some-injective (rw e at h))),
    λ (_, _, _, same). rw e (ap some (sym same)),
  )
  | inr e ↦ (
    λ h. absurd (ground (arith, e, h)),
    λ (u, same, k, _). absurd (ground (arith, e, k, ap test (text-injective same))),
  )
]
keep_text_iff test (Value.number n) w = (λ h. cc, λ (_, h, _, _). cc)
keep_text_iff test (Value.truth b) w = (λ h. cc, λ (_, h, _, _). cc)

-- Both lengths and the regular expression ask no more than the regular expression.
key_lem :
    (t : String)
    → and_then
        (and_then
          (and_then (some (Value.text t)) (keep_text (λ u. is_from 56 (str_length u))))
          (keep_text (λ u. is_to 56 (str_length u))))
        (keep_text (starts b'G'))
      ≡ keep_text (starts b'G') (Value.text t)
key_lem t = elim (Bool-cases (starts b'G' t)) [
  | inl key ↦
      let length_56 = starts-length b'G' t key in
      let long : is_from 56 (str_length t) ≡ true = ap (is_from 56) length_56 in
      let short : is_to 56 (str_length t) ≡ true = ap (is_to 56) length_56 in
      rw (long, short, key) refl
  | inr other ↦ elim (Bool-cases (is_from 56 (str_length t))) [
    | inl long ↦ elim (Bool-cases (is_to 56 (str_length t))) [
      | inl short ↦ rw (long, short, other) refl
      | inr longer ↦ rw (long, longer, other) refl
    ]
    | inr shorter ↦ rw (shorter, other) refl
  ]
]

module _ {Schema : Type 0} (zod : Zod Schema) (is_zod : IsZod zod) where
  pub address_lem : (v : Value) → zod.parse (address_field zod) v ≡ keep_text (starts b'G') v
  unfolding address_field
  address_lem v =
      is_zod.regex_law (starts b'G') _ v
      ∙ ap (λ o. and_then o (keep_text (starts b'G')))
          (is_zod.max_length_law 56 _ v
            ∙ ap (λ o. and_then o (keep_text (λ u. is_to 56 (str_length u))))
                (is_zod.min_length_law 56 _ v
                  ∙ ap (λ o. and_then o (keep_text (λ u. is_from 56 (str_length u))))
                      (is_zod.string_law v)))
      ∙ go v
    where
      go :
          (v : Value)
          → and_then
              (and_then
                (and_then (keep_text all_texts v) (keep_text (λ u. is_from 56 (str_length u))))
                (keep_text (λ u. is_to 56 (str_length u))))
              (keep_text (starts b'G'))
            ≡ keep_text (starts b'G') v
      go Value.undefined = refl
      go (Value.text t) = key_lem t
      go (Value.number n) = refl
      go (Value.truth b) = refl

  pub amount_lem :
      (v : Value)
      → zod.parse (zod.refine is_positive (digits_field zod)) v ≡ keep_text is_positive v
  unfolding digits_field
  amount_lem v =
      is_zod.refine_law is_positive _ v
      ∙ ap (λ o. and_then o (keep_text is_positive))
          (is_zod.regex_law is_digits _ v
            ∙ ap (λ o. and_then o (keep_text is_digits)) (is_zod.string_law v))
      ∙ go v
    where
      go :
          (v : Value)
          → and_then
              (and_then (keep_text all_texts v) (keep_text is_digits))
              (keep_text is_positive)
            ≡ keep_text is_positive v
      go Value.undefined = refl
      go (Value.text t) = elim (Option-cases (parse_digits t)) [
        | inl e ↦ ground (arith, e)
        | inr (n, e) ↦ ground (arith, e)
      ]
      go (Value.number n) = refl
      go (Value.truth b) = refl

  -- What an object accepted, field by field
  pub field_iff :
      (name : String) (s : Schema) (fields : List (String × Schema)) (body out : Body)
      → (zod.parse_object ((name, s) ∷ fields) body ≡ some out) ↔ (
          (v : Value) × (parsed : Body) × (zod.parse s (body name) ≡ some v)
          × (zod.parse_object fields body ≡ some parsed)
          × (put name v parsed ≡ out))
  field_iff name s fields body out =
      let law = is_zod.object_field name s fields body in
      let (down, up) =
        both_iff (zod.parse s (body name)) (zod.parse_object fields body) (put name) out in
      (λ h. down (sym law ∙ h), λ h. law ∙ up h)

  pub keeps :
      (s : Schema) (test : String → Bool)
      → ((v : Value) → zod.parse s v ≡ keep_text test v)
      → (v w : Value) → zod.parse s v ≡ some w
      → (t : String) × (v ≡ Value.text t) × (test t ≡ true) × (w ≡ v)
  keeps s test law v w h = (keep_text_iff test v w).0 (sym (law v) ∙ h)

  pub kept_as :
      (s : Schema) (test : String → Bool)
      → ((v : Value) → zod.parse s v ≡ keep_text test v)
      → (v : Value) (t : String) → v ≡ Value.text t
      → test t ≡ true
      → zod.parse s v ≡ some v
  kept_as s test law v t same h = law v ∙ (keep_text_iff test v v).1 (t, same, h, refl)

-- ===== src/Schemas/Builders.antt =====
-- backend/src/schemas/auctions.ts: what the schemas use of Zod. Its builders, and what it makes of a
-- value, are arguments; `IsZod` states what the schemas rely on. A body is its fields by name,
-- `undefined` where one is missing; numbers are natural, and `Number(…)` rounds the number
-- that digits spell as Zod's `to_number` does, which is exact up to 2 ^ 53.
use stellar_urithi_bidz.Prelude.{
  ℕ, String, Bool, true, false, List, [], ◌∷◌, Option, none, some, ◌≡◌, ◌≤◌, leb, str_eq,
  if◌then◌else◌,
}
use stellar_urithi_bidz.Text.{parse_digits}
use stellar_urithi_bidz.Values.{Value}
use stellar_urithi_bidz.Format.{str_length}
use stellar_urithi_bidz.Upload.{includes}

abbrev pub Body : Type 0
Body = String → Value

-- What the schemas call of Zod, for its type of schemas
pub record Zod (Schema : Type 0) : Type 0 where
  pub string : Schema
  pub number : Schema
  pub enum : List String → Schema
  pub min_length : ℕ → Schema → Schema
  pub max_length : ℕ → Schema → Schema
  pub regex : (String → Bool) → Schema → Schema
  pub refine : (String → Bool) → Schema → Schema
  pub int : Schema → Schema
  pub min : ℕ → Schema → Schema
  pub max : ℕ → Schema → Schema
  pub transform_number : Schema → Schema
  -- `Number(…)` of digits that spell a number; `none` is Infinity, which `int()` refuses behind it
  pub to_number : ℕ → Option ℕ
  pub pipe : Schema → Schema → Schema
  pub optional : Schema → Schema
  pub parse : Schema → Value → Option Value
  -- `z.object(fields).parse`, and with a `refine` behind it
  pub parse_object : List (String × Schema) → Body → Option Body
  pub parse_refined : List (String × Schema) → (Body → Bool) → Body → Option Body

-- `/^\d+$/`
abbrev pub is_digits : String → Bool
is_digits s = elim (parse_digits s) [ none ↦ false | some n ↦ true ]

abbrev pub and_then {ℓ κ} : {A : Type ℓ} {B : Type κ} → Option A → (A → Option B) → Option B
and_then none next = none
and_then (some a) next = next a

-- A text that passes a test stays.
abbrev pub keep_text : (String → Bool) → Value → Option Value
keep_text test (Value.text s) = if test s then some (Value.text s) else none
keep_text test _ = none

abbrev pub keep_number : (ℕ → Bool) → Value → Option Value
keep_number test (Value.number n) = if test n then some (Value.number n) else none
keep_number test _ = none

abbrev pub rounded : Option ℕ → Option Value
rounded none = none
rounded (some n) = some (Value.number n)

-- `Number(s)` of a text of digits, with the rounding as an argument
abbrev pub number_of : (ℕ → Option ℕ) → Value → Option Value
number_of to_number (Value.text s) = and_then (parse_digits s) (λ n. rounded (to_number n))
number_of to_number _ = none

abbrev pub all_texts : String → Bool
all_texts s = true

abbrev pub all_numbers : ℕ → Bool
all_numbers n = true

abbrev pub is_from : ℕ → ℕ → Bool
is_from bound n = leb bound n

abbrev pub is_to : ℕ → ℕ → Bool
is_to bound n = leb n bound

-- No field
abbrev pub no_fields : Body
no_fields name = Value.undefined

abbrev pub put : String → Value → Body → Body
put name v body other = if str_eq other name then v else body other

-- What Zod documents of them. The law of `transform_number` asks for texts of digits, which the
-- schemas check before.
pub record IsZod {Schema : Type 0} (zod : Zod Schema) : Type 0 where
  pub string_law : (v : Value) → zod.parse zod.string v ≡ keep_text all_texts v
  pub number_law : (v : Value) → zod.parse zod.number v ≡ keep_number all_numbers v
  pub enum_law :
      (options : List String) (v : Value)
      → zod.parse (zod.enum options) v ≡ keep_text (includes options) v
  pub min_length_law :
      (n : ℕ) (s : Schema) (v : Value)
      → zod.parse (zod.min_length n s) v
        ≡ and_then (zod.parse s v) (keep_text (λ t. is_from n (str_length t)))
  pub max_length_law :
      (n : ℕ) (s : Schema) (v : Value)
      → zod.parse (zod.max_length n s) v
        ≡ and_then (zod.parse s v) (keep_text (λ t. is_to n (str_length t)))
  pub regex_law :
      (test : String → Bool) (s : Schema) (v : Value)
      → zod.parse (zod.regex test s) v ≡ and_then (zod.parse s v) (keep_text test)
  pub refine_law :
      (test : String → Bool) (s : Schema) (v : Value)
      → zod.parse (zod.refine test s) v ≡ and_then (zod.parse s v) (keep_text test)
  pub int_law : (s : Schema) (v : Value) → zod.parse (zod.int s) v ≡ zod.parse s v
  pub min_law :
      (n : ℕ) (s : Schema) (v : Value)
      → zod.parse (zod.min n s) v ≡ and_then (zod.parse s v) (keep_number (is_from n))
  pub max_law :
      (n : ℕ) (s : Schema) (v : Value)
      → zod.parse (zod.max n s) v ≡ and_then (zod.parse s v) (keep_number (is_to n))
  pub transform_number_law :
      (s : Schema) (v : Value)
      → zod.parse (zod.transform_number (zod.regex is_digits s)) v
        ≡ and_then (zod.parse (zod.regex is_digits s) v) (number_of zod.to_number)
  pub exact_law : (n : ℕ) → n ≤ 9007199254740992 → zod.to_number n ≡ some n
  pub pipe_law :
      (s next : Schema) (v : Value)
      → zod.parse (zod.pipe s next) v ≡ and_then (zod.parse s v) (zod.parse next)
  pub optional_undefined :
      (s : Schema) → zod.parse (zod.optional s) Value.undefined ≡ some Value.undefined
  pub optional_text :
      (s : Schema) (t : String)
      → zod.parse (zod.optional s) (Value.text t) ≡ zod.parse s (Value.text t)
  pub optional_number :
      (s : Schema) (n : ℕ)
      → zod.parse (zod.optional s) (Value.number n) ≡ zod.parse s (Value.number n)
  pub optional_truth :
      (s : Schema) (b : Bool)
      → zod.parse (zod.optional s) (Value.truth b) ≡ zod.parse s (Value.truth b)
  -- An object keeps the named fields, each as its schema has it.
  pub object_empty : (body : Body) → zod.parse_object [] body ≡ some no_fields
  pub object_field :
      (name : String) (s : Schema) (fields : List (String × Schema)) (body : Body)
      → zod.parse_object ((name, s) ∷ fields) body
        ≡ and_then
            (zod.parse s (body name))
            (λ v. and_then (zod.parse_object fields body) (λ parsed. some (put name v parsed)))
  pub refined_law :
      (fields : List (String × Schema)) (test : Body → Bool) (body : Body)
      → zod.parse_refined fields test body
        ≡ and_then
            (zod.parse_object fields body)
            (λ parsed. if test parsed then some parsed else none)

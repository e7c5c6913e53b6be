-- ===== src/Listing/Answer.antt =====
-- frontend/src/lib/api.ts and frontend/src/app/page.tsx: the answer of the back end, and what the
-- home page keeps of it.
use stellar_urithi_bidz.Prelude.{
  ℕ, String, Bool, true, false, List, Option, none, some, str_append, ◌≡◌, refl,
}
use stellar_urithi_bidz.Values.{decimal}
use stellar_urithi_bidz.Auth.{truthy}

pub record ApiResponse {ℓ} (A : Type ℓ) : Type ℓ where
  pub success : Bool
  pub data_ : Option A
  pub error : Option String

-- What `fetch` gives: an exception, with its message if it is an `Error`; a status that is not ok,
-- with the status text and the `error` of the body, where there is one; the body, or the message of
-- the exception that reading it throws.
pub data HttpAnswer {ℓ} (A : Type ℓ) : Type ℓ where
  thrown : Option String → HttpAnswer A
  not_ok : ℕ → String → Option String → HttpAnswer A
  ok : ApiResponse A → HttpAnswer A

-- `fetchApi`
unfoldable pub fetch_api {ℓ} : {A : Type ℓ} → HttpAnswer A → ApiResponse A
unfolding decimal
fetch_api (ok body) = body
fetch_api (thrown none) = record { success = false; data_ = none; error = some "Network error" }
fetch_api (thrown (some message)) = record { success = false; data_ = none; error = some message }
fetch_api (not_ok status status_text reason) = record {
  success = false;
  data_ = none;
  error = elim (truthy reason) [
    | some r ↦ some r
    | none ↦ some (str_append "HTTP " (str_append (decimal status) (str_append ": " status_text)))
  ];
}

pub record Home {ℓ κ} (Item : Type ℓ) (Analytics : Type κ) : Type (ℓ ⊔ κ) where
  pub auctions : List Item
  pub analytics : Option Analytics
  pub loading : Bool

module _ {ℓ κ} {Item : Type ℓ} {Analytics : Type κ} where
  -- `fetchAuctions` of the home page
  unfoldable pub fetch_auctions :
      ApiResponse (List Item) → Home Item Analytics → Home Item Analytics
  fetch_auctions result home = elim result.success [
    | false ↦ record home { loading = false }
    | true ↦ elim result.data_ [
      | none ↦ record home { loading = false }
      | some found ↦ record home { auctions = found; loading = false }
    ]
  ]

  -- The effect that calls `getAnalytics`
  unfoldable pub fetch_analytics : ApiResponse Analytics → Home Item Analytics → Home Item Analytics
  fetch_analytics result home = elim result.success [
    | false ↦ home
    | true ↦ elim result.data_ [ none ↦ home | some found ↦ record home { analytics = some found } ]
  ]

  -- A request that does not reach an ok answer leaves the list as it was.
  failed_fetch_keeps :
      (status : ℕ) (status_text : String) (reason : Option String) (home : Home Item Analytics)
      → fetch_auctions (fetch_api (not_ok status status_text reason)) home
        ≡ record home { loading = false }
  unfolding fetch_auctions fetch_api
  failed_fetch_keeps status status_text reason home = refl

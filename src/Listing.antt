-- ===== src/Listing.antt =====
-- The list of auctions, from the home page to PostgreSQL: `fetchApi` and `getAuctions` of
-- frontend/src/lib/api.ts, `validate` of backend/src/middleware/validate.ts, the reading routes of
-- backend/src/routes/auctions.ts and the queries of backend/src/db/index.ts that they run. What
-- `fetch`, the Zod schemas and PostgreSQL answer is an argument.
pub mod Answer
pub mod Placeholders
pub mod Request
mod Tests
use stellar_urithi_bidz.Prelude.{
  ℕ, ◌+◌, String, Bool, true, false, List, [], ◌∷◌, ◌++◌, map, Option, none, some, ◌==◌, str_eq,
  str_append, if◌then◌else◌, Result, fail, pass, ◌>>=◌,
}
use stellar_urithi_bidz.Values.{Value, text, number, decimal}
use stellar_urithi_bidz.Auth.{truthy}

-- The parameters of both functions `getAuctions`
pub record AuctionFilter : Type 0 where
  pub status : Option String
  pub format : Option String
  pub seller : Option String
  pub limit : Option ℕ
  pub offset : Option ℕ

pub record BidFilter : Type 0 where
  pub bidder : Option String
  pub limit : Option ℕ
  pub offset : Option ℕ

-- `n || default`
abbrev pub number_or : ℕ → Option ℕ → ℕ
number_or default none = default
number_or default (some n) = if n == 0 then default else n

-- A query with the values of its placeholders
pub record SqlQuery : Type 0 where
  pub sql : String
  pub values : List Value

-- `conds`, `vals` and `i`
pub record Builder : Type 0 where
  pub conds : List String
  pub vals : List Value
  pub i : ℕ

abbrev pub no_conditions : Builder
no_conditions = record { conds = []; vals = []; i = 1 }

abbrev pub placeholder : String → ℕ → String
placeholder column i = str_append column (str_append "=$" (decimal i))

abbrev pub add_condition : String → Option String → Builder → Builder
add_condition column none b = b
add_condition column (some v) b = record {
  conds = b.conds ++ placeholder column b.i ∷ [];
  vals = b.vals ++ text v ∷ [];
  i = b.i + 1;
}

-- One of the lines `if (params.…) { … }`
unfoldable pub condition : String → Option String → Builder → Builder
condition column value = add_condition column (truthy value)

abbrev pub join : String → List String → String
join separator [] = ""
join separator (s ∷ []) = s
join separator (s ∷ t ∷ rest) = str_append s (str_append separator (join separator (t ∷ rest)))

abbrev pub where_of : List String → String
where_of [] = ""
where_of (c ∷ cs) = str_append "WHERE " (join " AND " (c ∷ cs))

abbrev pub select_from : String → List String → ℕ → String
select_from table conds i = str_append "SELECT * FROM " (
    str_append table (
      str_append " " (
        str_append (where_of conds) (
          str_append " ORDER BY created_at DESC LIMIT $"
            (str_append (decimal i) (str_append " OFFSET $" (decimal (i + 1))))))))

-- What both functions do with the conditions
unfoldable pub paged : String → Builder → Option ℕ → Option ℕ → SqlQuery
paged table b limit offset = record {
  sql = select_from table b.conds b.i;
  values = b.vals ++ number (number_or 50 limit) ∷ number (number_or 0 offset) ∷ [];
}

unfoldable pub get_auctions : AuctionFilter → SqlQuery
unfolding condition paged
get_auctions params =
    paged "auctions"
      (condition "seller" params.seller
        (condition "format" params.format (condition "status" params.status no_conditions)))
      params.limit params.offset

unfoldable pub get_bid_history : BidFilter → SqlQuery
unfolding condition paged
get_bid_history params =
    paged "bids" (condition "bidder" params.bidder no_conditions) params.limit params.offset

unfoldable pub get_auction : ℕ → SqlQuery
get_auction id = record { sql = "SELECT * FROM auctions WHERE id=$1"; values = number id ∷ [] }

unfoldable pub get_bids_for_auction : ℕ → SqlQuery
get_bids_for_auction auction_id = record {
  sql = "SELECT * FROM bids WHERE auction_id=$1 ORDER BY timestamp DESC";
  values = number auction_id ∷ [];
}

-- What `schema.parse` throws: the errors of Zod, each with its path, or something else.
pub data ParseError : Type 0 where
  zod_error : List (List String × String) → ParseError
  other : ParseError

-- The answers that are no success: 400 with the fields and messages, what `next(err)` leads to,
-- 404, and 500 with its text.
pub data ReadError : Type 0 where
  validation_failed : List (String × String) → ReadError
  next_error not_found : ReadError
  internal : String → ReadError

abbrev detail : List String × String → String × String
detail e = let (path, message) = e in (join "." path, message)

-- `validate(schema, …)` on the part of the request that it reads
unfoldable pub validate {ℓ κ} :
    {A : Type ℓ} {B : Type κ} → (A → Result ParseError B) → A → Result ReadError B
validate parse target = elim (parse target) [
  | pass parsed ↦ pass parsed
  | fail error ↦ elim error [
    | zod_error errors ↦ fail (validation_failed (map detail errors))
    | other ↦ fail next_error
  ]
]

-- `pool.query`, which throws or gives rows
abbrev pub Run {ℓ} : Type ℓ → Type ℓ
Run Row = SqlQuery → Result String (List Row)

module _ {ℓ} {Row : Type ℓ} where
  abbrev rows_or : Run Row → String → SqlQuery → Result ReadError (List Row)
  rows_or run message statement = elim (run statement) [
    | fail error ↦ fail (internal message)
    | pass rows ↦ pass rows
  ]

  -- `rows[0]`, and 404 without it
  abbrev first_row : List Row → Result ReadError Row
  first_row [] = fail not_found
  first_row (row ∷ rows) = pass row

module _ {ℓ κ} {Row : Type ℓ} {Query : Type κ} (run : Run Row) where
  -- GET /api
  unfoldable pub list_auctions :
      (Query → Result ParseError AuctionFilter) → Query → Result ReadError (List Row)
  unfolding validate
  list_auctions parse query =
      validate parse query
      >>= (λ params. rows_or run "Failed to fetch auctions" (get_auctions params))

  -- GET /api/bids
  unfoldable pub bid_history :
      (Query → Result ParseError BidFilter) → Query → Result ReadError (List Row)
  unfolding validate
  bid_history parse query =
      validate parse query
      >>= (λ params. rows_or run "Failed to fetch bid history" (get_bid_history params))

  -- GET /api/:id
  unfoldable pub auction_detail : (Query → Result ParseError ℕ) → Query → Result ReadError Row
  unfolding validate
  auction_detail parse query =
      validate parse query
      >>= (λ id. rows_or run "Failed to fetch auction" (get_auction id))
      >>= first_row

  -- GET /api/:id/bids
  unfoldable pub auction_bids : (Query → Result ParseError ℕ) → Query → Result ReadError (List Row)
  unfolding validate
  auction_bids parse query =
      validate parse query >>= (λ id. rows_or run "Failed to fetch bids" (get_bids_for_auction id))

abbrev pub push : String → Option String → List (String × String) → List (String × String)
push key none rest = rest
push key (some v) rest = (key, v) ∷ rest

-- `String(n)`, unless it is missing or 0
abbrev pub digits : Option ℕ → Option String
digits none = none
digits (some n) = if n == 0 then none else some (decimal n)

-- The pairs that `getAuctions` of the application sets, in their order
unfoldable pub search_params : AuctionFilter → List (String × String)
search_params params = push "status" (truthy params.status) (
    push "format" (truthy params.format) (
      push "seller" (truthy params.seller)
        (push "limit" (digits params.limit) (push "offset" (digits params.offset) []))))

-- ===== src/Listing/Request.antt =====
-- frontend/src/lib/api.ts and backend/src/routes/auctions.ts: a request of the application's
-- `getAuctions`, from its parameters to the query that the back end runs.
use stellar_urithi_bidz.Prelude.{
  ℕ, String, List, [], ◌∷◌, Option, none, some, ◌≡◌, str_eq, if◌then◌else◌, Result, pass,
}
use stellar_urithi_bidz.Text.{parse_digits}
use stellar_urithi_bidz.Listing.{AuctionFilter, ParseError}

-- `req.query`
abbrev pub lookup : List (String × String) → String → Option String
lookup [] key = none
lookup (pair ∷ pairs) key =
    let (name, value) = pair in
    let rest = lookup pairs key in if str_eq name key then some value else rest

abbrev pub number_of : Option String → Option ℕ
number_of none = none
number_of (some s) = parse_digits s

abbrev pub Parser : Type 0
Parser = (String → Option String) → Result ParseError AuctionFilter

-- What `listAuctionsSchema` does to a query that it accepts, as Zod documents optional strings and
-- `transform(Number)` behind `/^\d+$/`: texts stay as they are, and digits become their number.
pub record KeepsFields (parse : Parser) : Type 0 where
  pub keeps :
      (query : String → Option String) (params : AuctionFilter)
      → parse query ≡ pass params
      → (params.status ≡ query "status")
        × (params.format ≡ query "format")
        × (params.seller ≡ query "seller")
        × (params.limit ≡ number_of (query "limit"))
        × (params.offset ≡ number_of (query "offset"))

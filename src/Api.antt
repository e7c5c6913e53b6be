-- ===== src/Api.antt =====
-- backend/src/index.ts and backend/src/routes/auctions.ts: the HTTP application, as Express puts it
-- together. A route is found by its method and the segments of its path, in lower case; the clock
-- stands while a request is handled. The Zod schemas and what PostgreSQL answers are arguments.
pub mod Reach
pub mod Posting
mod Tests
use stellar_urithi_bidz.Prelude.{
  ℕ, String, Bool, true, false, ◌&&◌, ◌||◌, List, [], ◌∷◌, map, Option, none, some, ◌≡◌, str_eq,
  if◌then◌else◌, Result, fail, pass,
}
use stellar_urithi_bidz.RateLimiter.{
  Store, Outcome, passed, refused, default_rate_limiter, strict_rate_limiter,
}
use stellar_urithi_bidz.RateLimiter.Sharing.{post}
use stellar_urithi_bidz.Auth.{Verifier, SeenNonces, AuthRequest, AuthError, stellar_auth_middleware}
use stellar_urithi_bidz.Database.{AuctionRecord, DatabaseError}
use stellar_urithi_bidz.Routes.{RouteError, found}
use stellar_urithi_bidz.Listing.{ParseError, ReadError, validate}

pub data Method : Type 0 where
  get_ post_ : Method

-- A segment of a route's path: a text, or the parameter `:id`.
pub data Segment : Type 0 where
  literal : String → Segment
  id : Segment

-- The handlers, each named for what it does
pub data Handler : Type 0 where
  app_health database_health auctions bids analytics simulation auction auction_bids : Handler
  bid_simulation creation bid_placement : Handler

pub record Route : Type 0 where
  pub method : Method
  pub path : List Segment
  pub handler : Handler

abbrev app_health_route : Route
app_health_route = record {
  method = get_;
  path = literal "api" ∷ literal "health" ∷ [];
  handler = app_health;
}

abbrev health_route : Route
health_route = record { method = get_; path = literal "health" ∷ []; handler = database_health }

abbrev list_route : Route
list_route = record { method = get_; path = []; handler = auctions }

abbrev bids_route : Route
bids_route = record { method = get_; path = literal "bids" ∷ []; handler = bids }

abbrev analytics_route : Route
analytics_route = record { method = get_; path = literal "analytics" ∷ []; handler = analytics }

abbrev simulate_create_route : Route
simulate_create_route = record {
  method = post_;
  path = literal "simulate-create" ∷ [];
  handler = simulation;
}

abbrev auction_route : Route
auction_route = record { method = get_; path = id ∷ []; handler = auction }

abbrev auction_bids_route : Route
auction_bids_route = record {
  method = get_;
  path = id ∷ literal "bids" ∷ [];
  handler = auction_bids;
}

abbrev simulate_bid_route : Route
simulate_bid_route = record {
  method = post_;
  path = id ∷ literal "simulate-bid" ∷ [];
  handler = bid_simulation;
}

abbrev create_route : Route
create_route = record { method = post_; path = []; handler = creation }

abbrev place_bid_route : Route
place_bid_route = record {
  method = post_;
  path = id ∷ literal "bids" ∷ [];
  handler = bid_placement;
}

-- The routes of the router, in their order
abbrev pub router_routes : List Route
router_routes =
    health_route ∷ list_route ∷ bids_route ∷ analytics_route ∷ simulate_create_route ∷ auction_route
    ∷ auction_bids_route ∷ simulate_bid_route ∷ create_route ∷ place_bid_route ∷ []

-- `app.use("/api", auctionRoutes)`
abbrev mounted : Route → Route
mounted route = record route { path = literal "api" ∷ route.path }

-- `/api/health` stands before the router.
abbrev pub routes : List Route
routes = app_health_route ∷ map mounted router_routes

abbrev pub same_method : Method → Method → Bool
same_method get_ get_ = true
same_method get_ post_ = false
same_method post_ get_ = false
same_method post_ post_ = true

abbrev pub fits : List Segment → List String → Bool
fits [] [] = true
fits [] (s ∷ segments) = false
fits (p ∷ path) [] = false
fits (literal text ∷ path) (s ∷ segments) = str_eq text s && fits path segments
fits (id ∷ path) (s ∷ segments) = fits path segments

-- What the application relies on of Express: the first route that fits answers, and where none does
-- the request has no handler.
pub record IsFirstMatch (dispatch : List Route → Method → List String → Option Handler)
    : Type 0 where
  pub none_left : (method : Method) (segments : List String) → dispatch [] method segments ≡ none
  pub answers :
      (route : Route) (rest : List Route) (method : Method) (segments : List String)
      → same_method route.method method && fits route.path segments ≡ true
      → dispatch (route ∷ rest) method segments ≡ some route.handler
  pub passes_on :
      (route : Route) (rest : List Route) (method : Method) (segments : List String)
      → same_method route.method method && fits route.path segments ≡ false
      → dispatch (route ∷ rest) method segments ≡ dispatch rest method segments

-- The state that requests share
pub record Api : Type 0 where
  pub store : Store
  pub seen_nonces : SeenNonces

pub data ApiError : Type 0 where
  too_many_requests : Option ℕ → ApiError
  invalid : ReadError → ApiError
  unauthorized : AuthError → ApiError
  route_error : RouteError → ApiError

-- The two headers of a signed request
pub record SignedHeaders : Type 0 where
  pub signature : Option String
  pub message : Option String

abbrev pub auth_request : Option String → SignedHeaders → AuthRequest
auth_request address headers = record {
  address = address;
  signature = headers.signature;
  message = headers.message;
}

-- The handler of POST /api/:id/bids, on a request that came so far or was refused
unfoldable pub placed {ℓ} :
    {Parsed : Type ℓ}
    → (Parsed → ℕ)
    → (ℕ → Result DatabaseError (Option AuctionRecord))
    → Result ApiError Parsed
    → Result ApiError Parsed
placed id_of get_auction (fail error) = fail error
placed id_of get_auction (pass parsed) = elim (found (get_auction (id_of parsed))) [
  | fail error ↦ fail (route_error error)
  | pass row ↦ pass parsed
]

module _ {ℓ κ} {Query : Type ℓ} {Parsed : Type κ} (verify : Verifier)
    (parse : Query → Result ParseError Parsed) (address_of : Parsed → Option String) where
  -- `stellarAuthMiddleware(field)`, after the limiters and the validation
  unfoldable pub authenticated : SignedHeaders → ℕ → Api → Parsed → Api × Result ApiError Parsed
  authenticated headers now api parsed =
      let (seen, answer) =
        stellar_auth_middleware verify (auth_request (address_of parsed) headers) now
          api.seen_nonces in
      (
        record api { seen_nonces = seen },
        elim answer [ fail error ↦ fail (unauthorized error) | pass key ↦ pass parsed ],
      )

  abbrev validated : SignedHeaders → ℕ → Api → Query → Api × Result ApiError Parsed
  validated headers now api query = elim (validate parse query) [
    | fail error ↦ (api, fail (invalid error))
    | pass parsed ↦ authenticated headers now api parsed
  ]

  -- What follows the two limiters
  unfoldable pub after_limits :
      Outcome → SignedHeaders → ℕ → Api → Query → Api × Result ApiError Parsed
  after_limits (refused retry_after limit) headers now api query =
      (api, fail (too_many_requests retry_after))
  after_limits (passed limit remaining) headers now api query = validated headers now api query

  -- Both limiters, the validation and the authentication of a POST that is to be signed
  unfoldable pub guarded : String → SignedHeaders → ℕ → Api → Query → Api × Result ApiError Parsed
  guarded key headers now api query =
      let (store, outcome) = post default_rate_limiter strict_rate_limiter key now now api.store in
      after_limits outcome headers now (record api { store = store }) query

  -- POST /api: the id is the clock's time.
  unfoldable pub post_auction :
      String → SignedHeaders → ℕ → Api → Query → Api × Result ApiError (ℕ × Parsed)
  post_auction key headers now api query =
      let (api', answer) = guarded key headers now api query in
      (api', elim answer [ fail error ↦ fail error | pass parsed ↦ pass (now, parsed) ])

  -- POST /api/:id/bids, where `parse` is both validations, and `id_of` the id among the parameters
  unfoldable pub post_bid :
      (Parsed → ℕ)
      → (ℕ → Result DatabaseError (Option AuctionRecord))
      → String
      → SignedHeaders
      → ℕ
      → Api
      → Query
      → Api × Result ApiError Parsed
  post_bid id_of get_auction key headers now api query =
      let (api', answer) = guarded key headers now api query in
      (api', placed id_of get_auction answer)

-- ===== src/Api/Reach.antt =====
-- backend/src/index.ts: which handlers a request can reach.
use stellar_urithi_bidz.Prelude.{
  String, List, [], ◌∷◌, Option, none, some, Bool-cases, inl, inr, ◌≡◌, ◌≢◌, ◌↔◌, ◌&&◌,
  if◌then◌else◌, sym, refl, ap, ◌∙◌, arith,
}
use stellar_urithi_bidz.Api.{
  Method, get_, post_, Handler, app_health, database_health, auctions, bids, analytics, simulation,
  auction, auction_bids, bid_simulation, creation, bid_placement, Route, routes, same_method,
  IsFirstMatch, fits,
}

-- A dispatcher as Express's is documented
unfoldable pub first_match : List Route → Method → List String → Option Handler
first_match [] method segments = none
first_match (route ∷ rest) method segments =
    let later = first_match rest method segments in
    if same_method route.method method && fits route.path segments
    then some route.handler
    else later

pub first_match-IsFirstMatch : IsFirstMatch first_match
unfolding first_match
first_match-IsFirstMatch = record {
  none_left = λ method segments. refl;
  answers = λ route rest method segments h. rw h refl;
  passes_on = λ route rest method segments h. rw h refl;
}

health_hidden :
    (method : Method) (segments : List String)
    → first_match routes method segments ≢ some database_health
unfolding first_match
health_hidden post_ [] h = absurd (ground arith)
health_hidden post_ (a ∷ []) h = absurd (ground arith)
health_hidden post_ (a ∷ b ∷ []) h = absurd (ground arith)
health_hidden post_ (a ∷ b ∷ c ∷ []) h = absurd (ground arith)
health_hidden post_ (a ∷ b ∷ c ∷ d ∷ rest) h = absurd (ground arith)
health_hidden get_ [] h = absurd (ground arith)
health_hidden get_ (a ∷ []) h = absurd (ground arith)
health_hidden get_ (a ∷ b ∷ []) h = absurd (ground arith)
health_hidden get_ (a ∷ b ∷ c ∷ []) h = absurd (ground arith)
health_hidden get_ (a ∷ b ∷ c ∷ d ∷ rest) h = absurd (ground arith)

abbrev pub IsReached : (List Route → Method → List String → Option Handler) → Handler → Type 0
IsReached dispatch handler =
    (method : Method) × (segments : List String) × (dispatch routes method segments ≡ some handler)

answered : (handler : Handler) → handler ≢ database_health → IsReached first_match handler
unfolding first_match
answered app_health h = (get_, "api" ∷ "health" ∷ [], refl)
answered database_health h = absurd (h refl)
answered auctions h = (get_, "api" ∷ [], refl)
answered bids h = (get_, "api" ∷ "bids" ∷ [], refl)
answered analytics h = (get_, "api" ∷ "analytics" ∷ [], refl)
answered simulation h = (post_, "api" ∷ "simulate-create" ∷ [], refl)
answered auction h = (get_, "api" ∷ "7" ∷ [], refl)
answered auction_bids h = (get_, "api" ∷ "7" ∷ "bids" ∷ [], refl)
answered bid_simulation h = (post_, "api" ∷ "7" ∷ "simulate-bid" ∷ [], refl)
answered creation h = (post_, "api" ∷ [], refl)
answered bid_placement h = (post_, "api" ∷ "7" ∷ "bids" ∷ [], refl)

module _ (dispatch : List Route → Method → List String → Option Handler)
    (express : IsFirstMatch dispatch) where
  dispatch_lem :
      (rs : List Route) (method : Method) (segments : List String)
      → dispatch rs method segments ≡ first_match rs method segments
  unfolding first_match
  dispatch_lem [] method segments = express.none_left method segments
  dispatch_lem (route ∷ rest) method segments =
      let ih = dispatch_lem rest method segments in
      elim (Bool-cases (same_method route.method method && fits route.path segments)) [
        | inl h ↦ ground (arith, h, express.answers route rest method segments h)
        | inr h ↦ ground (arith, h, ih, express.passes_on route rest method segments h)
      ]

  -- Where the first route that fits answers, each of the eleven handlers answers some request but the
  -- router's health check, which asks the database: the application's own answers in its place.
  pub reached_iff : (handler : Handler) → IsReached dispatch handler ↔ (handler ≢ database_health)
  reached_iff handler = (
    λ (method, segments, h) e.
        health_hidden method segments (sym (dispatch_lem routes method segments) ∙ h ∙ ap some e),
    λ h.
        let (method, segments, e) = answered handler h in
        (method, segments, dispatch_lem routes method segments ∙ e),
  )

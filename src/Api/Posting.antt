-- ===== src/Api/Posting.antt =====
-- backend/src/routes/auctions.ts: which bids and auctions are answered with status 201.
use stellar_urithi_bidz.Prelude.{
  ℕ, ◌+◌, ◌<◌, String, true, [], ◌∷◌, Option, none, some, ◌≡◌, ◌↔◌, refl, ap, sym, ◌∙◌, arith,
  Bool-cases, inl, inr, Result, fail, pass, Result-cases, pass-injective, length, length-append,
  filter-append,
}
use stellar_urithi_bidz.RateLimiter.{
  Store, Outcome, passed, refused, RateLimitConfig, default_rate_limiter, strict_rate_limiter, live,
  in_window, timestamps_of, limit, is_passed,
}
use stellar_urithi_bidz.RateLimiter.Sharing.{post}
use stellar_urithi_bidz.RateLimiter.Window.{timestamps-limit, live-live}
use stellar_urithi_bidz.Auth.{Verifier, stellar_auth_middleware}
use stellar_urithi_bidz.Auth.Message.{IsGenuine, next_iff}
use stellar_urithi_bidz.Database.{AuctionRecord, DatabaseError}
use stellar_urithi_bidz.Routes.{found}
use stellar_urithi_bidz.Listing.{ParseError, zod_error, other, validate}
use stellar_urithi_bidz.Api.{
  Api, ApiError, SignedHeaders, auth_request, authenticated, after_limits, validated, guarded,
  placed, post_bid,
}

-- A request passes a limiter exactly if it finds fewer live timestamps than the limit.
limit_iff :
    (config : RateLimitConfig) (key : String) (now : ℕ) (store : Store)
    → (is_passed (limit config key now store).1 ≡ true)
      ↔ (length (live config.window_ms now (timestamps_of store key)) < config.max_requests)
unfolding limit
limit_iff config key now store = (λ h. ground arith, λ h. ground arith)

-- The second limiter finds one timestamp more.
second_finds :
    (key : String) (now : ℕ) (store : Store)
    → is_passed (limit default_rate_limiter key now store).1 ≡ true
    → length (live 60000 now (timestamps_of (limit default_rate_limiter key now store).0 key))
      ≡ length (live 60000 now (timestamps_of store key)) + 1
second_finds key now store h = ground (
  arith,
  timestamps-limit default_rate_limiter key now store,
  live-live 60000 60000 now now (timestamps_of store key),
  filter-append (in_window 60000 now) (live 60000 now (timestamps_of store key)) (now ∷ []),
  length-append (live 60000 now (timestamps_of store key)) (now ∷ []),
)

-- Both limiters let a POST through exactly if fewer than 19 timestamps are live.
post-passed :
    (key : String) (now : ℕ) (store : Store)
    → (is_passed (post default_rate_limiter strict_rate_limiter key now now store).1 ≡ true)
      ↔ (length (live 60000 now (timestamps_of store key)) < 19)
unfolding post
post-passed key now store =
    elim (Bool-cases (is_passed (limit default_rate_limiter key now store).1)) [
      | inl first ↦
          let (down, up) =
            limit_iff strict_rate_limiter key now (limit default_rate_limiter key now store).0 in
          let one_more = second_finds key now store first in
          (
            λ h. omega (arith, down (rw first at h), one_more),
            λ h. rw first (up (omega (arith, h, one_more))),
          )
      | inr first ↦
          let up = (limit_iff default_rate_limiter key now store).1 in
          (
            λ h. absurd (ground (arith, first, h)),
            λ h. absurd (ground (arith, first, up (omega (arith, h)))),
          )
    ]

is_passed-eq-true :
    (outcome : Outcome)
    → is_passed outcome ≡ true
    → (limit_ : ℕ) × (remaining : ℕ) × (outcome ≡ passed limit_ remaining)
is_passed-eq-true (passed limit_ remaining) h = (limit_, remaining, refl)
is_passed-eq-true (refused retry limit_) h = cc

validate_iff {ℓ κ} :
    {A : Type ℓ} {B : Type κ} (parse : A → Result ParseError B) (target : A) (parsed : B)
    → (validate parse target ≡ pass parsed) ↔ (parse target ≡ pass parsed)
unfolding validate
validate_iff parse target parsed = elim (Result-cases (parse target)) [
  | inl (zod_error errors, e) ↦
      (λ h. absurd (ground (arith, e, h)), λ h. absurd (ground (arith, e, h)))
  | inl (other, e) ↦ (λ h. absurd (ground (arith, e, h)), λ h. absurd (ground (arith, e, h)))
  | inr (sent, e) ↦ (
    λ h. e ∙ ap pass (pass-injective (rw (validate, e) at h)),
    λ h. rw (validate, e) (ap pass (pass-injective (sym e ∙ h))),
  )
]

found_iff :
    (answer : Result DatabaseError (Option AuctionRecord)) (row : AuctionRecord)
    → (found answer ≡ pass row) ↔ (answer ≡ pass (some row))
found_iff (fail error) row = (λ h. cc, λ h. cc)
found_iff (pass none) row = (λ h. cc, λ h. cc)
found_iff (pass (some seen)) row =
    (λ h. ap (λ r. pass (some r)) (pass-injective h), λ h. ground (arith, h))

placed_iff {κ} :
    {Parsed : Type κ} (id_of : Parsed → ℕ)
    (get_auction : ℕ → Result DatabaseError (Option AuctionRecord))
    (answer : Result ApiError Parsed) (parsed : Parsed)
    → (placed id_of get_auction answer ≡ pass parsed) ↔ (
        (answer ≡ pass parsed)
        × ((row : AuctionRecord) × (get_auction (id_of parsed) ≡ pass (some row))))
unfolding placed
placed_iff id_of get_auction (fail error) parsed = (λ h. cc, λ (h, _). cc)
placed_iff id_of get_auction (pass sent) parsed =
    elim (Result-cases (found (get_auction (id_of sent)))) [
      | inl (error, e) ↦ (
        λ h. absurd (ground (arith, e, h)),
        λ (h, (row, e2)).
            let there = (found_iff (get_auction (id_of parsed)) row).1 e2 in
            absurd (
              ground (arith, e, ap (λ x. found (get_auction (id_of x))) (pass-injective h), there)),
      )
      | inr (row, e) ↦ (
        λ h.
            let same = pass-injective (rw (placed, e) at h) in
            (ap pass same, (row, rw (← same) ((found_iff (get_auction (id_of sent)) row).0 e))),
        λ (h, _). rw (placed, e) (ap pass (pass-injective h)),
      )
    ]

module _ {ℓ κ} {Query : Type ℓ} {Parsed : Type κ} (verify : Verifier)
    (parse : Query → Result ParseError Parsed) (address_of : Parsed → Option String) (key : String)
    (headers : SignedHeaders) (now : ℕ) (api : Api) (query : Query) where
  -- What a signed POST needs before its handler runs
  abbrev pub IsAdmitted : Parsed → Type κ
  IsAdmitted parsed =
      (length (live 60000 now (timestamps_of api.store key)) < 19)
      × (parse query ≡ pass parsed)
      × IsGenuine verify (auth_request (address_of parsed) headers) now api.seen_nonces

  authenticated_iff :
      (held : Api) (sent parsed : Parsed)
      → ((authenticated verify parse address_of headers now held sent).1 ≡ pass parsed) ↔ (
          (sent ≡ parsed)
          × IsGenuine verify (auth_request (address_of sent) headers) now held.seen_nonces)
  unfolding authenticated
  authenticated_iff held sent parsed =
      let next = next_iff verify (auth_request (address_of sent) headers) now held.seen_nonces in
      elim (Result-cases
        (stellar_auth_middleware verify (auth_request (address_of sent) headers) now
          held.seen_nonces).1) [
            | inl (reason, e) ↦ (
              λ h. absurd (ground (arith, e, h)),
              λ (same, genuine). let (k, e2) = next.1 genuine in absurd (ground (arith, e, e2)),
            )
            | inr (k, e) ↦ (
              λ h. (pass-injective (rw (authenticated, e) at h), next.0 (k, e)),
              λ (same, genuine). rw (authenticated, e) (ap pass same),
            )
          ]

  -- What the first two stages leave for the authentication
  abbrev limited : Api
  limited = record api {
    store = (post default_rate_limiter strict_rate_limiter key now now api.store).0;
  }

  guarded-IsAdmitted :
      (parsed : Parsed)
      → (guarded verify parse address_of key headers now api query).1 ≡ pass parsed
      → IsAdmitted parsed
  unfolding guarded after_limits
  guarded-IsAdmitted parsed h =
      elim (Bool-cases
        (is_passed (post default_rate_limiter strict_rate_limiter key now now api.store).1)) [
          | inl first ↦
              let (_, _, passes) = is_passed-eq-true _ first in
              elim (Result-cases (validate parse query)) [
                | inl (error, e) ↦
                    absurd (ground (arith, rw (passes, after_limits, validated, e) at h))
                | inr (sent, e) ↦
                    let (same, genuine) =
                      (authenticated_iff limited sent parsed).0
                        (rw (passes, after_limits, validated, e) at h) in
                    (
                      (post-passed key now api.store).0 first,
                      (validate_iff parse query parsed).0 (e ∙ ap pass same),
                      rw (← same) genuine,
                    )
              ]
          | inr refuses ↦ absurd (ground (arith, refuses, h))
        ]

  IsAdmitted-guarded :
      (parsed : Parsed)
      → IsAdmitted parsed
      → (guarded verify parse address_of key headers now api query).1 ≡ pass parsed
  unfolding guarded after_limits
  IsAdmitted-guarded parsed (room, valid, genuine) =
      let (_, _, passes) = is_passed-eq-true _ ((post-passed key now api.store).1 room) in
      rw (passes, after_limits, validated, (validate_iff parse query parsed).1 valid)
        ((authenticated_iff limited parsed parsed).1 (refl, genuine))

  -- A bid is answered with status 201 and its validated body exactly if fewer than 19 time stamps of
  -- the client are in the window of a minute (each limiter that lets a request through leaves one, so
  -- that a GET leaves one and an accepted POST two), the schemas accept it, it carries a genuine
  -- signature of its bidder, and its auction is found.
  pub post_bid_iff :
      (id_of : Parsed → ℕ) (get_auction : ℕ → Result DatabaseError (Option AuctionRecord))
      (parsed : Parsed)
      → ((post_bid verify parse address_of id_of get_auction key headers now api query).1
          ≡ pass parsed)
        ↔ (IsAdmitted parsed
            × ((row : AuctionRecord) × (get_auction (id_of parsed) ≡ pass (some row))))
  unfolding post_bid
  post_bid_iff id_of get_auction parsed =
      let (down, up) =
        placed_iff id_of get_auction (guarded verify parse address_of key headers now api query).1
          parsed in
      (
        λ h. let (e, row) = down h in (guarded-IsAdmitted parsed e, row),
        λ (admitted, row). up (IsAdmitted-guarded parsed admitted, row),
      )

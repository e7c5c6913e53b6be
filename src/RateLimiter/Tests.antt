-- ===== src/RateLimiter/Tests.antt =====
-- backend/src/middleware/rateLimiter.ts on concrete requests.
use stellar_urithi_bidz.Prelude.{
  ◌≤◌, true, false, List, [], ◌∷◌, none, some, ◌≡◌, refl, arith, empty, filter, length,
}
use stellar_urithi_bidz.RateLimiter.{
  RateLimitConfig, Store, apply, cleanup, Op, request, clean, refused, limit, live, timestamps_of,
  is_passed, default_rate_limiter, strict_rate_limiter, default_key_generator, retry_after,
}
use stellar_urithi_bidz.Text.{trim, before}
use stellar_urithi_bidz.RateLimiter.Window.{admitted, admitted_by, between, admitted_bound}
use stellar_urithi_bidz.RateLimiter.Retry.{retry_admits}
use stellar_urithi_bidz.RateLimiter.Sharing.{post, gets, post_refused_after_gets, timestamps-post}
use stellar_urithi_bidz.RateLimiter.Fairness.{run, refusal_earned}

abbrev tiny : RateLimitConfig
tiny = record { max_requests = 2; window_ms = 1000 }

abbrev history : List Op
history =
    request tiny "a" 10
    ∷ request tiny "a" 500
    ∷ request tiny "b" 600
    ∷ request tiny "a" 700
    ∷ clean 60000 900
    ∷ request tiny "a" 1010
    ∷ []

history_admits : admitted "a" 2 empty history ≡ 10 ∷ 500 ∷ 1010 ∷ []
unfolding admitted admitted_by limit apply cleanup
history_admits = refl

two_seen : Store
two_seen key = some (record { timestamps = 10 ∷ 500 ∷ [] })

third_refused : (limit tiny "a" 700 two_seen).1 ≡ refused (some 1) 2
unfolding limit retry_after two_seen
third_refused = refl

proxied :
    default_key_generator
      (record { forwarded = some " 1.2.3.4 , 10.0.0.1"; ip = none; remote_address = none })
    ≡ "1.2.3.4"
unfolding default_key_generator trim before
proxied = refl

admitted_bound_example : length (filter (between 1000 10) (admitted "a" 2 empty history)) ≤ 2
admitted_bound_example = admitted_bound 1000 2 "a" history 10 (omega arith)

retry_admits_run : is_passed (limit tiny "a" 1700 (limit tiny "a" 700 two_seen).0).1 ≡ true
unfolding two_seen
retry_admits_run =
    retry_admits tiny "a" 700 1700 1 2 two_seen third_refused (omega arith) (omega arith)

post_refused_after_gets_run :
    is_passed
      (post default_rate_limiter strict_rate_limiter "a" 5 7
        (gets default_rate_limiter 19 "a" 5 empty)).1
    ≡ false
post_refused_after_gets_run =
    post_refused_after_gets default_rate_limiter strict_rate_limiter 19 "a" 5 7 (omega arith)
      (omega arith) (omega arith) (omega arith)

counted_twice :
    timestamps_of (post default_rate_limiter strict_rate_limiter "a" 5 7 empty).0 "a" ≡ 5 ∷ 7 ∷ []
unfolding post limit
counted_twice =
    timestamps-post default_rate_limiter strict_rate_limiter "a" 5 7 empty refl (omega arith)
      (omega arith) refl

refusal_earned_example :
    2
    ≤ length
        (live 1000 700 (admitted "a" 2 empty (request tiny "a" 10 ∷ request tiny "a" 500 ∷ [])))
unfolding run apply limit
refusal_earned_example =
    refusal_earned tiny 2 "a" 700 (request tiny "a" 10 ∷ request tiny "a" 500 ∷ []) (omega arith)
      refl

-- ===== src/Routes/Health.antt =====
-- backend/src/routes/auctions.ts: the health check and the analytics, and `checkDatabaseHealth` of
-- backend/src/db/index.ts. What the query answers is an argument.
use stellar_urithi_bidz.Prelude.{
  ℕ, String, Bool, false, ◌==◌, Option, none, some, ◌≡◌, refl, if◌then◌else◌, Result, fail, pass,
}
use stellar_urithi_bidz.Database.{DatabaseError}
use stellar_urithi_bidz.Database.Analytics.{Analytics}
use stellar_urithi_bidz.Routes.{RouteError, internal}

-- `res.rows[0]?.ok === 1`
abbrev is_one : Option ℕ → Bool
is_one none = false
is_one (some ok) = ok == 1

unfoldable pub check_database_health : Result DatabaseError (Option ℕ) → Bool
check_database_health (fail error) = false
check_database_health (pass row) = is_one row

pub record Health : Type 0 where
  pub http_status : ℕ
  pub status : String
  pub database : String

-- GET /api/health of the router
unfoldable pub health : Result DatabaseError (Option ℕ) → Health
unfolding check_database_health
health answer =
    let db_healthy = check_database_health answer in
    record {
      http_status = if db_healthy then 200 else 503;
      status = if db_healthy then "healthy" else "unhealthy";
      database = if db_healthy then "connected" else "disconnected";
    }

-- GET /api/analytics
unfoldable pub platform_analytics : Result DatabaseError Analytics → Result RouteError Analytics
platform_analytics (fail error) = fail internal
platform_analytics (pass analytics) = pass analytics

disconnected :
    (error : DatabaseError)
    → health (fail error)
      ≡ record { http_status = 503; status = "unhealthy"; database = "disconnected" }
unfolding health check_database_health
disconnected error = refl

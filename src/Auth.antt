-- ===== src/Auth.antt =====
-- backend/src/middleware/auth.ts: Ed25519 authentication of POST requests, with a replay cache.
-- The clock is an argument, log lines are left out, and `Keypair` of @stellar/stellar-sdk is the
-- parameter `verify`. Timestamps are exact numbers: a text of digits that JavaScript would round
-- lies far outside the freshness window.
pub mod Message
pub mod Replay
mod Tests
use stellar_urithi_bidz.Prelude.{
  ℕ, ◌+◌, ◌*◌, String, Bool, true, false, not, ◌&&◌, Option, none, some, StrMap, insert, has,
  retain, leb, str_eq, Result, fail, pass, present, require, ◌>>=◌, str_append,
}
use stellar_urithi_bidz.Text.{strip_prefix, trim, before, parse_digits}

-- Five minutes
abbrev pub auth_nonce_max_age_ms : ℕ
auth_nonce_max_age_ms = 5 * 60 * 1000

abbrev pub clock_skew_ms : ℕ
clock_skew_ms = 30000

abbrev pub auth_prefix : String
auth_prefix = "stellar-urithi-bidz-auth:"

-- `Keypair.fromPublicKey(address).verify(message, signature)`; `none` where it throws
abbrev pub Verifier : Type 0
Verifier = String → String → String → Option Bool

-- `seenNonces`
abbrev pub SeenNonces : Type 0
SeenNonces = StrMap ℕ

-- The body's address field and the two headers.
pub record AuthRequest : Type 0 where
  pub address : Option String
  pub signature : Option String
  pub message : Option String

-- The answers with status 401, in the order of the checks.
pub data AuthError : Type 0 where
  missing_credentials invalid_format missing_nonce bad_timestamp expired replayed bad_signature :
      AuthError

-- A text that is present and not empty, as JavaScript tests it.
abbrev pub truthy : Option String → Option String
truthy none = none
truthy (some s) = elim (str_eq s "") [ true ↦ none | false ↦ some s ]

-- The text behind the prefix, with no white space at its ends.
unfoldable pub nonce_in : String → Option String
nonce_in message = elim (strip_prefix auth_prefix message) [
  | none ↦ none
  | some rest ↦ some (trim rest)
]

-- The number before the first colon, if that is all digits.
unfoldable pub sent_at : String → Option ℕ
sent_at nonce = parse_digits (before b':' nonce)

-- Neither `age > AUTH_NONCE_MAX_AGE_MS` nor `age < -30000`, for `age = now - nonceMs`
abbrev pub is_fresh : ℕ → ℕ → Bool
is_fresh now nonce_ms =
    leb now (nonce_ms + auth_nonce_max_age_ms) && leb nonce_ms (now + clock_skew_ms)

abbrev pub replay_key : String → String → String
replay_key address nonce = str_append address (str_append ":" nonce)

module _ (verify : Verifier) where
  -- An exception counts as a signature that is not valid.
  unfoldable pub verify_ed25519_signature : String → String → String → Bool
  verify_ed25519_signature address message signature = elim (verify address message signature) [
    | none ↦ false
    | some valid ↦ valid
  ]

  -- The checks of `stellarAuthMiddleware`, up to the mark in the cache.
  unfoldable pub check : AuthRequest → ℕ → SeenNonces → Result AuthError String
  check req now seen = do
    address ← present (truthy req.address) missing_credentials
    signature ← present (truthy req.signature) missing_credentials
    message ← present (truthy req.message) missing_credentials
    nonce ← present (nonce_in message) invalid_format
    nonce_ms ← require (not (str_eq nonce "")) missing_nonce (present (sent_at nonce) bad_timestamp)
    require (is_fresh now nonce_ms) expired (
        require (not (has (replay_key address nonce) seen)) replayed (
          require (verify_ed25519_signature address message signature) bad_signature
            (pass (replay_key address nonce))))

  -- `next()`, or status 401; only a request that passes is marked.
  unfoldable pub stellar_auth_middleware :
      AuthRequest → ℕ → SeenNonces → SeenNonces × Result AuthError String
  stellar_auth_middleware req now seen = elim (check req now seen) [
    | pass key ↦ (insert key now seen, pass key)
    | fail e ↦ (seen, fail e)
  ]

-- The timer that runs every minute.
unfoldable pub forget_expired : ℕ → SeenNonces → SeenNonces
forget_expired now = retain (λ timestamp. leb now (timestamp + auth_nonce_max_age_ms))

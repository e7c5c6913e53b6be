-- ===== src/Auth/Message.antt =====
-- backend/src/middleware/auth.ts: which requests pass.
use stellar_urithi_bidz.Prelude.{
  Bool-cases, Result, fail, pass, present, require, present-eq-pass, require-eq-pass, ◌>>=◌, ℕ, ◌+◌,
  ◌≤◌, String, true, not, Option, none, some, has, ◌≡◌, ◌≢◌, ◌↔◌, inl, inr, Option-cases, arith,
  str_eq, eq_iff, str_append,
}
use stellar_urithi_bidz.Text.{strip_prefix, strip_prefix-append, append-strip_prefix, trim}
use stellar_urithi_bidz.Auth.{
  Verifier, SeenNonces, AuthRequest, check, stellar_auth_middleware, auth_prefix, nonce_in, sent_at,
  is_fresh, replay_key, truthy, AuthError, missing_credentials, invalid_format, missing_nonce,
  bad_timestamp, expired, replayed, bad_signature, auth_nonce_max_age_ms, clock_skew_ms,
  verify_ed25519_signature,
}

truthy-eq-some : (o : Option String) {s : String} → truthy o ≡ some s → (o ≡ some s) × (s ≢ "")
truthy-eq-some none h = cc
truthy-eq-some (some t) h = ground (arith, eq_iff t "")

timed {ℓ} :
    {B : Type ℓ} (nonce : String) (next : ℕ → Result AuthError B) {b : B}
    → (require (not (str_eq nonce "")) missing_nonce (present (sent_at nonce) bad_timestamp)
        >>= next)
      ≡ pass b
    → (not (str_eq nonce "") ≡ true)
      × (nonce_ms : ℕ) × (sent_at nonce ≡ some nonce_ms)
      × (next nonce_ms ≡ pass b)
timed nonce next h = elim (Bool-cases (str_eq nonce "")) [
  | inl e ↦ absurd (ground arith)
  | inr e ↦
      let (ms, t, r) = present-eq-pass (sent_at nonce) bad_timestamp next (rw e at h) in
      (rw e, ms, t, r)
]

nonce_in_parts :
    (message : String) {nonce : String}
    → nonce_in message ≡ some nonce
    → (rest : String) × (message ≡ str_append auth_prefix rest) × (trim rest ≡ nonce)
unfolding nonce_in
nonce_in_parts message h = elim (Option-cases (strip_prefix auth_prefix message)) [
  | inl e ↦ absurd (ground arith)
  | inr (rest, e) ↦ (rest, append-strip_prefix auth_prefix message e, ground arith)
]

pub nonce_in-append : (rest : String) → nonce_in (str_append auth_prefix rest) ≡ some (trim rest)
unfolding nonce_in
nonce_in-append rest = rw (strip_prefix-append auth_prefix rest, nonce_in)

module _ (verify : Verifier) where
  -- A request that the middleware has to let through, by what it carries.
  pub record IsGenuine (req : AuthRequest) (now : ℕ) (seen : SeenNonces) : Type 0 where
    pub address : String
    pub signature : String
    pub message : String
    pub nonce : String
    pub nonce_ms : ℕ
    pub claimed : req.address ≡ some address
    pub signed : req.signature ≡ some signature
    pub sent : req.message ≡ some message
    pub rest : String
    pub prefixed : message ≡ str_append auth_prefix rest
    pub trimmed : trim rest ≡ nonce
    pub stamped : sent_at nonce ≡ some nonce_ms
    pub not_old : now ≤ nonce_ms + auth_nonce_max_age_ms
    pub not_future : nonce_ms ≤ now + clock_skew_ms
    pub unseen : seen (replay_key address nonce) ≡ none
    pub verified : verify address message signature ≡ some true
    pub has_address : address ≢ ""
    pub has_signature : signature ≢ ""
    pub has_message : message ≢ ""
    pub has_nonce : nonce ≢ ""

  pub genuine-check :
      (req : AuthRequest) (now : ℕ) (seen : SeenNonces) (g : IsGenuine req now seen)
      → check verify req now seen ≡ pass (replay_key g.address g.nonce)
  unfolding check verify_ed25519_signature
  genuine-check req now seen g = ground (
    arith,
    nonce_in-append g.rest,
    eq_iff g.address "",
    eq_iff g.signature "",
    eq_iff g.message "",
    eq_iff g.nonce "",
  )

  pub check-IsGenuine :
      (req : AuthRequest) (now : ℕ) (seen : SeenNonces) (key : String)
      → check verify req now seen ≡ pass key
      → IsGenuine req now seen
  unfolding check verify_ed25519_signature
  check-IsGenuine req now seen key h0 =
      let (address, a, h1) = present-eq-pass (truthy req.address) missing_credentials _ h0 in
      let (signature, s, h2) = present-eq-pass (truthy req.signature) missing_credentials _ h1 in
      let (message, m, h3) = present-eq-pass (truthy req.message) missing_credentials _ h2 in
      let (nonce, n, h4) = present-eq-pass (nonce_in message) invalid_format _ h3 in
      let (full, nonce_ms, t, h5) = timed nonce _ h4 in
      let (fresh, h6) = require-eq-pass (is_fresh now nonce_ms) expired _ h5 in
      let (new, h7) = require-eq-pass (not (has (replay_key address nonce) seen)) replayed _ h6 in
      let (valid, _) =
        require-eq-pass (verify_ed25519_signature verify address message signature) bad_signature _
          h7 in
      let (claimed, has_address) = truthy-eq-some req.address a in
      let (signed, has_signature) = truthy-eq-some req.signature s in
      let (sent, has_message) = truthy-eq-some req.message m in
      let (rest, prefixed, trimmed) = nonce_in_parts message n in
      record {
        address = address;
        signature = signature;
        message = message;
        nonce = nonce;
        nonce_ms = nonce_ms;
        claimed = claimed;
        signed = signed;
        sent = sent;
        rest = rest;
        prefixed = prefixed;
        trimmed = trimmed;
        stamped = t;
        not_old = ground arith;
        not_future = ground arith;
        unseen = ground arith;
        verified = ground arith;
        has_address = has_address;
        has_signature = has_signature;
        has_message = has_message;
        has_nonce = ground (arith, eq_iff nonce "");
      }

  -- The middleware calls `next` exactly for a genuine request: address, signature and message are
  -- present and not empty, the message is the prefix followed by a nonce that is not empty after
  -- trimming and starts with a time at most five minutes old and at most thirty seconds ahead, the
  -- pair of address and nonce is not in the cache, and the signature verifies.
  pub next_iff :
      (req : AuthRequest) (now : ℕ) (seen : SeenNonces)
      → ((key : String) × ((stellar_auth_middleware verify req now seen).1 ≡ pass key))
        ↔ IsGenuine req now seen
  unfolding stellar_auth_middleware
  next_iff req now seen = (
    λ (key, e). check-IsGenuine req now seen key (ground arith),
    λ g. (replay_key g.address g.nonce, ground (arith, genuine-check req now seen g)),
  )

  -- A request that is refused, whatever the reason, leaves the cache as it was.
  pub refusal_keeps_cache :
      (req : AuthRequest) (now : ℕ) (seen : SeenNonces) (e : AuthError)
      → (stellar_auth_middleware verify req now seen).1 ≡ fail e
      → (stellar_auth_middleware verify req now seen).0 ≡ seen
  unfolding stellar_auth_middleware
  refusal_keeps_cache req now seen e h = ground arith

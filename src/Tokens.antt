-- ===== src/Tokens.antt =====
-- pkg/tokens/tokens.go: the access tokens (JWT) and the refresh tokens.
pub mod Expiry
mod Tests
use gophkeeper.Base.{
  ℕ, ◌+◌, ◌*◌, ◌^◌, String, Bool, true, false, List, [], ◌∷◌, str_eq, if◌then◌else◌,
}
use gophkeeper.Base.Go.{
  Error, new, wrap, token_expired, errors_is, Outcome, ok, err, panic, Prog, lift, gets, map_err,
  ◌>>=◌,
}
use gophkeeper.Model.{Bytes, UserId}

-- nanoseconds
abbrev pub second : ℕ
second = 10 ^ 9

abbrev pub access_token_expire : ℕ
access_token_expire = 15 * 60 * second

abbrev pub refresh_token_expire_days : ℕ
refresh_token_expire_days = 15

abbrev pub day : ℕ
day = 24 * 60 * 60 * second

abbrev pub jwt_leeway : ℕ
jwt_leeway = 10 * second

abbrev pub hs256 : String
hs256 = "HS256"

pub record Claims : Type 0 where
  pub issued_at : ℕ
  pub expires_at : ℕ
  pub subject : String

-- golang-jwt: a signed token with its claims, and the parser with its options (key function,
-- leeway, valid methods) at a time. The parser returns the claims and `Valid`.
pub record Jwt : Type 0 where
  pub new_numeric_date : ℕ → ℕ
  pub signed_string : String → Claims → Bytes → Outcome String
  pub parse_with_claims :
      String → (String → Outcome Bytes) → ℕ → List String → ℕ → Outcome (Claims × Bool)

-- The clock, and `crypto/rand` through `hash.GenerateRandom`.
pub record Sources (S : Type 0) : Type 0 where
  pub now : S → ℕ
  pub generate_random : ℕ → Prog S Bytes

pub record Generator : Type 0 where
  pub secret : Bytes

unfoldable pub new_generator : Bytes → Generator
new_generator secret = record { secret = secret }

abbrev pub is_token_expired : Error → Bool
is_token_expired token_expired = true
is_token_expired _ = false

-- `generate_sha256` is `hash.GenerateSHA256`.
module _ {S : Type 0} (jwt : Jwt) (env : Sources S) (generate_sha256 : Bytes → Bytes)
    (g : Generator) where
  unfoldable pub generate_refresh_token : Prog S (Bytes × ℕ)
  generate_refresh_token = do
    random ← map_err (wrap "failed to generate token") (env.generate_random 32)
    gets (λ s. (generate_sha256 random, env.now s + refresh_token_expire_days * day))

  abbrev pub claims_at : UserId → ℕ → Claims
  claims_at user_id iat = record {
    issued_at = jwt.new_numeric_date iat;
    expires_at = jwt.new_numeric_date (iat + access_token_expire);
    subject = user_id;
  }

  unfoldable pub generate_access_token : UserId → Prog S String
  generate_access_token user_id = do
    iat ← gets env.now
    map_err (wrap "fail JWT signing")
        (lift (jwt.signed_string hs256 (claims_at user_id iat) g.secret))

  -- the key function given to the parser
  abbrev pub key_of : String → Outcome Bytes
  key_of alg = if str_eq alg hs256 then ok g.secret else err (new "wrong signing algorithm")

  abbrev pub checked : Outcome (Claims × Bool) → Outcome UserId
  checked (ok (claims, valid)) = if valid then ok claims.subject else err (new "invalid token")
  checked (err e) =
      if errors_is is_token_expired e then err token_expired else err (wrap "invalid token" e)
  checked (panic p) = panic p

  unfoldable pub check_access_token : String → Prog S UserId
  check_access_token token s =
      (checked (jwt.parse_with_claims token key_of jwt_leeway (hs256 ∷ []) (env.now s)), s)

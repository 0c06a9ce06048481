-- ===== src/Tokens/Expiry.antt =====
-- How long the access tokens of pkg/tokens/tokens.go are good for.
use gophkeeper.Base.{ℕ, ◌+◌, ◌<◌, ◌≤◌, ◌≡◌, refl, ap, String, true, [], ◌∷◌, arith}
use gophkeeper.Base.Go.{Error, token_expired, errors_is, Outcome, ok, err, panic, mapped}
use gophkeeper.Model.{Bytes, UserId}
use gophkeeper.Tokens.{
  Jwt, Claims, Sources, Generator, access_token_expire, jwt_leeway, second, hs256, is_token_expired,
  key_of, claims_at, generate_access_token, check_access_token,
}

-- What golang-jwt documents: dates are cut to whole seconds; a string of claims with such dates
-- that was signed with the key that the key function returns parses to its claims before they
-- expire, with the leeway, and to ErrTokenExpired after.
pub record IsJwt (jwt : Jwt) : Type 0 where
  pub dates : (n : ℕ) → (jwt.new_numeric_date n ≤ n) × (n < jwt.new_numeric_date n + second)
  pub whole : (n : ℕ) → jwt.new_numeric_date (jwt.new_numeric_date n) ≡ jwt.new_numeric_date n
  pub accepts :
      (alg token : String) (c : Claims) (key : Bytes) (keys : String → Outcome Bytes) (leeway t : ℕ)
      → jwt.new_numeric_date c.issued_at ≡ c.issued_at
      → jwt.new_numeric_date c.expires_at ≡ c.expires_at
      → jwt.signed_string alg c key ≡ ok token
      → keys alg ≡ ok key
      → t < c.expires_at + leeway
      → jwt.parse_with_claims token keys leeway (alg ∷ []) t ≡ ok (c, true)
  pub expires :
      (alg token : String) (c : Claims) (key : Bytes) (keys : String → Outcome Bytes) (leeway t : ℕ)
      → jwt.new_numeric_date c.issued_at ≡ c.issued_at
      → jwt.new_numeric_date c.expires_at ≡ c.expires_at
      → jwt.signed_string alg c key ≡ ok token
      → keys alg ≡ ok key
      → c.expires_at + leeway ≤ t
      → (e : Error) × (jwt.parse_with_claims token keys leeway (alg ∷ []) t ≡ err e)
        × (errors_is is_token_expired e ≡ true)

module _ {S : Type 0} (jwt : Jwt) (laws : IsJwt jwt) (env : Sources S)
    (generate_sha256 : Bytes → Bytes) (g : Generator) where
  signed :
      (f : Error → Error) (r : Outcome String) (s t : S) (token : String)
      → mapped f (r, s) ≡ (ok token, t)
      → r ≡ ok token
  signed f (ok x) s t token h = ap (λ (q : Outcome String × S). q.0) h
  signed f (err e) s t token h = cc
  signed f (panic p) s t token h = cc

  -- An access token that was made at a time: a check of it names its user up to 15 minutes and the
  -- leeway after that time, less the second that the dates lose, and says that it has expired from
  -- 15 minutes and the leeway after it.
  pub check-generate_access_token :
      (user_id : UserId) (s t w : S) (token : String)
      → generate_access_token jwt env generate_sha256 g user_id s ≡ (ok token, t)
      → (env.now w + second ≤ env.now s + access_token_expire + jwt_leeway
          → check_access_token jwt env generate_sha256 g token w ≡ (ok user_id, w))
        × (env.now s + access_token_expire + jwt_leeway ≤ env.now w
            → check_access_token jwt env generate_sha256 g token w ≡ (err token_expired, w))
  unfolding generate_access_token check_access_token
  check-generate_access_token user_id s t w token h =
      let c = claims_at jwt env generate_sha256 g user_id (env.now s) in
      let is_signed = signed _ (jwt.signed_string hs256 c g.secret) s t token h in
      let (cut, kept) = laws.dates (env.now s + access_token_expire) in
      (
        λ early.
            rw
              (laws.accepts hs256 token c g.secret (key_of jwt env generate_sha256 g) jwt_leeway
                (env.now w) (laws.whole _) (laws.whole _) is_signed refl
                (omega (arith, early, kept)))
              refl,
        λ late.
            let (e, parsed, gone) =
              laws.expires hs256 token c g.secret (key_of jwt env generate_sha256 g) jwt_leeway
                (env.now w) (laws.whole _) (laws.whole _) is_signed refl
                (omega (arith, late, cut)) in
            rw (parsed, gone) refl,
      )

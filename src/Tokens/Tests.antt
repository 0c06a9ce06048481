-- ===== src/Tokens/Tests.antt =====
-- The expiry theorem with a signer that knows one token.
use gophkeeper.Base.{
  ℕ, ◌+◌, ◌-◌, ◌%◌, ◌≤◌, ◌≡◌, refl, ap, String, Bool, true, ◌&&◌, List, [], ◌∷◌, arith, ltb, ◌==◌,
  str_eq, eq_iff, if◌then◌else◌,
}
use gophkeeper.Base.Go.{new, token_expired, Outcome, ok, err, pure}
use gophkeeper.Model.{Bytes}
use gophkeeper.Tokens.{
  Jwt, Claims, Sources, Generator, access_token_expire, jwt_leeway, second, hs256,
  check_access_token, generate_access_token,
}
use gophkeeper.Tokens.Expiry.{IsJwt, check-generate_access_token}

-- the claims of the one token, made at time 0
abbrev known : Claims
known = record { issued_at = 0; expires_at = access_token_expire; subject = "alice" }

abbrev is_known : Claims → Bool
is_known c = c.issued_at == 0 && (c.expires_at == access_token_expire && str_eq c.subject "alice")

abbrev parse_at : Outcome Bytes → ℕ → ℕ → Outcome (Claims × Bool)
parse_at (ok key) leeway t =
    if ltb t (access_token_expire + leeway) then ok (known, true) else err token_expired
parse_at r leeway t = err (new "no key")

abbrev parse_by : (String → Outcome Bytes) → List String → ℕ → ℕ → Outcome (Claims × Bool)
parse_by keys [] leeway t = err (new "no method")
parse_by keys (alg ∷ algs) leeway t = parse_at (keys alg) leeway t

abbrev jwt : Jwt
jwt = record {
  new_numeric_date = λ n. n - n % second;
  signed_string = λ alg c key. if is_known c then ok "token" else err (new "unknown claims");
  parse_with_claims = λ token keys leeway methods t. parse_by keys methods leeway t;
}

abbrev claims : ℕ → ℕ → String → Claims
claims a b u = record { issued_at = a; expires_at = b; subject = u }

made_of :
    (a b : ℕ) (u : String) → a ≡ 0 → b ≡ access_token_expire → u ≡ "alice" → claims a b u ≡ known
made_of a b u p q r = rw (p, q, r) refl

one_signed : (c : Claims) (token : String) → jwt.signed_string hs256 c [] ≡ ok token → c ≡ known
one_signed c token h =
    made_of c.issued_at c.expires_at c.subject (ground (arith, h)) (ground (arith, h))
      (ground (arith, eq_iff c.subject "alice", h))

jwt-IsJwt : IsJwt jwt
jwt-IsJwt = record {
  dates = λ n. (omega arith, omega arith);
  whole = λ n. omega arith;
  accepts = λ alg token c key keys leeway t p q h k l.
      let e = one_signed c token h in rw k (ground (arith, ap (λ (x : Claims). x.expires_at) e, l));
  expires = λ alg token c key keys leeway t p q h k l.
      let e = one_signed c token h in
      rw k (token_expired, ground (arith, ap (λ (x : Claims). x.expires_at) e, l), refl);
}

abbrev clock : Sources ℕ
clock = record { now = λ t. t; generate_random = λ n. pure (1 ∷ []) }

abbrev generator : Generator
generator = record { secret = 3 ∷ [] }

check-generate_access_token_example :
    (5 + second ≤ 0 + access_token_expire + jwt_leeway
      → check_access_token jwt clock (λ b. b) generator "token" 5 ≡ (ok "alice", 5))
    × (0 + access_token_expire + jwt_leeway ≤ 5
        → check_access_token jwt clock (λ b. b) generator "token" 5 ≡ (err token_expired, 5))
unfolding generate_access_token
check-generate_access_token_example =
    check-generate_access_token jwt jwt-IsJwt clock (λ b. b) generator "alice" 0 0 5 "token" refl

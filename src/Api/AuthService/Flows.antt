-- ===== src/Api/AuthService/Flows.antt =====
-- What Login and Register of internal/api/v1/auth_service.go require before they open a session.
use gophkeeper.Base.{String, ◌≡◌, ap, sym, subst, ◌∙◌, Option}
use gophkeeper.Base.Go.{
  status, internal, unauthenticated, Outcome, ok, err, panic, Prog, mapped, map_err, ◌>>=◌,
}
use gophkeeper.Base.Runs.{ran, unmapped}
use gophkeeper.Model.{Bytes, UserId, User}
use gophkeeper.Api.AuthService.{
  AuthService, AuthRequest, TokensResponse, Hashing, credentials_of, Credentials, login, respond,
}

abbrev tokens_of : String × Bytes → Outcome TokensResponse → Outcome (String × Bytes)
tokens_of p (ok r) = ok (r.access_token, r.refresh_token)
tokens_of p (err e) = err e
tokens_of p (panic m) = panic m

module _ {S : Type 0} (hash : Hashing S) (svc : AuthService S) where
  -- Everything that a login went through.
  pub record LoggedIn (r : Option AuthRequest) (s t : S) (response : TokensResponse) : Type 0 where
    pub credentials : Credentials
    pub user : UserId × User
    pub found_at : S
    pub filled : credentials_of r ≡ ok credentials
    pub found :
        svc.repo.find_by_login (hash.generate_hmac credentials.login svc.secret) s
        ≡ (ok user, found_at)
    pub password_fits :
        hash.compare_hash_and_password user.1.password_phc credentials.password ≡ ok tt
    pub session :
        svc.session_manager.create_session user.0 found_at
        ≡ (ok (response.access_token, response.refresh_token), t)

  after_password : UserId → Prog S TokensResponse
  after_password user_id =
      map_err (λ e. status internal "failed to create session")
        (svc.session_manager.create_session user_id)
      >>= respond

  after_found : Credentials → UserId × User → Prog S TokensResponse
  unfolding after_password
  after_found c found =
      map_err (λ e. status unauthenticated "password format is wrong")
        (λ s. (hash.compare_hash_and_password found.1.password_phc c.password, s))
      >>= λ x. after_password found.0

  after_credentials : Credentials → Prog S TokensResponse
  unfolding after_found
  after_credentials c =
      map_err (λ e. status unauthenticated "failed to find user")
        (svc.repo.find_by_login (hash.generate_hmac c.login svc.secret))
      >>= after_found c

  -- A Login that succeeds found the user of the login's HMAC, the password fitted that user's hash,
  -- and the tokens are of a session that was created for that user.
  pub login_checks :
      (r : Option AuthRequest) (s t : S) (response : TokensResponse)
      → login hash svc r s ≡ (ok response, t)
      → LoggedIn r s t response
  unfolding login after_credentials after_found after_password
  login_checks r s t response h =
      let (c, s₁, e₁, h₁) = ran (credentials_of r, s) (λ c. after_credentials c) h in
      let lookup = svc.repo.find_by_login (hash.generate_hmac c.login svc.secret) s₁ in
      let (f, s₂, e₂, h₂) =
        ran (mapped (λ e. status unauthenticated "failed to find user") lookup) (after_found c)
          h₁ in
      let compared = hash.compare_hash_and_password f.1.password_phc c.password in
      let (x, s₃, e₃, h₃) =
        ran (mapped (λ e. status unauthenticated "password format is wrong") (compared, s₂))
          (λ x. after_password f.0) h₂ in
      let created = svc.session_manager.create_session f.0 s₃ in
      let (p, s₄, e₄, h₄) =
        ran (mapped (λ e. status internal "failed to create session") created) respond h₃ in
      let fits =
        unmapped (λ e. status unauthenticated "password format is wrong") (compared, s₂) e₃ in
      let opened = unmapped (λ e. status internal "failed to create session") created e₄ in
      record {
        credentials = c;
        user = f;
        found_at = s₂;
        filled = ap (λ (q : Outcome Credentials × S). q.0) e₁;
        found =
            subst
              (λ w. svc.repo.find_by_login (hash.generate_hmac c.login svc.secret) w ≡ (ok f, s₂))
              (sym (ap (λ (q : Outcome Credentials × S). q.1) e₁))
              (unmapped (λ e. status unauthenticated "failed to find user") lookup e₂);
        password_fits = ap (λ (q : Outcome (Unit {0}) × S). q.0) fits;
        session =
            subst
              (λ w.
                svc.session_manager.create_session f.0 w
                ≡ (ok (response.access_token, response.refresh_token), t))
              (sym (ap (λ (q : Outcome (Unit {0}) × S). q.1) fits)) (answered p s₄ opened h₄);
      }
    where
      answered :
          {q : Outcome (String × Bytes) × S} (p : String × Bytes) (w : S)
          → q ≡ (ok p, w)
          → respond p w ≡ (ok response, t)
          → q ≡ (ok (response.access_token, response.refresh_token), t)
      answered p w e d = e ∙ ap (λ (o : Outcome TokensResponse × S). (tokens_of p o.0, o.1)) d

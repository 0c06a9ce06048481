-- ===== src/Session/Life.antt =====
-- A session of pkg/session/session.go over the token repository of internal/repo/db/token_repo.go.
use gophkeeper.Base.{ℕ, ◌+◌, ◌*◌, ◌≡◌, sym, ap, subst, ◌∙◌, String, some, none, [], true, arith}
use gophkeeper.Base.Go.{Error, wrap, Outcome, ok, Prog, mapped, pure, gets, map_err, ◌>>=◌}
use gophkeeper.Base.Runs.{ran, unmapped, mapped_state}
use gophkeeper.Model.{Bytes, UserId}
use gophkeeper.Database.{Uuid, Database, Server}
use gophkeeper.Sqlc.{has_user}
use gophkeeper.Tokens.{
  Jwt, Sources, Generator, generate_access_token, generate_refresh_token, refresh_token_expire_days,
  day,
}
use gophkeeper.Repo.Tokens.{as_storage, save, validate}
use gophkeeper.Repo.Tokens.Unique.{AreUnique}
use gophkeeper.Repo.Tokens.Life.{validate-save}
use gophkeeper.Session.{Manager, new_manager, create_session, validate_refresh_token}

expiry : Outcome (Bytes × ℕ) → ℕ
expiry (ok p) = p.1
expiry _ = 0

refresh_of : Outcome (String × Bytes) → Bytes
refresh_of (ok p) = p.1
refresh_of _ = []

module _ (srv : Server) (answers : (k : ℕ) → srv.fault k ≡ none) (jwt : Jwt)
    (env : Sources Database) (now : (d : Database) → env.now d ≡ d.now)
    (pure_random : (n : ℕ) (d : Database) → (env.generate_random n d).1 ≡ d)
    (generate_sha256 : Bytes → Bytes) (g : Generator) where
  abbrev manager : Manager Database
  manager = new_manager (as_storage srv) g

  access_state :
      (user : UserId) (d : Database)
      → (generate_access_token jwt env generate_sha256 g user d).1 ≡ d
  unfolding generate_access_token
  access_state user d = mapped_state _ (_, d)

  -- a refresh token comes with its expiry, and nothing changes
  refresh_ran :
      (d t : Database) (p : Bytes × ℕ)
      → generate_refresh_token jwt env generate_sha256 g d ≡ (ok p, t)
      → (t ≡ d) × (p.1 ≡ d.now + refresh_token_expire_days * day)
  unfolding generate_refresh_token expiry
  refresh_ran d t p h =
      let failed = wrap "failed to generate token" in
      let drawn = env.generate_random 32 d in
      let issue : Bytes → Prog Database (Bytes × ℕ) = λ random.
        gets (λ s. (generate_sha256 random, env.now s + refresh_token_expire_days * day)) in
      let (random, w, e, q) = ran (mapped failed drawn) issue h in
      let same =
        sym (ap (λ (r : Outcome Bytes × Database). r.1) (unmapped failed drawn e))
        ∙ pure_random 32 d in
      (
        sym (ap (λ (r : Outcome (Bytes × ℕ) × Database). r.1) q) ∙ same,
        sym (ap (λ (r : Outcome (Bytes × ℕ) × Database). expiry r.0) q)
            ∙ ap (λ (n : ℕ). n + refresh_token_expire_days * day) (ap env.now same ∙ now d),
      )

  -- the rest of CreateSession, once it has the refresh token
  with_refresh : UserId → String → Bytes × ℕ → Prog Database (String × Bytes)
  with_refresh user access issued =
      map_err (wrap "failed to save refresh token") (save srv issued.0 user issued.1) >>= λ x.
      pure (access, issued.0)

  with_access : UserId → String → Prog Database (String × Bytes)
  with_access user access =
      map_err (wrap "failed to generate refresh token")
        (generate_refresh_token jwt env generate_sha256 g)
      >>= with_refresh user access

  saved_ran :
      (user : UserId) (a access : String) (refresh : Bytes) (issued : Bytes × ℕ) (d t : Database)
      → with_refresh user a issued d ≡ (ok (access, refresh), t)
      → (issued.0 ≡ refresh) × (save srv issued.0 user issued.1 d ≡ (ok tt, t))
  unfolding with_refresh refresh_of
  saved_ran user a access refresh issued d t h =
      let failed = wrap "failed to save refresh token" in
      let stored = save srv issued.0 user issued.1 d in
      let (x, w, e, q) = ran (mapped failed stored) (λ (x : Unit {0}). pure (a, issued.0)) h in
      (
        ap (λ (r : Outcome (String × Bytes) × Database). refresh_of r.0) q,
        unmapped failed stored e
            ∙ ap (λ (v : Database). (Outcome.ok (tt {0}), v))
                (ap (λ (r : Outcome (String × Bytes) × Database). r.1) q),
      )

  -- Where the server answers, the clock is the database's and the randomness leaves the tables
  -- alone: the refresh token of a session that was just created for a known user validates for that
  -- user.
  pub validate-create_session :
      (user : UserId) (u : Uuid) (access : String) (refresh : Bytes) (d t : Database)
      → srv.parse_uuid user ≡ some u
      → has_user u d ≡ true
      → AreUnique d.refresh_tokens
      → create_session jwt env generate_sha256 manager user d ≡ (ok (access, refresh), t)
      → (validate_refresh_token jwt env generate_sha256 manager refresh user t).0 ≡ ok tt
  unfolding create_session new_manager as_storage validate_refresh_token with_access with_refresh
  validate-create_session user u access refresh d t p known unique h =
      let failed : String → Error → Error = λ text. wrap text in
      let made = generate_access_token jwt env generate_sha256 g user d in
      let (a, d₁, e₁, h₁) =
        ran (mapped (failed "failed to generate access token") made) (with_access user) h in
      let drawn = generate_refresh_token jwt env generate_sha256 g d₁ in
      let ((r, exp), d₂, e₂, h₂) =
        ran (mapped (failed "failed to generate refresh token") drawn) (with_refresh user a) h₁ in
      let same₁ =
        sym (ap (λ (q : Outcome String × Database). q.1) e₁)
        ∙ mapped_state (failed "failed to generate access token") made
        ∙ access_state user d in
      let (same₂, late) =
        refresh_ran d₁ d₂ (r, exp)
          (unmapped (failed "failed to generate refresh token") drawn e₂) in
      let same = sym (same₂ ∙ same₁) in
      let (token, stored) = saved_ran user a access refresh (r, exp) d₂ t h₂ in
      let after =
        (validate-save srv answers r user u exp d₂ p (subst (λ w. has_user u w ≡ true) same known)
            (subst (λ w. AreUnique w.refresh_tokens) same unique)).0
          (omega (arith, late, ap (λ (w : Database). w.now) same₂)) in
      subst (λ b. (validate srv b user t).0 ≡ ok tt) token (rw stored at after)

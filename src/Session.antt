-- ===== src/Session.antt =====
-- pkg/session/session.go: sessions over a store of refresh tokens.
pub mod Life
pub mod Mocks
mod Tests
use gophkeeper.Base.{ℕ, String}
use gophkeeper.Base.Go.{wrap, Prog, pure, map_err, ◌>>=◌, ◌>>◌}
use gophkeeper.Model.{Bytes, UserId}
use gophkeeper.Tokens.{
  Jwt, Sources, Generator, generate_refresh_token, generate_access_token, check_access_token,
}

abbrev pub md_key_authorisation : String
md_key_authorisation = "authorization"

abbrev pub auth_token_prefix : String
auth_token_prefix = "Bearer "

pub record RefreshTokenStorage (S : Type 0) : Type 0 where
  pub save : Bytes → UserId → ℕ → Prog S (Unit {0})
  pub validate : Bytes → UserId → Prog S (Unit {0})
  pub delete : Bytes → Prog S (Unit {0})

pub record Manager (S : Type 0) : Type 0 where
  pub storage : RefreshTokenStorage S
  pub issuer : Generator

-- internal/api/v1/auth_service.go: what the handlers see of a manager
pub record SessionManager (S : Type 0) : Type 0 where
  pub create_session : UserId → Prog S (String × Bytes)
  pub refresh_session : UserId → Bytes → Prog S (String × Bytes)
  pub validate_access_token : String → Prog S UserId
  pub revoke_session : Bytes → Prog S (Unit {0})

module _ {S : Type 0} where
  unfoldable pub new_manager : RefreshTokenStorage S → Generator → Manager S
  new_manager storage issuer = record { storage = storage; issuer = issuer }

module _ {S : Type 0} (jwt : Jwt) (env : Sources S) (generate_sha256 : Bytes → Bytes)
    (m : Manager S) where
  unfoldable pub create_session : UserId → Prog S (String × Bytes)
  unfolding generate_access_token generate_refresh_token
  create_session user_id = do
    access_token ←
        map_err (wrap "failed to generate access token")
          (generate_access_token jwt env generate_sha256 m.issuer user_id)
    (refresh_token, expires_at) ←
        map_err (wrap "failed to generate refresh token")
          (generate_refresh_token jwt env generate_sha256 m.issuer)
    map_err (wrap "failed to save refresh token") (m.storage.save refresh_token user_id expires_at)
    pure (access_token, refresh_token)

  unfoldable pub refresh_session : UserId → Bytes → Prog S (String × Bytes)
  unfolding create_session
  refresh_session user_id old_refresh_token = do
    map_err (wrap "failed to revoke old refresh token") (m.storage.delete old_refresh_token)
    map_err (wrap "failed to create new session") (create_session user_id)

  unfoldable pub validate_access_token : String → Prog S UserId
  unfolding check_access_token
  validate_access_token token = check_access_token jwt env generate_sha256 m.issuer token

  unfoldable pub validate_refresh_token : Bytes → UserId → Prog S (Unit {0})
  validate_refresh_token token user_id = m.storage.validate token user_id

  unfoldable pub revoke_session : Bytes → Prog S (Unit {0})
  revoke_session refresh_token =
      map_err (wrap "failed to revoke refresh token") (m.storage.delete refresh_token)

  unfoldable pub as_session_manager : SessionManager S
  unfolding create_session refresh_session validate_access_token revoke_session
  as_session_manager = record {
    create_session = create_session;
    refresh_session = refresh_session;
    validate_access_token = validate_access_token;
    revoke_session = revoke_session;
  }

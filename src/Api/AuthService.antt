-- ===== src/Api/AuthService.antt =====
-- internal/api/v1/auth_service.go: Login, Logout and Register.
pub mod Flows
pub mod OnDatabase
pub mod Accounts
mod Tests
use gophkeeper.Base.{String, Bool, true, false, Option, none, some, [], if◌then◌else◌}
use gophkeeper.Base.Go.{
  invalid_argument, already_exists, unauthenticated, internal, Error, status, not_found, errors_is,
  Outcome, ok, err, panic, Prog, pure, map_err, from_option, ◌>>=◌, ◌>>◌,
}
use gophkeeper.Model.{Bytes, UserId, User}
use gophkeeper.Session.{SessionManager}
use gophkeeper.Repo.Users.{UserRepository}
use gophkeeper.Api.Context.{msg_agent_wrong}

abbrev pub msg_request_validation_failed : String
msg_request_validation_failed =
    "request validation failed: check if both Login and Password are filled"

abbrev pub msg_registration_failed : String
msg_registration_failed = "registration failed, try again"

-- Messages of proto/v1/auth/auth.pb.go. Nil bytes are `none`.
pub record AuthData : Type 0 where
  pub login : Option Bytes
  pub password : Option Bytes

-- LoginRequest and RegisterRequest.
pub record AuthRequest : Type 0 where
  pub auth_data : Option AuthData

pub record RefreshToken : Type 0 where
  pub refresh_token : Option Bytes

pub record LogoutRequest : Type 0 where
  pub refresh_token : Option RefreshToken

-- LoginResponse and RegisterResponse, by their two tokens.
pub record TokensResponse : Type 0 where
  pub access_token : String
  pub refresh_token : Bytes

-- The functions of pkg/hash that the handlers call.
pub record Hashing (S : Type 0) : Type 0 where
  pub generate_hmac : Bytes → Bytes → Bytes
  pub generate_from_password : Bytes → Prog S String
  pub compare_hash_and_password : String → Bytes → Outcome (Unit {0})

pub record AuthService (S : Type 0) : Type 0 where
  pub repo : UserRepository S
  pub session_manager : SessionManager S
  pub secret : Bytes

abbrev bytes_or_nil : Option Bytes → Bytes
bytes_or_nil none = []
bytes_or_nil (some b) = b

pub record Credentials : Type 0 where
  pub login : Bytes
  pub password : Bytes

abbrev pub validation_failed : Error
validation_failed = status invalid_argument msg_request_validation_failed

abbrev both : Option Bytes → Option Bytes → Outcome Credentials
both none p = err validation_failed
both (some l) none = err validation_failed
both (some l) (some p) = ok (record { login = l; password = p })

abbrev filled : Option AuthData → Outcome Credentials
filled none = err validation_failed
filled (some c) = both c.login c.password

-- the checks at the head of Login and Register
abbrev pub credentials_of : Option AuthRequest → Outcome Credentials
credentials_of none = err (status invalid_argument msg_agent_wrong)
credentials_of (some r) = filled r.auth_data

abbrev pub is_not_found : Error → Bool
is_not_found not_found = true
is_not_found _ = false

abbrev pub respond : {S : Type 0} → String × Bytes → Prog S TokensResponse
respond (access, refresh) = pure (record { access_token = access; refresh_token = refresh })

-- `NewAuthService` is given no secret: the field stays nil.
unfoldable pub new_auth_service : {S : Type 0} → UserRepository S → SessionManager S → AuthService S
new_auth_service repo session_manager = record {
  repo = repo;
  session_manager = session_manager;
  secret = [];
}

module _ {S : Type 0} (hash : Hashing S) (svc : AuthService S) where
  open svc use {repo, session_manager, secret}

  unfoldable pub login : Option AuthRequest → Prog S TokensResponse
  login r = do
    credentials ← λ s. (credentials_of r, s)
    (user_id, user_data) ←
        map_err (λ e. status unauthenticated "failed to find user")
          (repo.find_by_login (hash.generate_hmac credentials.login secret))
    map_err (λ e. status unauthenticated "password format is wrong")
        λ s. (hash.compare_hash_and_password user_data.password_phc credentials.password, s)
    session ←
        map_err (λ e. status internal "failed to create session")
          (session_manager.create_session user_id)
    respond session

  abbrev pub revoke : RefreshToken → Prog S (Unit {0})
  revoke t =
      map_err (λ e. status internal "logout failed")
        (session_manager.revoke_session (bytes_or_nil t.refresh_token))

  unfoldable pub logout : Option LogoutRequest → Prog S (Unit {0})
  logout r = do
    req ← from_option (status invalid_argument msg_agent_wrong) r
    token ← from_option (status invalid_argument "request validation failed") req.refresh_token
    revoke token

  -- the name is free only where the lookup fails by `model.ErrNotFound`
  abbrev pub login_is_free : Outcome (UserId × User) × S → Outcome (Unit {0}) × S
  login_is_free (ok found, s) = (err (status already_exists "the username is already taken"), s)
  login_is_free (err e, s) =
      if errors_is is_not_found e
      then (ok tt, s)
      else (err (status internal msg_registration_failed), s)
  login_is_free (panic p, s) = (panic p, s)

  unfoldable pub register : Option AuthRequest → Prog S TokensResponse
  register r = do
    credentials ← λ s. (credentials_of r, s)
    let login_hash = hash.generate_hmac credentials.login secret
    λ s. login_is_free (repo.find_by_login login_hash s)
    password_hash ←
        map_err (λ e. status internal msg_registration_failed)
          (hash.generate_from_password credentials.password)
    user_id ←
        map_err (λ e. status internal msg_registration_failed)
          (repo.create (record { login_hash = login_hash; password_phc = password_hash }))
    session ←
        map_err (λ e. status internal msg_registration_failed)
          (session_manager.create_session user_id)
    respond session

-- ===== src/Api/AuthService/Accounts.antt =====
-- Register and then Login of internal/api/v1/auth_service.go, with the hashes of pkg/hash.
use gophkeeper.Base.{String, ◌≡◌, Option, some}
use gophkeeper.Base.Go.{Error, status, internal, ok, Prog, map_err, ◌>>=◌}
use gophkeeper.Model.{Bytes, UserId, User}
use gophkeeper.Repo.Users.{UserRepository}
use gophkeeper.Session.{SessionManager}
use gophkeeper.Api.AuthService.{
  AuthService, AuthRequest, TokensResponse, Hashing, login, respond, msg_registration_failed,
}

-- What the two interfaces promise over the accounts that a state holds, by login hash: `Create`
-- files the user, `FindByLogin` returns a user that is filed, and a session leaves them alone.
pub record IsAccountStore {S : Type 0} (repo : UserRepository S) (manager : SessionManager S)
    (accounts : S → Bytes → Option (UserId × String)) : Type 0 where
  pub created :
      (u : User) (id : UserId) (s t : S)
      → repo.create u s ≡ (ok id, t)
      → accounts t u.login_hash ≡ some (id, u.password_phc)
  pub found :
      (h : Bytes) (id : UserId) (u : User) (s t : S)
      → repo.find_by_login h s ≡ (ok (id, u), t)
      → accounts s h ≡ some (id, u.password_phc)
  pub kept :
      (id : UserId) (tokens : String × Bytes) (s t : S)
      → manager.create_session id s ≡ (ok tokens, t)
      → accounts t ≡ accounts s

abbrev pub request : Bytes → Bytes → Option AuthRequest
request l p = some (record { auth_data = some (record { login = some l; password = some p }) })

abbrev failed : Error → Error
failed e = status internal msg_registration_failed

module _ {S : Type 0} (hash : Hashing S) (svc : AuthService S) where
  -- What a Register that succeeds has filed.
  pub record Filed (l p : Bytes) (t : S) : Type 0 where
    pub phc : String
    pub user : UserId
    pub tokens : String × Bytes
    pub before_hash : S
    pub after_hash : S
    pub after_create : S
    pub hashed : hash.generate_from_password p before_hash ≡ (ok phc, after_hash)
    pub filed :
        svc.repo.create
          (record { login_hash = hash.generate_hmac l svc.secret; password_phc = phc })
          after_hash
        ≡ (ok user, after_create)
    pub session : svc.session_manager.create_session user after_create ≡ (ok tokens, t)

  with_user : UserId → Prog S TokensResponse
  with_user user_id = map_err failed (svc.session_manager.create_session user_id) >>= respond

  with_hash : Bytes → String → Prog S TokensResponse
  unfolding with_user
  with_hash l phc =
      map_err failed (
        svc.repo.create
          (record { login_hash = hash.generate_hmac l svc.secret; password_phc = phc }))
      >>= with_user

  when_free : Bytes → Bytes → Prog S TokensResponse
  unfolding with_hash
  when_free l p = map_err failed (hash.generate_from_password p) >>= with_hash l

abbrev account : UserId → String → Option (UserId × String)
account id phc = some (id, phc)

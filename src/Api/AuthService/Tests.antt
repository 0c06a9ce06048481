-- ===== src/Api/AuthService/Tests.antt =====
-- A registration and a login over a repository that is a map, with the sample cryptography.
use gophkeeper.Base.{String, Option, none, some, [], ◌∷◌, bytes_eq, if◌then◌else◌}
use gophkeeper.Base.Go.{not_found, Outcome, ok, err, panic, pure, fail}
use gophkeeper.Model.{Bytes, UserId, User}
use gophkeeper.Repo.Users.{UserRepository}
use gophkeeper.Session.{SessionManager}
use gophkeeper.Api.AuthService.{AuthService, TokensResponse, new_auth_service}

-- the accounts by login hash
pub record Accounts : Type 0 where
  pub account : Bytes → Option (UserId × String)

abbrev looked_up : Option (UserId × String) → Outcome (UserId × User)
looked_up none = err not_found
looked_up (some (id, phc)) = ok (id, record { login_hash = []; password_phc = phc })

abbrev with_phc : UserId → String → Option (UserId × String)
with_phc id phc = some (id, phc)

abbrev filed : User → Accounts → Accounts
filed u s = record {
  account = λ h. if bytes_eq u.login_hash h then some ("1", u.password_phc) else s.account h;
}

abbrev repo : UserRepository Accounts
repo = record {
  create = λ u s. (ok "1", filed u s);
  find_by_login = λ h s. (looked_up (s.account h), s);
  delete = λ id. pure tt;
}

abbrev sessions : SessionManager Accounts
sessions = record {
  create_session = λ u. pure (u, 5 ∷ []);
  refresh_session = λ u b. fail not_found;
  validate_access_token = λ t. pure t;
  revoke_session = λ b. pure tt;
}

abbrev id_of : Outcome UserId → UserId
id_of (ok id) = id
id_of (err e) = ""
id_of (panic m) = ""

-- the entry that a user is found by
abbrev entry_of : Outcome (UserId × User) → Option (UserId × String)
entry_of (ok (id, u)) = some (id, u.password_phc)
entry_of (err e) = none
entry_of (panic m) = none

abbrev service : AuthService Accounts
service = new_auth_service repo sessions

abbrev nobody : Accounts
nobody = record { account = λ h. none }

abbrev tokens : TokensResponse
tokens = record { access_token = "1"; refresh_token = 5 ∷ [] }

abbrev login_hash : Bytes
login_hash = 7 ∷ []

abbrev password : Bytes
password = 1 ∷ 2 ∷ []

abbrev phc : String
phc =
    "$argon2id$v=19$m=2,t=65536,p=1$AAAAAAAAAAAAAAAAAAAAAAAAAAAAAAAAAAAAAAAAAAA$AQAAAAAAAAAAAAAAAAAAAAAAAAAAAAAAAAAAAAAAAAA"

abbrev somebody : Accounts
somebody = filed (record { login_hash = login_hash; password_phc = phc }) nobody

-- the sample key derivation cannot tell the two passwords apart
abbrev other_password : Bytes
other_password = 3 ∷ []

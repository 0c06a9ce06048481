-- ===== src/Api/Tests.antt =====
-- The handlers' theorems with a keeper that only counts its calls, and a database without rows.
use gophkeeper.Base.{ℕ, ◌+◌, ◌≡◌, refl, String, Option, some, none, [], ◌∷◌, arith, eq_iff}
use gophkeeper.Base.Go.{pos, new, ok, Prog, pure, fail}
use gophkeeper.Session.{SessionManager}
use gophkeeper.Convert.{Timestamps, ProtoMetadata}
use gophkeeper.Repo.Users.{UserRepository}
use gophkeeper.Api.Context.{user_id}
use gophkeeper.Api.Interceptor.{Headers}
use gophkeeper.Api.Interceptor.Gate.{Gate, serve_unary-Gate}
use gophkeeper.Api.KeeperService.{
  KeeperUseCase, MetadataRequest, SyncRequest, StreamResponse, delete, get,
}
use gophkeeper.Api.KeeperService.Guards.{delete_get_ignore_owner}
use gophkeeper.Api.AuthService.{AuthRequest, TokensResponse, Hashing, login, new_auth_service}
use gophkeeper.Api.AuthService.Flows.{LoggedIn, login_checks}

abbrev plain : Timestamps
plain = record { Timestamp = ℕ; as_time = λ t. t; new_timestamp = λ t. t }

abbrev counter : KeeperUseCase ℕ
counter = record {
  add_sealed = λ u m b n. (ok "1", n + 1);
  delete = λ i n. (ok tt, n + 1);
  get_sealed = λ i f n. (ok tt, n + 1);
  list = λ u n. (ok [], n + 1);
  sync = λ u m f n. (ok tt, n + 1);
}

abbrev sessions : {S : Type 0} → SessionManager S
sessions = record {
  create_session = λ u. pure (u, 5 ∷ []);
  refresh_session = λ u b. fail (new "no such token");
  validate_access_token = λ t. pure t;
  revoke_session = λ b. pure tt;
}

abbrev message : ProtoMetadata ℕ
message = record {
  data_type = some (pos 3);
  id = some "1";
  name = none;
  description = none;
  created_at = none;
  chunk_descriptor = none;
}

abbrev request : MetadataRequest ℕ
request = record { metadata = some message }

abbrev sync_request : SyncRequest
sync_request = record { sync_mode = some 1 }

abbrev headers : Headers
headers key = "Bearer alice" ∷ []

abbrev sink : StreamResponse ℕ → Prog ℕ (Unit {0})
sink r = pure tt

delete_get_ignore_owner_example :
    (delete plain counter (user_id "alice") (some request) 0
      ≡ delete plain counter (user_id "mallory") (some request) 0)
    × (get plain counter sink (user_id "alice") (some request) 0
        ≡ get plain counter sink (user_id "mallory") (some request) 0)
delete_get_ignore_owner_example =
    delete_get_ignore_owner plain counter sink (some request) "alice" "mallory" 0
      (λ p. ground (arith, eq_iff "alice" "", p)) (λ p. ground (arith, eq_iff "mallory" "", p))

serve_unary-Gate_example : Gate {S = ℕ} sessions ℕ String (some headers) 0
serve_unary-Gate_example = serve_unary-Gate {S = ℕ} sessions ℕ String (some headers) 0

-- every password fits
abbrev hashing : {S : Type 0} → Hashing S
hashing = record {
  generate_hmac = λ b k. b;
  generate_from_password = λ b. pure "phc";
  compare_hash_and_password = λ h b. ok tt;
}

abbrev one_user : UserRepository ℕ
one_user = record {
  create = λ u. fail (new "full");
  find_by_login = λ b. pure ("alice", record { password_phc = "phc"; login_hash = [] });
  delete = λ u. pure tt;
}

abbrev credentials : Option AuthRequest
credentials =
    some (record { auth_data = some (record { login = some (1 ∷ []); password = some (2 ∷ []) }) })

abbrev tokens : TokensResponse
tokens = record { access_token = "alice"; refresh_token = 5 ∷ [] }

login_checks_example : LoggedIn hashing (new_auth_service one_user sessions) credentials 0 0 tokens
unfolding login new_auth_service
login_checks_example =
    login_checks hashing (new_auth_service one_user sessions) credentials 0 0 tokens refl

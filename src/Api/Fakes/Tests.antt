-- ===== src/Api/Fakes/Tests.antt =====
-- The tables of internal/api/v1/auth_service_test.go and keeper_service_test.go, run on the
-- model: the codes that the handlers answer over the fakes.
use gophkeeper.Base.{ℕ, String, ◌≡◌, refl, Option, none, some, List, [], ◌∷◌, map, arith}
use gophkeeper.Base.Go.{
  pos, Code, invalid_argument, already_exists, unauthenticated, internal, status, Outcome, ok, err,
  pure,
}
use gophkeeper.Base.Utf8.{to_bytes}
use gophkeeper.Convert.{ProtoDataType, Timestamps, ProtoMetadata, from_proto_metadata}
use gophkeeper.Hash.{Crypto}
use gophkeeper.Model.{Bytes}
use gophkeeper.Session.{SessionManager}
use gophkeeper.Api.AuthService.{AuthService, AuthRequest, login, register, logout}
use gophkeeper.Api.Context.{ContextValue, absent, user_id, other}
use gophkeeper.Api.Fakes.{
  FakeAddStream, new_fake_add_stream, recv, dummy_secret, fixture_login, fixture_phc,
}
use gophkeeper.Api.Fakes.Mocks.{mock_repo, mock_use_case, with_create_session, with_revoke_session}
use gophkeeper.Api.Fakes.Streams.{inbox_of, left, drained, receive_loop, receive_loop-receive}
use gophkeeper.Api.KeeperService.{AddRequest, receive, add}
use gophkeeper.Api.Server.{as_hashing}

abbrev answered : {A : Type 0} → Outcome A → Option Code
answered (err (status c m)) = some c
answered _ = none

-- a keyed hash that keeps the login, and a key that is the password
abbrev crypto : Crypto (Unit {0})
crypto = record {
  hmac_sha256 = λ key b. b;
  sha256 = λ b. b;
  rand_read = λ n. pure [];
  id_key = λ password salt t m p n. ok password;
}

abbrev sessions : SessionManager (Unit {0})
sessions = record {
  create_session = with_create_session;
  refresh_session = λ u b. pure ("", []);
  validate_access_token = λ t. pure "";
  revoke_session = with_revoke_session;
}

abbrev service : AuthService (Unit {0})
service = record {
  repo = mock_repo crypto (λ b. "");
  session_manager = sessions;
  secret = to_bytes dummy_secret;
}

abbrev asks : Option Bytes → Option Bytes → Option AuthRequest
asks l p = some (record { auth_data = some (record { login = l; password = p }) })

abbrev named : String → String → Option AuthRequest
named l p = asks (some (to_bytes l)) (some (to_bytes p))

login_rows :
    map
      (λ r. answered (login (as_hashing crypto) service r tt).0)
      (some (record { auth_data = none })
        ∷ asks none (some (to_bytes "p"))
        ∷ asks (some (to_bytes "dummy-user-id")) none
        ∷ named "db-fail" "p"
        ∷ named "dummy-user-id" "wrong"
        ∷ named "session-fail" "very-long-dummy-bytes"
        ∷ named "dummy-user-id" "very-long-dummy-bytes"
        ∷ [])
    ≡ some invalid_argument
      ∷ some invalid_argument
      ∷ some invalid_argument
      ∷ some unauthenticated
      ∷ some unauthenticated
      ∷ some internal
      ∷ none
      ∷ []
unfolding login as_hashing mock_repo to_bytes fixture_login fixture_phc with_create_session
login_rows = refl

register_rows :
    map
      (λ r. answered (register (as_hashing crypto) service r tt).0)
      (some (record { auth_data = none })
        ∷ asks none (some (to_bytes "pass"))
        ∷ asks (some (to_bytes "user")) none
        ∷ named "already-exists" "pass"
        ∷ named "db-fail" "pass"
        ∷ named "create-fail" "pass"
        ∷ named "session-fail-register" "pass"
        ∷ named "new-user" "pass"
        ∷ [])
    ≡ some invalid_argument
      ∷ some invalid_argument
      ∷ some invalid_argument
      ∷ some already_exists
      ∷ some internal
      ∷ some internal
      ∷ some internal
      ∷ none
      ∷ []
unfolding register as_hashing mock_repo to_bytes fixture_login fixture_phc with_create_session
register_rows = refl

logout_rows :
    map
      (λ o.
        answered (logout (as_hashing crypto) service (some (record { refresh_token = o })) tt).0)
      (none
        ∷ some (record { refresh_token = some [] })
        ∷ some (record { refresh_token = some (to_bytes "refresh-ok") })
        ∷ some (record { refresh_token = some (to_bytes "revoke-fail") })
        ∷ [])
    ≡ some invalid_argument ∷ none ∷ none ∷ some internal ∷ []
unfolding logout to_bytes with_revoke_session
logout_rows = refl

abbrev times : Timestamps
times = record { Timestamp = ℕ; as_time = λ t. t; new_timestamp = λ t. t }

abbrev typed : Option ProtoDataType → Option (ProtoMetadata ℕ)
typed t = some (record {
  data_type = t;
  id = none;
  name = some "name0";
  description = none;
  created_at = none;
  chunk_descriptor = none;
})

abbrev secret_bytes : Option Bytes
secret_bytes = some (to_bytes "secret bytes")

abbrev asked : Option (ProtoMetadata ℕ) → Option Bytes → Option (List (AddRequest ℕ))
asked m b = some (record { metadata = m; payload = some (record { sealed_data = b }) } ∷ [])

abbrev add_code : ContextValue × Option (List (AddRequest ℕ)) → Option Code
add_code (ctx, reqs) =
    answered (add times (mock_use_case 0) (λ e. "") (pure tt) ctx (inbox_of reqs 0) tt).0

add_rows :
    map add_code (
      (absent, none)
      ∷ (other, none)
      ∷ (user_id "userID", some [])
      ∷ (user_id "userID", none)
      ∷ (user_id "userID", asked none secret_bytes)
      ∷ (user_id "userID", some (record { metadata = typed (some (pos 2)); payload = none } ∷ []))
      ∷ (user_id "userID", asked (typed none) secret_bytes)
      ∷ (user_id "userID", asked (typed (some (pos 1))) none)
      ∷ (user_id "error", asked (typed (some (pos 1))) secret_bytes)
      ∷ (user_id "userOK", asked (typed (some (pos 1))) secret_bytes)
      ∷ [])
    ≡ some unauthenticated
      ∷ some unauthenticated
      ∷ none
      ∷ some invalid_argument
      ∷ some invalid_argument
      ∷ some invalid_argument
      ∷ some invalid_argument
      ∷ some invalid_argument
      ∷ some internal
      ∷ none
      ∷ []
unfolding add receive mock_use_case from_proto_metadata to_bytes
add_rows = refl

abbrev stream : FakeAddStream ℕ
stream = new_fake_add_stream ℕ (asked (typed (some (pos 1))) secret_bytes)

receive_loop-receive_example :
    (receive_loop (λ e. "") (recv ℕ) 2 stream ≡ (left stream.reqs 0, drained stream stream.reqs))
    × (receive (λ e. "") (inbox_of stream.reqs 0) ≡ left stream.reqs 0)
receive_loop-receive_example = receive_loop-receive (λ e. "") stream 2 (omega arith)

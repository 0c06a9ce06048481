-- ===== src/Api/Server/Tests.antt =====
-- A server over a database of one object, and a key pair and tokens that are taken as they come.
use gophkeeper.Base.{ℕ, ◌+◌, ◌≤◌, ◌≡◌, ◌≢◌, refl, String, true, false, Option, none, some, [], ◌∷◌}
use gophkeeper.Base.Go.{Error, new, ok, err, panic, Prog, pure}
use gophkeeper.Config.{Config}
use gophkeeper.Convert.{Timestamps, ProtoMetadata}
use gophkeeper.Database.{Database}
use gophkeeper.Hash.{Crypto}
use gophkeeper.Router.{nil_dereference}
use gophkeeper.Sqlc.{has_object}
use gophkeeper.Tokens.{Jwt}
use gophkeeper.Api.Interceptor.{Headers}
use gophkeeper.Api.Server.{
  Outside, Server, GrpcServer, Pool, TlsConfig, setup, serve, services, new_server, version_tls13,
}
use gophkeeper.Api.AuthService.{AuthRequest, TokensResponse}
use gophkeeper.Api.KeeperService.{SyncRequest, StreamResponse}
use gophkeeper.Api.KeeperService.Guards.{no_user}
use gophkeeper.Api.Server.Calls.{
  call_login, call_register, call_delete, call_add, call_get, call_sync,
}
use gophkeeper.Api.Server.Lockout.{locked_out}
use gophkeeper.Api.Server.Crash.{delete_crashes}
use gophkeeper.Api.Server.Stop.{
  at, sending, context_closed, later, start, expire, give_up, finish, Outlook, stop_outlook,
}

abbrev jwt : Jwt
jwt = record {
  new_numeric_date = λ t. t;
  signed_string = λ alg claims secret. ok claims.subject;
  parse_with_claims = λ token key leeway methods now.
      ok (record { issued_at = 0; expires_at = now; subject = token }, true);
}

abbrev crypto : Crypto Database
crypto = record {
  hmac_sha256 = λ key b. b;
  sha256 = λ b. b;
  rand_read = λ n. pure [];
  id_key = λ password salt t m p n. ok [];
}

abbrev out : Outside String String
out = record {
  jwt = jwt;
  crypto = crypto;
  clock = λ d. d.now;
  pool_ping = λ pool. pure tt;
  join = λ dir file. file;
  load_x509_key_pair = λ cert key. ok cert;
  listen = λ address. ok address;
  grpc_serve = λ g listener. ok tt;
}

abbrev pool : Pool
pool = record {
  fault = λ k. none;
  gen_random_uuid = λ k. k + 100;
  parse_uuid = λ s. some 5;
  parse_error = new "invalid UUID";
  uuid_string = λ u. "5";
}

abbrev cfg : Config
cfg = record {
  run_addr = "localhost:50051";
  database_uri = "";
  secret_key = "ключ";
  log_level = "info";
  certs_dir = "/certs";
}

abbrev server : Server String
server = new_server cfg (record { get_pool = ok pool })

abbrev creds : TlsConfig String
creds = record { certificates = "server.crt" ∷ []; min_version = version_tls13 }

abbrev no_err : Database → Option Error
no_err d = none

abbrev ready : Server String
ready = record server { grpc_server = some (services out no_err cfg pool creds) }

setup_run : setup out no_err server ≡ (ok tt, ready)
unfolding setup new_server
setup_run = refl

unset_run : serve out no_err server ≡ (panic nil_dereference, server)
unfolding serve new_server
unset_run = refl

abbrev database : Database
database = record {
  users = record { id = 7; login_hash = 9 ∷ []; password_phc = "phc" } ∷ [];
  refresh_tokens = [];
  objects =
      record {
        id = 5;
        user_id = 7;
        id_data_type = 2;
        name = "card";
        description = none;
        storage_locator = "pg://5";
        created_at = 1;
      }
      ∷ [];
  secret_blobs = [];
  chunk_manifest = [];
  now = 10;
  rounds = 0;
}

abbrev headers : Headers
headers key = "Bearer mallory" ∷ []

abbrev plain : Timestamps
plain = record { Timestamp = ℕ; as_time = λ t. t; new_timestamp = λ t. t }

abbrev message : ProtoMetadata ℕ
message = record {
  data_type = none;
  id = some "5";
  name = none;
  description = none;
  created_at = none;
  chunk_descriptor = none;
}

abbrev g : GrpcServer String
g = services out no_err cfg pool creds

delete_crashes_example :
    (t : Database) × (call_delete g crypto
        (some headers)
        plain
        (some (record { metadata = some message }))
        database
      ≡ (panic nil_dereference, t))
    × (has_object 5 t ≡ false)
unfolding new_server services
delete_crashes_example =
    delete_crashes out no_err server ready pool g plain headers "Bearer mallory" [] "mallory"
      message 5 _ database setup_run refl refl (λ k. refl) refl refl refl refl refl refl refl

abbrev sync_request : SyncRequest
sync_request = record { sync_mode = some 1 }

abbrev sink : StreamResponse ℕ → Prog Database (Unit {0})
sink r = pure tt

abbrev credentials : Option AuthRequest
credentials =
    some (record { auth_data = some (record { login = some (1 ∷ []); password = some (2 ∷ []) }) })

abbrev tokens : TokensResponse
tokens = record { access_token = "mallory"; refresh_token = 5 ∷ [] }

locked_out_example :
    ((call_login g crypto (some headers) credentials database).0 ≢ ok tokens)
    × ((call_register g crypto (some headers) credentials database).0 ≢ ok tokens)
    × (call_add g crypto (some headers) plain (λ e. "") (pure tt) [] database
        ≡ (err no_user, database))
    × (call_get g crypto
          (some headers)
          plain
          sink
          (some (record { metadata = some message }))
          database
        ≡ (err no_user, database))
    × (call_sync g crypto (some headers) plain sink (some sync_request) database
        ≡ (err no_user, database))
unfolding new_server services
locked_out_example =
    locked_out out no_err server ready pool g plain (some headers) (λ e. "") (pure tt) sink
      credentials [] (record { metadata = some message }) sync_request database tokens setup_run
      refl refl (λ k e h. cc)

-- the context is done before GracefulStop ends
stop_outlook_example :
    (3 ≤ 4)
    × Outlook (new "deadline exceeded") (at sending (context_closed (new "deadline exceeded")) true)
stop_outlook_example =
    stop_outlook (new "deadline exceeded") 3
      (at sending (context_closed (new "deadline exceeded")) true)
      (later (later (later start expire) give_up) finish)

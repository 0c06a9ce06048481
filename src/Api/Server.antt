-- ===== src/Api/Server.antt =====
-- internal/api/api.go: the server, put together by Setup from the parts of the other files.
pub mod Calls
pub mod Built
pub mod Crash
pub mod Lockout
pub mod Stop
mod Tests
use Prim.Native.Char.{Char, code}
use Prim.Native.String
use Prim.Native.String.{◌++◌ as str_append}
use gophkeeper.Base.{
  ℕ, ◌+◌, ◌/◌, ◌%◌, String, Option, none, some, List, [], ◌∷◌, ◌++◌, ltb, str_eq, if◌then◌else◌,
}
use gophkeeper.Base.Go.{
  Error, wrap, Outcome, ok, err, panic, Prog, lift, modify, map_err, ◌>>=◌, ◌>>◌,
}
use gophkeeper.Base.Results
use gophkeeper.Base.Utf8.{to_bytes}
use gophkeeper.Config.{Config}
use gophkeeper.Convert.{Timestamps}
use gophkeeper.Database
use gophkeeper.Database.{Database}
use gophkeeper.Hash
use gophkeeper.Hash.{Crypto}
use gophkeeper.Keeper
use gophkeeper.Keeper.{ObjectRepo}
use gophkeeper.Model.{
  Bytes, DataType, data_type_binary, data_type_card, data_type_authentication_credentials,
}
use gophkeeper.Repo.Metadata
use gophkeeper.Repo.Sealed
use gophkeeper.Repo.Tokens
use gophkeeper.Repo.Users
use gophkeeper.Repo.Users.{UserRepository}
use gophkeeper.Router
use gophkeeper.Router.{nil_dereference}
use gophkeeper.Session
use gophkeeper.Session.{RefreshTokenStorage, SessionManager}
use gophkeeper.Tokens.{Jwt, Sources, new_generator}
use gophkeeper.Api.AuthService.{AuthService, Hashing, new_auth_service}
use gophkeeper.Api.HealthService.{HealthService, new_health_service}
use gophkeeper.Api.KeeperService.{KeeperUseCase, as_use_case}

-- A pool, by the server that it reaches.
abbrev pub Pool : Type 0
Pool = Database.Server

pub record DbManager : Type 0 where
  pub get_pool : Outcome Pool

pub record TlsConfig (Certificate : Type 0) : Type 0 where
  pub certificates : List Certificate
  pub min_version : ℕ

abbrev pub version_tls13 : ℕ
version_tls13 = 0x0304

-- A `grpc.Server`: its credentials, the session manager of its one interceptor, and the services
-- that are registered with it.
pub record GrpcServer (Certificate : Type 0) : Type 0 where
  pub creds : TlsConfig Certificate
  pub session_manager : SessionManager Database
  pub health : HealthService Database
  pub auth : AuthService Database
  pub keeper : KeeperUseCase Database

pub record Server (Certificate : Type 0) : Type 0 where
  pub cfg : Config
  pub db_manager : DbManager
  pub grpc_server : Option (GrpcServer Certificate)

-- What the server uses from outside of the repository: golang-jwt, cryptography, the clock, a
-- pool's Ping, path.Join, the reading of key files, net.Listen and the loop of grpc-go.
pub record Outside (Certificate Listener : Type 0) : Type 0 where
  pub jwt : Jwt
  pub crypto : Crypto Database
  pub clock : Database → ℕ
  pub pool_ping : Pool → Prog Database (Unit {0})
  pub join : String → String → String
  pub load_x509_key_pair : String → String → Outcome Certificate
  pub listen : String → Outcome Listener
  pub grpc_serve : GrpcServer Certificate → Listener → Outcome (Unit {0})

-- pkg/hash as the handlers take it
unfoldable pub as_hashing : {S : Type 0} → Crypto S → Hashing S
unfolding Hash.generate_hmac Hash.generate_from_password Hash.compare_hash_and_password
as_hashing crypto = record {
  generate_hmac = Hash.generate_hmac crypto;
  generate_from_password = Hash.generate_from_password crypto;
  compare_hash_and_password = Hash.compare_hash_and_password crypto;
}

unfoldable pub new_server : {Certificate : Type 0} → Config → DbManager → Server Certificate
new_server cfg db_manager = record { cfg = cfg; db_manager = db_manager; grpc_server = none }

-- what setupRepos returns
pub record Repos : Type 0 where
  pub user_repo : UserRepository Database
  pub token_repo : RefreshTokenStorage Database
  pub use_case : KeeperUseCase Database

module _ {Certificate Listener : Type 0} (out : Outside Certificate Listener)
    (ctx_err : Database → Option Error) where
  -- the map `reposByType`
  abbrev pub repos_by_type : ObjectRepo Database → DataType → Option (ObjectRepo Database)
  repos_by_type objects dt =
      if str_eq dt data_type_binary
      then some objects
      else if str_eq dt data_type_card
      then some objects
      else if str_eq dt data_type_authentication_credentials
      then some objects
      else none

  unfoldable pub setup_repos : Pool → Repos
  unfolding Users.as_user_repository Tokens.as_storage Metadata.as_metadata_repo
      Sealed.as_object_repo Router.new_router Router.as_object_repo as_use_case Keeper.new_service
  setup_repos pool =
      let sha256 = out.crypto.sha256 in
      let objects_router =
        Router.as_object_repo
          (Router.new_router (repos_by_type (Sealed.as_object_repo pool sha256))) in
      record {
        user_repo = Users.as_user_repository pool;
        token_repo = Tokens.as_storage pool;
        use_case =
            as_use_case sha256 ctx_err
              (Keeper.new_service objects_router (Metadata.as_metadata_repo pool));
      }

  unfoldable pub load_credentials : String → Outcome (TlsConfig Certificate)
  load_credentials certs_dir =
      Results.◌>>=◌
        (Results.with_err (wrap "failed to load X509 Key Pair") (
          out.load_x509_key_pair (out.join certs_dir "server.crt")
            (out.join certs_dir "server.key")))
        (λ cert. ok (record { certificates = cert ∷ []; min_version = version_tls13 }))

  abbrev pub sources : Sources Database
  sources = record { now = out.clock; generate_random = Hash.generate_random out.crypto }

  -- the server with its interceptor and its three services
  unfoldable pub services : Config → Pool → TlsConfig Certificate → GrpcServer Certificate
  unfolding setup_repos Session.as_session_manager Session.new_manager new_generator
      new_health_service new_auth_service Hash.generate_random
  services cfg pool creds =
      let repos = setup_repos pool in
      let session_manager =
        Session.as_session_manager out.jwt sources out.crypto.sha256
          (Session.new_manager repos.token_repo (new_generator (to_bytes cfg.secret_key))) in
      record {
        creds = creds;
        session_manager = session_manager;
        health = new_health_service (record { ping = out.pool_ping pool });
        auth = new_auth_service repos.user_repo session_manager;
        keeper = repos.use_case;
      }

  unfoldable pub setup : Prog (Server Certificate) (Unit {0})
  unfolding services load_credentials
  setup = do
    pool ← map_err (wrap "get pgxpool.Pool") (λ s. (s.db_manager.get_pool, s))
    creds ←
        map_err (wrap "failed to load TLS credentials") (λ s. (load_credentials s.cfg.certs_dir, s))
    modify (λ s. record s { grpc_server = some (services s.cfg pool creds) })

  abbrev pub served : Option (GrpcServer Certificate) → Listener → Outcome (Unit {0})
  served none listener = panic nil_dereference
  served (some g) listener = out.grpc_serve g listener

  unfoldable pub serve : Prog (Server Certificate) (Unit {0})
  serve = do
    listener ← λ s. (
      Results.with_err (wrap (str_append "failed to start listening on address " s.cfg.run_addr))
          (out.listen s.cfg.run_addr),
      s,
    )
    λ s. (served s.grpc_server listener, s)

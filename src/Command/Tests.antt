-- ===== src/Command/Tests.antt =====
-- A run over drivers that count what they are asked: Setup fails for want of a key file.
use gophkeeper.Base.{ℕ, ◌+◌, ◌≡◌, refl, String, Option, none, [], ◌∷◌}
use gophkeeper.Base.Go.{Error, new, no_change, ok, err, pure}
use gophkeeper.Command.{exit_code, not_set_up, Life, signalled, db_connect, run, run_with}
use gophkeeper.Command.Closing.{Finish, run_with-Finish}
use gophkeeper.Config.{Config}
use gophkeeper.Database.{Database}
use gophkeeper.DbManager.{UpCloser, Drivers}
use gophkeeper.Api.Server.{Outside, Pool}

abbrev pool : Pool
pool = record {
  fault = λ k. none;
  gen_random_uuid = λ k. k + 100;
  parse_uuid = λ s. none;
  parse_error = new "invalid UUID";
  uuid_string = λ u. "5";
}

abbrev migrator : UpCloser ℕ
migrator = record { up = λ n. (err no_change, n + 1); close = λ n. ((none, none), n + 1) }

abbrev drivers : Drivers ℕ String String String Pool
drivers = record {
  iofs_new = λ fs. ok fs;
  new_with_source_instance = λ source dsn. pure migrator;
  parse_config = λ dsn. ok dsn;
  new_with_config = λ cfg n. (ok pool, n + 1);
  pool_ping = λ p n. (ok tt, n + 1);
  pool_close = λ p n. n + 100;
}

abbrev out : Outside String String
out = record {
  jwt = record {
    new_numeric_date = λ t. t;
    signed_string = λ alg claims secret. ok claims.subject;
    parse_with_claims = λ token key leeway methods now. err (new "invalid");
  };
  crypto = record {
    hmac_sha256 = λ key b. b;
    sha256 = λ b. b;
    rand_read = λ n. pure [];
    id_key = λ password salt t m p n. ok [];
  };
  clock = λ d. d.now;
  pool_ping = λ p. pure tt;
  join = λ dir file. file;
  load_x509_key_pair = λ cert key. err (new "no such file");
  listen = λ address. ok address;
  grpc_serve = λ g listener. ok tt;
}

abbrev no_err : Database → Option Error
no_err d = none

abbrev life : Life ℕ String
life = record { serving = λ server n. signalled n; stop = λ server. pure tt }

abbrev cfg : Config
cfg = record {
  run_addr = "localhost:50051";
  database_uri = "postgres://";
  secret_key = "";
  log_level = "info";
  certs_dir = "/certs";
}

abbrev env_parse : Config → Config × Option Error
env_parse c = (cfg, none)

two_runs :
    (run drivers "migrations" out no_err life env_parse [] 0 ≡ (not_set_up, 104))
    × (run drivers "migrations" out no_err life env_parse ("-x" ∷ []) 0 ≡ (exit_code 2, 0))
unfolding run
two_runs = (refl, refl)

run_with-Finish_example :
    Finish drivers "migrations" out no_err life
      (run_with drivers "migrations" out no_err life cfg 0)
      (db_connect drivers "migrations" "postgres://" 0)
run_with-Finish_example = run_with-Finish drivers "migrations" out no_err life cfg 0

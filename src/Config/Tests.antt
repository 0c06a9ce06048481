-- ===== src/Config/Tests.antt =====
-- Flags in each form, over an environment with one variable.
use gophkeeper.Base.{◌≡◌, refl, String, Option, none, some, List, [], ◌∷◌, str_eq, if◌then◌else◌}
use gophkeeper.Base.Go.{Error}
use gophkeeper.Config.{Config, returned, exited, parse_with, get_config}
use gophkeeper.Config.Precedence.{
  Key, run_address, database, secret, log, certs, field, variable, default, value_or, given, Given,
  joined, joined_long, spaced, arguments, get_config_precedence,
}

abbrev vars : String → Option String
vars name = if str_eq name "LOG_LEVEL" then some "debug" else none

abbrev value : Key → String
value k = value_or (vars (variable k)) (default k)

abbrev env_parse : Config → Config × Option Error
env_parse c = (
  record {
    run_addr = value run_address;
    database_uri = value database;
    secret_key = value secret;
    log_level = value log;
    certs_dir = value certs;
  },
  none,
)

env_parse_reads : (c : Config) (k : Key) → field k (env_parse c).0 ≡ value k
env_parse_reads c run_address = refl
env_parse_reads c k = refl

abbrev flags : List Given
flags = joined database "postgres://a" ∷ spaced secret "-x" ∷ joined_long database "b=c" ∷ []

arguments_run : arguments flags ≡ "-d=postgres://a" ∷ "-k" ∷ "-x" ∷ "--d=b=c" ∷ []
unfolding arguments
arguments_run = refl

get_config_run :
    get_config env_parse (arguments flags)
    ≡ returned (record {
      run_addr = "localhost:50051";
      database_uri = "b=c";
      secret_key = "-x";
      log_level = "debug";
      certs_dir = "/certs";
    })
unfolding get_config arguments
get_config_run = refl

abbrev blank : Config
blank = record { run_addr = ""; database_uri = ""; secret_key = ""; log_level = ""; certs_dir = "" }

undefined_flags :
    (parse_with none ("-help" ∷ []) blank ≡ exited 0)
    × (parse_with none ("-z" ∷ []) blank ≡ exited 2)
    × (parse_with none ("-a" ∷ []) blank ≡ exited 2)
    × (parse_with none ("run" ∷ "-z" ∷ []) blank ≡ returned blank)
unfolding parse_with
undefined_flags = (refl, refl, refl, refl)

get_config_precedence_example :
    (c : Config) × (get_config env_parse (arguments flags) ≡ returned c)
    × ((k : Key) → field k c ≡ value_or (given k flags) (value_or (vars (variable k)) (default k)))
get_config_precedence_example = get_config_precedence vars env_parse env_parse_reads flags

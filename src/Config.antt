-- ===== src/Config.antt =====
-- pkg/config/config.go: the configuration from the environment and from the command line's flags.
pub mod Precedence
mod Tests
use Prim.Native.Char.{Char, code}
use Prim.Native.String
use gophkeeper.Base.{
  ℕ, zero, suc, String, Bool, true, false, ◌||◌, Option, none, some, List, [], ◌∷◌, ◌==◌, str_eq,
  if◌then◌else◌,
}
use gophkeeper.Base.Go.{Error}

pub record Config : Type 0 where
  pub run_addr : String
  pub database_uri : String
  pub secret_key : String
  pub log_level : String
  pub certs_dir : String

-- `Builder`, by the configuration that it works on; its logger is left out.
pub record Builder : Type 0 where
  pub cfg : Config

unfoldable pub new_builder : Builder
new_builder = record {
  cfg = record {
    run_addr = "";
    database_uri = "";
    secret_key = "";
    log_level = "";
    certs_dir = "";
  };
}

-- `env_parse` is `env.Parse` of caarlos0/env: what it makes of the configuration, and its error,
-- which is only logged.
unfoldable pub from_env : (Config → Config × Option Error) → Builder → Builder
from_env env_parse b = record { cfg = (env_parse b.cfg).0 }

-- How `flag.Parse` comes back: with the configuration, or not at all, by `os.Exit` of this code.
pub data Parsed : Type 0 where
  returned : Config → Parsed
  exited : ℕ → Parsed

-- the five flags
unfoldable pub set_flag : String → String → Config → Option Config
set_flag name value cfg =
    if str_eq name "a"
    then some (record cfg { run_addr = value })
    else if str_eq name "d"
    then some (record cfg { database_uri = value })
    else if str_eq name "k"
    then some (record cfg { secret_key = value })
    else if str_eq name "l"
    then some (record cfg { log_level = value })
    else if str_eq name "c"
    then some (record cfg { certs_dir = value })
    else none

abbrev cons_name : Char → String × Option String → String × Option String
cons_name c (name, value) = (String.◌∷◌ c name, value)

-- the text before the first `=`, and the text behind it if there is one
unfoldable pub cut_name : String → String × Option String
cut_name String.[] = ("", none)
cut_name (String.◌∷◌ c s) =
    let rest = cut_name s in if code c == b'=' then ("", some s) else cons_name c rest

-- An argument, as Go's flag package reads it: the end of the flags, bad syntax, or a flag.
pub data Argument : Type 0 where
  stop bad : Argument
  flag : String → Option String → Argument

abbrev first_kept : Char → String × Option String → Argument
first_kept c (name, value) = flag (String.◌∷◌ c name) value

abbrev named : String → Argument
named String.[] = bad
named (String.◌∷◌ c s) = if code c == b'-' || code c == b'=' then bad else first_kept c (cut_name s)

-- behind two dashes
abbrev after_dashes : String → Argument
after_dashes String.[] = stop
after_dashes (String.◌∷◌ c s) = named (String.◌∷◌ c s)

abbrev after_dash : String → Argument
after_dash String.[] = stop
after_dash (String.◌∷◌ c s) = if code c == b'-' then after_dashes s else named (String.◌∷◌ c s)

unfoldable pub argument : String → Argument
unfolding cut_name
argument String.[] = stop
argument (String.◌∷◌ c s) = if code c == b'-' then after_dash s else stop

-- A flag that is not defined ends the process, with code 0 where it asks for help.
abbrev pub undefined_flag : String → Parsed
undefined_flag name = if str_eq name "help" || str_eq name "h" then exited 0 else exited 2

abbrev pub on_set : (Config → Parsed) → String → Option Config → Parsed
on_set next name none = undefined_flag name
on_set next name (some cfg) = next cfg

-- A flag with no value takes the next argument, whatever it looks like. Whether the flag is defined
-- is tested before that.
abbrev pub is_set : Option Config → Bool
is_set none = false
is_set (some cfg) = true

-- what is done with an argument: `go` parses the rest, `wait` takes the value from the rest
abbrev pub on_argument : (Config → Parsed) → (String → Config → Parsed) → Config → Argument → Parsed
on_argument go wait cfg stop = returned cfg
on_argument go wait cfg bad = exited 2
on_argument go wait cfg (flag name (some value)) = on_set go name (set_flag name value cfg)
on_argument go wait cfg (flag name none) = wait name cfg

-- the loop of `flag.Parse`; a flag may wait for its value
unfoldable pub parse_with : Option String → List String → Config → Parsed
unfolding argument set_flag
parse_with none [] cfg = returned cfg
parse_with (some name) [] cfg =
    if is_set (set_flag name "" cfg) then exited 2 else undefined_flag name
parse_with (some name) (value ∷ args) cfg =
    on_set (parse_with none args) name (set_flag name value cfg)
parse_with none (arg ∷ args) cfg =
    on_argument (parse_with none args) (λ name. parse_with (some name) args) cfg (argument arg)

unfoldable pub from_flags : List String → Builder → Parsed
unfolding parse_with
from_flags args b = parse_with none args b.cfg

-- `NewBuilder(log).FromEnv().FromFlags().GetConfig()`
unfoldable pub get_config : (Config → Config × Option Error) → List String → Parsed
unfolding new_builder from_env from_flags
get_config env_parse args = from_flags args (from_env env_parse new_builder)

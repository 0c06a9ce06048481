-- ===== src/Config/Precedence.antt =====
-- Which of the environment, the flags and the defaults of pkg/config/config.go prevails.
use gophkeeper.Base.{
  ◌≡◌, refl, ap, ◌∙◌, String, Bool, true, false, str_eq, if◌then◌else◌, Option, none, some, List,
  [], ◌∷◌,
}
use gophkeeper.Base.Go.{Error}
use gophkeeper.Base.Texts.{pick}
use gophkeeper.Config.{Config, returned, parse_with, get_config, new_builder}

pub data Key : Type 0 where
  run_address database secret log certs : Key

abbrev letter : Key → String
letter run_address = "a"
letter database = "d"
letter secret = "k"
letter log = "l"
letter certs = "c"

-- the environment variable of a field, and its default
abbrev pub variable : Key → String
variable run_address = "RUN_ADDRESS"
variable database = "DATABASE_URI"
variable secret = "SECRET_KEY"
variable log = "LOG_LEVEL"
variable certs = "CERTS_DIR"

abbrev pub default : Key → String
default run_address = "localhost:50051"
default database = ""
default secret = ""
default log = "info"
default certs = "/certs"

abbrev pub field : Key → Config → String
field run_address c = c.run_addr
field database c = c.database_uri
field secret c = c.secret_key
field log c = c.log_level
field certs c = c.certs_dir

-- A flag with its value, as one argument or as two, behind one dash or two.
pub data Given : Type 0 where
  joined joined_long spaced spaced_long : Key → String → Given

abbrev dash : String → String
dash s = String.◌∷◌ (pick "-" 0) s

abbrev with_value : String → String → String
with_value String.[] v = String.◌∷◌ (pick "=" 0) v
with_value (String.◌∷◌ c s) v = String.◌∷◌ c (with_value s v)

unfoldable pub arguments : List Given → List String
unfolding pick
arguments [] = []
arguments (joined k v ∷ gs) = dash (with_value (letter k) v) ∷ arguments gs
arguments (joined_long k v ∷ gs) = dash (dash (with_value (letter k) v)) ∷ arguments gs
arguments (spaced k v ∷ gs) = dash (letter k) ∷ v ∷ arguments gs
arguments (spaced_long k v ∷ gs) = dash (dash (letter k)) ∷ v ∷ arguments gs

abbrev update_field : Key → String → Config → Config
update_field run_address v c = record c { run_addr = v }
update_field database v c = record c { database_uri = v }
update_field secret v c = record c { secret_key = v }
update_field log v c = record c { log_level = v }
update_field certs v c = record c { certs_dir = v }

abbrev key_of : Given → Key
key_of (joined k v) = k
key_of (joined_long k v) = k
key_of (spaced k v) = k
key_of (spaced_long k v) = k

abbrev value_of : Given → String
value_of (joined k v) = v
value_of (joined_long k v) = v
value_of (spaced k v) = v
value_of (spaced_long k v) = v

assigned : List Given → Config → Config
assigned [] c = c
assigned (g ∷ gs) c = assigned gs (update_field (key_of g) (value_of g) c)

one_flag :
    (g : Given) (gs : List Given) (c : Config)
    → parse_with none (arguments (g ∷ gs)) c
      ≡ parse_with none (arguments gs) (update_field (key_of g) (value_of g) c)
unfolding parse_with arguments
one_flag (joined run_address v) gs c = refl
one_flag (joined database v) gs c = refl
one_flag (joined secret v) gs c = refl
one_flag (joined log v) gs c = refl
one_flag (joined certs v) gs c = refl
one_flag (joined_long run_address v) gs c = refl
one_flag (joined_long database v) gs c = refl
one_flag (joined_long secret v) gs c = refl
one_flag (joined_long log v) gs c = refl
one_flag (joined_long certs v) gs c = refl
one_flag (spaced run_address v) gs c = refl
one_flag (spaced database v) gs c = refl
one_flag (spaced secret v) gs c = refl
one_flag (spaced log v) gs c = refl
one_flag (spaced certs v) gs c = refl
one_flag (spaced_long run_address v) gs c = refl
one_flag (spaced_long database v) gs c = refl
one_flag (spaced_long secret v) gs c = refl
one_flag (spaced_long log v) gs c = refl
one_flag (spaced_long certs v) gs c = refl

no_flags : (c : Config) → parse_with none (arguments []) c ≡ returned c
unfolding parse_with arguments
no_flags c = refl

parse_with-arguments :
    (gs : List Given) (c : Config) → parse_with none (arguments gs) c ≡ returned (assigned gs c)
unfolding assigned
parse_with-arguments [] c = no_flags c
parse_with-arguments (g ∷ gs) c =
    one_flag g gs c ∙ parse_with-arguments gs (update_field (key_of g) (value_of g) c)

abbrev same_key : Key → Key → Bool
same_key j k = str_eq (letter j) (letter k)

abbrev pub value_or : Option String → String → String
value_or none d = d
value_or (some v) d = v

abbrev newer : Option String → Option String → Option String
newer none o = o
newer (some v) o = some v

-- the value that the flags give a field: the last one's
unfoldable pub given : Key → List Given → Option String
given k [] = none
given k (g ∷ gs) = newer (given k gs) (if same_key (key_of g) k then some (value_of g) else none)

field-update_field :
    (j k : Key) (v : String) (c : Config)
    → field k (update_field j v c) ≡ (if same_key j k then v else field k c)
field-update_field run_address run_address v c = refl
field-update_field run_address database v c = refl
field-update_field run_address secret v c = refl
field-update_field run_address log v c = refl
field-update_field run_address certs v c = refl
field-update_field database run_address v c = refl
field-update_field database database v c = refl
field-update_field database secret v c = refl
field-update_field database log v c = refl
field-update_field database certs v c = refl
field-update_field secret run_address v c = refl
field-update_field secret database v c = refl
field-update_field secret secret v c = refl
field-update_field secret log v c = refl
field-update_field secret certs v c = refl
field-update_field log run_address v c = refl
field-update_field log database v c = refl
field-update_field log secret v c = refl
field-update_field log log v c = refl
field-update_field log certs v c = refl
field-update_field certs run_address v c = refl
field-update_field certs database v c = refl
field-update_field certs secret v c = refl
field-update_field certs log v c = refl
field-update_field certs certs v c = refl

value_or-newer :
    (o : Option String) (b : Bool) (v d : String)
    → value_or o (if b then v else d) ≡ value_or (newer o (if b then some v else none)) d
value_or-newer none true v d = refl
value_or-newer none false v d = refl
value_or-newer (some w) b v d = refl

field-assigned :
    (k : Key) (gs : List Given) (c : Config)
    → field k (assigned gs c) ≡ value_or (given k gs) (field k c)
unfolding assigned given
field-assigned k [] c = refl
field-assigned k (g ∷ gs) c =
    field-assigned k gs (update_field (key_of g) (value_of g) c)
    ∙ ap (value_or (given k gs)) (field-update_field (key_of g) k (value_of g) c)
    ∙ value_or-newer (given k gs) (same_key (key_of g) k) (value_of g) (field k c)

-- Where the environment library sets every field from its variable or, where that is unset, from
-- its default: with flags of the five names in any form and order, the configuration comes back,
-- and each field has the value of its last flag, else of its variable, else its default.
pub get_config_precedence :
    (vars : String → Option String) (env_parse : Config → Config × Option Error)
    (reads : (c : Config) (k : Key)
      → field k (env_parse c).0 ≡ value_or (vars (variable k)) (default k))
    (gs : List Given)
    → (c : Config) × (get_config env_parse (arguments gs) ≡ returned c)
      × ((k : Key) → field k c ≡ value_or (given k gs) (value_or (vars (variable k)) (default k)))
unfolding get_config
get_config_precedence vars env_parse reads gs =
    let start = (env_parse new_builder.cfg).0 in
    (
      assigned gs start,
      parse_with-arguments gs start,
      λ k. field-assigned k gs start ∙ ap (value_or (given k gs)) (reads new_builder.cfg k),
    )

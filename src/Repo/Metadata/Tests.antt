-- ===== src/Repo/Metadata/Tests.antt =====
-- The metadata theorems on a database of one user.
use gophkeeper.Base.{◌+◌, ◌≡◌, refl, String, Option, some, none, [], ◌∷◌, str_eq, if◌then◌else◌}
use gophkeeper.Base.Go.{Error, new, ok, err, ◌>>=◌}
use gophkeeper.Model
use gophkeeper.Model.{data_type_card, data_type_binary}
use gophkeeper.Database.{Uuid, Database, Server}
use gophkeeper.Repo.Metadata.{put, get}
use gophkeeper.Repo.Metadata.Trip.{get-put_row, put_refuses_binary}

abbrev parse : String → Option Uuid
parse s = if str_eq s "101" then some 101 else some 7

abbrev server : Server
server = record {
  fault = λ k. none;
  gen_random_uuid = λ k. k + 100;
  parse_uuid = parse;
  parse_error = new "invalid UUID";
  uuid_string = λ u. "101";
}

abbrev database : Database
database = record {
  users = record { id = 7; login_hash = 9 ∷ []; password_phc = "phc" } ∷ [];
  refresh_tokens = [];
  objects = [];
  secret_blobs = [];
  chunk_manifest = [];
  now = 10;
  rounds = 0;
}

abbrev card : Model.Metadata
card = record {
  created_at = 0;
  chunk_descriptor = none;
  description = "mine";
  name = "visa";
  user_id = "7";
  data_type = data_type_card;
  id = "";
}

abbrev binary : Model.Metadata
binary = record card { data_type = data_type_binary }

get-put_row_example :
    ((put server card "pg://1" >>= get server) database).0
    ≡ ok (record {
      locator = "pg://1";
      meta = record card { created_at = 10; description = ""; user_id = ""; id = "101" };
    })
get-put_row_example =
    get-put_row server (λ k. refl) card "pg://1" 7 (record { id = 2; name = "DataTypeCard" })
      database refl refl refl refl refl

put_refuses_binary_example :
    (e : Error) × (put server binary "pg://1" database ≡ (err e, record database { rounds = 1 }))
put_refuses_binary_example =
    put_refuses_binary server (λ k. refl) binary "pg://1" 7 database refl refl

-- ===== src/Repo/Sealed/Tests.antt =====
-- `Put` of two bytes on a small database, under a checksum that is the data itself.
use gophkeeper.Base.{◌≡◌, refl, some, none, [], ◌∷◌, arith, ◌+◌, false}
use gophkeeper.Base.Go.{Error, new, Outcome, ok, err, pos, int32, ◌>>=◌}
use gophkeeper.Model
use gophkeeper.Model.{Bytes, data_type_card}
use gophkeeper.Database.{Database, Server, Object}
use gophkeeper.Repo.Sealed.{Upload, put, get, put_loop}
use gophkeeper.Repo.Sealed.Stores.{put_loop_total}
use gophkeeper.Repo.Sealed.Checksum.{put_checksum_dropped}
use gophkeeper.Repo.Sealed.Trip.{get-put}
use gophkeeper.Repo.Sealed.Sizes.{Sized, put_loop-int32}
use gophkeeper.Repo.Sealed.Rows.{put_needs_object}

abbrev server : Server
server = record {
  fault = λ k. none;
  gen_random_uuid = λ k. k + 100;
  parse_uuid = λ s. some 7;
  parse_error = new "invalid UUID";
  uuid_string = λ u. "7";
}

abbrev sum_of : Bytes → Bytes
sum_of b = b

abbrev object : Object
object = record {
  id = 7;
  user_id = 1;
  id_data_type = 2;
  name = "visa";
  description = none;
  storage_locator = "pg://7";
  created_at = 0;
}

abbrev bare : Database
bare = record {
  users = [];
  refresh_tokens = [];
  objects = [];
  secret_blobs = [];
  chunk_manifest = [];
  now = 0;
  rounds = 0;
}

abbrev with_object : Database
with_object = record bare { objects = object ∷ [] }

abbrev meta : Model.Metadata
meta = record {
  created_at = 0;
  chunk_descriptor = none;
  description = "";
  name = "visa";
  user_id = "1";
  data_type = data_type_card;
  id = "7";
}

abbrev bytes : Bytes
bytes = 3 ∷ 4 ∷ []

abbrev upload : Upload
upload = record { tx = record { db = bare; saved = bare; aborted = false }; rest = bytes }

put_loop_total_example :
    (r : Outcome (Unit {0}) × Upload) × (put_loop server sum_of 3 0 (pos 1) 7 bytes upload ≡ some r)
put_loop_total_example =
    put_loop_total server sum_of 3 0 1 7 bytes upload (omega arith) (omega arith)

put_checksum_dropped_example :
    put server sum_of meta bytes (pos 2) (9 ∷ []) with_object
    ≡ (ok "pg://7", record with_object { rounds = 2 })
put_checksum_dropped_example =
    put_checksum_dropped server sum_of meta 3 (4 ∷ []) (9 ∷ []) 7 with_object refl refl refl refl

put_needs_object_example :
    (e : Error) × (put server sum_of meta bytes (pos 2) bytes bare
      ≡ (err e, record bare { rounds = 3 }))
put_needs_object_example =
    put_needs_object server sum_of meta 3 (4 ∷ []) bytes 7 bare (λ k. refl) refl refl refl refl

get-put_example :
    ((put server sum_of meta bytes (pos 2) bytes >>= λ loc. get server loc >>= λ rc. rc.read_all)
      with_object).0
    ≡ ok bytes
get-put_example =
    get-put server sum_of meta 3 (4 ∷ []) bytes 7 object with_object (λ k. refl) refl refl refl refl
      refl refl refl

put_loop-int32_example : Sized 2 upload (put_loop server sum_of 3 0 (int32 2) 7 bytes upload)
put_loop-int32_example =
    put_loop-int32 server sum_of (λ k. refl) 3 3 (4 ∷ []) 7 bytes upload refl (omega arith)

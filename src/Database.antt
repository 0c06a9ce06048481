-- ===== src/Database.antt =====
-- The tables of sql/migrations as internal/repo/db/internal/sqlc/models.go reads them, and the
-- server that holds them. A UUID is the number of its 16 bytes, a time counts nanoseconds.
-- Columns that no statement reads (the identity of refresh_tokens) are left out.
pub mod Tables
use gophkeeper.Base.{
  ℕ, ◌+◌, ◌*◌, ◌^◌, String, Bool, false, ◌||◌, Option, none, some, List, [], ◌∷◌, if◌then◌else◌,
}
use gophkeeper.Base.Go.{Error, Outcome, err, Prog, ℤ}
use gophkeeper.Model.{Bytes}

abbrev pub Uuid : Type 0
Uuid = ℕ

pub record UserRow : Type 0 where
  pub id : Uuid
  pub login_hash : Bytes
  pub password_phc : String

pub record RefreshToken : Type 0 where
  pub user_id : Uuid
  pub token_hash : Bytes
  pub expires_at : ℕ

pub record DataTypeRow : Type 0 where
  pub id : ℕ
  pub name : String

-- A nullable column is an option.
pub record Object : Type 0 where
  pub id : Uuid
  pub user_id : Uuid
  pub id_data_type : ℕ
  pub name : String
  pub description : Option String
  pub storage_locator : String
  pub created_at : ℕ

pub record SecretBlob : Type 0 where
  pub id : Uuid
  pub objects_id : Uuid
  pub sealed : Bytes

pub record ChunkManifest : Type 0 where
  pub objects_id : Uuid
  pub blob_id : Uuid
  pub chunk_index : ℤ
  pub length : ℤ

-- `rounds` counts the statements that the server was sent.
pub record Database : Type 0 where
  pub users : List UserRow
  pub refresh_tokens : List RefreshToken
  pub objects : List Object
  pub secret_blobs : List SecretBlob
  pub chunk_manifest : List ChunkManifest
  pub now : ℕ
  pub rounds : ℕ

-- sql/migrations/00002_data_types.up.sql; no statement changes the table
abbrev pub data_types : List DataTypeRow
data_types =
    record { id = 1; name = "DataTypeAuthenticationCredentials" }
    ∷ record { id = 2; name = "DataTypeCard" }
    ∷ record { id = 3; name = "DataTypeBinary" }
    ∷ []

-- What is outside of the repository: the failures of the n-th round trip to the server, the values
-- of `gen_random_uuid()`, and the text form of a UUID in google/uuid and pgtype.
pub record Server : Type 0 where
  pub fault : ℕ → Option Error
  pub gen_random_uuid : ℕ → Uuid
  pub parse_uuid : String → Option Uuid
  pub parse_error : Error
  pub uuid_string : Uuid → String

module _ {ℓ} {A : Type ℓ} where
  abbrev pub filter : (A → Bool) → List A → List A
  filter p [] = []
  filter p (x ∷ xs) = let rest = filter p xs in if p x then x ∷ rest else rest

  abbrev pub any : (A → Bool) → List A → Bool
  any p [] = false
  any p (x ∷ xs) = p x || any p xs

  abbrev pub find : (A → Bool) → List A → Option A
  find p [] = none
  find p (x ∷ xs) = if p x then some x else find p xs

-- `time.Sleep` of so many seconds
abbrev pub sleep : ℕ → Database → Database
sleep k d = record d { now = d.now + k * 10 ^ 9 }

module _ (srv : Server) where
  abbrev pub served :
      {A : Type 0} → Option Error → Prog Database A → Database → Outcome A × Database
  served none statement d = statement d
  served (some e) statement d = (err e, d)

  -- One round trip: the statement runs, or the connection fails before it does.
  abbrev pub round : {A : Type 0} → Prog Database A → Prog Database A
  round statement d = served (srv.fault d.rounds) statement (record d { rounds = d.rounds + 1 })

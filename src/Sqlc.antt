-- ===== src/Sqlc.antt =====
-- internal/repo/db/internal/sqlc: each generated query, as its SQL text (sql/queries) reads over
-- the constraints of sql/migrations. A statement that fails changes nothing.
use gophkeeper.Base.{
  ℕ, suc, String, Bool, true, false, not, ◌&&◌, ◌||◌, Option, none, some, List, [], ◌∷◌, ◌++◌, ltb,
  ◌==◌, str_eq, bytes_eq, if◌then◌else◌,
}
use gophkeeper.Base.Go.{Error, pg, no_rows, ok, err, Prog, fail, from_option, gets, ℤ, pos, negsuc}
use gophkeeper.Model.{Bytes}
use gophkeeper.Database.{
  Uuid, UserRow, RefreshToken, DataTypeRow, Object, SecretBlob, ChunkManifest, Database, Server,
  data_types, filter, any, find, round,
}

-- SQLSTATEs.
abbrev pub not_null_violation : Error
not_null_violation = pg "23502"

abbrev pub foreign_key_violation : Error
foreign_key_violation = pg "23503"

abbrev pub unique_violation : Error
unique_violation = pg "23505"

abbrev pub check_violation : Error
check_violation = pg "23514"

abbrev pub undefined_function : Error
undefined_function = pg "42883"

abbrev pub undefined_table : Error
undefined_table = pg "42P01"

-- A nullable text parameter or column, `pgtype.Text`: not valid is NULL.
pub record Text : Type 0 where
  pub string : String
  pub valid : Bool

abbrev pub text_value : Text → Option String
text_value t = if t.valid then some t.string else none

abbrev pub scan_text : Option String → Text
scan_text none = record { string = ""; valid = false }
scan_text (some s) = record { string = s; valid = true }

abbrev pub has_user : Uuid → Database → Bool
has_user id d = any (λ u. u.id == id) d.users

abbrev pub has_object : Uuid → Database → Bool
has_object id d = any (λ o. o.id == id) d.objects

pub record CreateParams : Type 0 where
  pub login_hash : Bytes
  pub password_phc : String

pub record SaveParams : Type 0 where
  pub user_id : Uuid
  pub token_hash : Bytes
  pub expires_at : ℕ

pub record PutMetadataParams : Type 0 where
  pub user_id : Uuid
  pub data_type_name : String
  pub object_name : String
  pub description : Text
  pub storage_locator : String

-- The rows of GetMetadata and ListByUser have the same columns.
pub record MetadataRow : Type 0 where
  pub id : Uuid
  pub storage_locator : String
  pub data_type_name : String
  pub object_name : String
  pub description : Text
  pub created_at : ℕ

-- the rows of `objects` that a deletion cascades from take their blobs and manifests along
abbrev pub delete_objects : (Object → Bool) → Database → Database
delete_objects gone d =
    let kept = filter (λ o. not (gone o)) d.objects in
    let dead : Uuid → Bool = λ id. any (λ o. gone o && o.id == id) d.objects in
    record d {
      objects = kept;
      secret_blobs = filter (λ b. not (dead b.objects_id)) d.secret_blobs;
      chunk_manifest = filter (λ c. not (dead c.objects_id)) d.chunk_manifest;
    }

abbrev pub type_named : String → Option DataTypeRow
type_named n = find (λ t. str_eq t.name n) data_types

abbrev pub type_of : ℕ → Option DataTypeRow
type_of id = find (λ t. t.id == id) data_types

abbrev pub metadata_row : Object → DataTypeRow → MetadataRow
metadata_row o dt = record {
  id = o.id;
  storage_locator = o.storage_locator;
  data_type_name = dt.name;
  object_name = o.name;
  description = scan_text o.description;
  created_at = o.created_at;
}

abbrev join_type : Object → Option DataTypeRow → Option MetadataRow
join_type o none = none
join_type o (some dt) = some (metadata_row o dt)

abbrev joined : Option Object → Option MetadataRow
joined none = none
joined (some o) = join_type o (type_of o.id_data_type)

abbrev cons_some : {A : Type 0} → Option A → List A → List A
cons_some none xs = xs
cons_some (some x) xs = x ∷ xs

abbrev pub rows_of : Uuid → List Object → List MetadataRow
rows_of user_id [] = []
rows_of user_id (o ∷ os) =
    let rest = rows_of user_id os in
    if o.user_id == user_id then cons_some (joined (some o)) rest else rest

-- ON CONFLICT (token_hash) DO UPDATE
abbrev pub upsert_token : SaveParams → List RefreshToken → List RefreshToken
upsert_token arg [] =
    record { user_id = arg.user_id; token_hash = arg.token_hash; expires_at = arg.expires_at } ∷ []
upsert_token arg (t ∷ ts) =
    if bytes_eq t.token_hash arg.token_hash
    then record t { user_id = arg.user_id; expires_at = arg.expires_at } ∷ ts
    else t ∷ upsert_token arg ts

abbrev int32_eq : ℤ → ℤ → Bool
int32_eq (pos a) (pos b) = a == b
int32_eq (negsuc a) (negsuc b) = a == b
int32_eq _ _ = false

-- CHECK (chunk_index >= 0), CHECK (length > 0)
abbrev pub chunk_checked : ℤ → ℤ → Bool
chunk_checked (pos i) (pos (suc n)) = true
chunk_checked _ _ = false

-- PRIMARY KEY (objects_id, chunk_index), UNIQUE (blob_id)
abbrev pub same_chunk : ChunkManifest → ChunkManifest → Bool
same_chunk arg c =
    (c.objects_id == arg.objects_id && int32_eq c.chunk_index arg.chunk_index)
    || c.blob_id == arg.blob_id

-- FOREIGN KEY (objects_id, blob_id)
abbrev pub owns_blob : ChunkManifest → SecretBlob → Bool
owns_blob arg b = b.objects_id == arg.objects_id && b.id == arg.blob_id

module _ (srv : Server) where
  unfoldable pub create : CreateParams → Prog Database Uuid
  create arg = round srv λ d.
      let id = srv.gen_random_uuid d.rounds in
      if has_user id d || any (λ u. bytes_eq u.login_hash arg.login_hash) d.users
      then (err unique_violation, d)
      else (
        ok id,
        record d {
          users =
              d.users
              ++ record { id = id; login_hash = arg.login_hash; password_phc = arg.password_phc }
                ∷ [];
        },
      )

  unfoldable pub delete_user : Uuid → Prog Database (Unit {0})
  delete_user id = round srv λ d.
      let cut = delete_objects (λ o. o.user_id == id) d in
      (
        ok tt,
        record cut {
          users = filter (λ u. not (u.id == id)) d.users;
          refresh_tokens = filter (λ t. not (t.user_id == id)) d.refresh_tokens;
        },
      )

  -- The text compares by `==`, and there is no such operator on bytea.
  unfoldable pub find_by_login : Bytes → Prog Database UserRow
  find_by_login login_hash = round srv (fail undefined_function)

  unfoldable pub save : SaveParams → Prog Database (Unit {0})
  save arg = round srv λ d.
      if has_user arg.user_id d
      then (ok tt, record d { refresh_tokens = upsert_token arg d.refresh_tokens })
      else (err foreign_key_violation, d)

  abbrev pub live_token : Bytes → Uuid → ℕ → RefreshToken → Bool
  live_token token_hash user_id now t =
      bytes_eq t.token_hash token_hash && (t.user_id == user_id && ltb now t.expires_at)

  unfoldable pub validate : Bytes → Uuid → Prog Database Bool
  validate token_hash user_id =
      round srv (gets (λ d. any (live_token token_hash user_id d.now) d.refresh_tokens))

  unfoldable pub delete_token : Bytes → Prog Database (Unit {0})
  delete_token token_hash = round srv λ d. (
    ok tt,
    record d {
      refresh_tokens = filter (λ t. not (bytes_eq t.token_hash token_hash)) d.refresh_tokens;
    },
  )

  abbrev insert_object : PutMetadataParams → Option DataTypeRow → Prog Database Uuid
  insert_object arg none d = (err not_null_violation, d)
  insert_object arg (some dt) d =
      let id = srv.gen_random_uuid d.rounds in
      if has_object id d
      then (err unique_violation, d)
      else if has_user arg.user_id d
      then (
        ok id,
        record d {
          objects =
              d.objects
              ++ record {
                id = id;
                user_id = arg.user_id;
                id_data_type = dt.id;
                name = arg.object_name;
                description = text_value arg.description;
                storage_locator = arg.storage_locator;
                created_at = d.now;
              }
                ∷ [];
        },
      )
      else (err foreign_key_violation, d)

  -- The subquery for the data type yields NULL where no name fits.
  unfoldable pub put_metadata : PutMetadataParams → Prog Database Uuid
  put_metadata arg = round srv (insert_object arg (type_named arg.data_type_name))

  unfoldable pub get_metadata : Uuid → Prog Database MetadataRow
  get_metadata id = round srv λ d. from_option no_rows (joined (find (λ o. o.id == id) d.objects)) d

  unfoldable pub list_by_user : Uuid → Prog Database (List MetadataRow)
  list_by_user user_id = round srv (gets (λ d. rows_of user_id d.objects))

  abbrev returning : Uuid → Option Object → Prog Database String
  returning id none d = (err no_rows, d)
  returning id (some o) d = (ok o.storage_locator, delete_objects (λ x. x.id == id) d)

  unfoldable pub delete_metadata : Uuid → Prog Database String
  delete_metadata id = round srv λ d. returning id (find (λ o. o.id == id) d.objects) d

  unfoldable pub insert_blob : Uuid → Bytes → Prog Database Uuid
  insert_blob objects_id sealed = round srv λ d.
      let id = srv.gen_random_uuid d.rounds in
      if any (λ b. b.id == id) d.secret_blobs
      then (err unique_violation, d)
      else if has_object objects_id d
      then (
        ok id,
        record d {
          secret_blobs =
              d.secret_blobs ++ record { id = id; objects_id = objects_id; sealed = sealed } ∷ [];
        },
      )
      else (err foreign_key_violation, d)

  unfoldable pub put_manifest : ChunkManifest → Prog Database (Unit {0})
  put_manifest arg = round srv λ d.
      if not (chunk_checked arg.chunk_index arg.length)
      then (err check_violation, d)
      else if any (same_chunk arg) d.chunk_manifest
      then (err unique_violation, d)
      else if any (owns_blob arg) d.secret_blobs
      then (ok tt, record d { chunk_manifest = d.chunk_manifest ++ arg ∷ [] })
      else (err foreign_key_violation, d)

  -- The text reads a column of `cm`, a table that it does not name in a FROM clause.
  unfoldable pub delete_object : String → Prog Database (Unit {0})
  delete_object storage_locator = round srv (fail undefined_table)

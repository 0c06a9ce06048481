-- ===== src/Keeper.antt =====
-- internal/service/server/keeper/keeper.go: the use cases over an object store and a metadata
-- store. A state `S` stands for all that the two stores and the client's stream hold.
pub mod Add
pub mod Delete
pub mod Read
pub mod Sync
pub mod Mocks
mod Tests
use gophkeeper.Base.{
  ℕ, String, Bool, true, false, ◌||◌, Option, none, some, List, [], ◌∷◌, length, ◌==◌, str_eq,
  if◌then◌else◌,
}
use gophkeeper.Base.Go.{
  Error, new, wrap, join₁, join₂, Outcome, ok, err, panic, Prog, pure, fail, map_err, ℤ, int32,
  ◌>>=◌, ◌>>◌,
}
use gophkeeper.Model.{
  Bytes, UserId, DataId, ObjectLocator, DataType, Metadata, MetaLoc, data_type_binary,
  data_type_authentication_credentials, data_type_card,
}
use Prim.Native.String.{◌++◌ as str_append}

abbrev pub msg_empty_user_id : String
msg_empty_user_id = "empty userID"

-- An `io.ReadCloser`, by the two things that the service does with it.
pub record ReadCloser (S : Type 0) : Type 0 where
  pub read_all : Prog S Bytes
  pub close : Prog S (Unit {0})

pub record ObjectRepo (S : Type 0) : Type 0 where
  pub put : Metadata → Bytes → ℤ → Bytes → Prog S ObjectLocator
  pub get : ObjectLocator → Prog S (ReadCloser S)
  pub delete : ObjectLocator → Prog S (Unit {0})

pub record MetadataRepo (S : Type 0) : Type 0 where
  pub put : Metadata → ObjectLocator → Prog S DataId
  pub get : DataId → Prog S MetaLoc
  pub list_by_user : UserId → Prog S (List MetaLoc)
  pub delete : DataId → Prog S ObjectLocator

abbrev pub StreamCallback : Type 0 → Type 0
StreamCallback S = Metadata → Bytes → Prog S (Unit {0})

-- `SyncMode` is an int: other numbers than the two constants can be passed.
abbrev pub SyncMode : Type 0
SyncMode = ℕ

abbrev pub sync_mode_short : SyncMode
sync_mode_short = 1

abbrev pub sync_mode_full : SyncMode
sync_mode_full = 2

abbrev pub supported : DataType → Bool
supported dt =
    str_eq dt data_type_authentication_credentials
    || (str_eq dt data_type_card || str_eq dt data_type_binary)

abbrev pub is_empty : Bytes → Bool
is_empty [] = true
is_empty (b ∷ bs) = false

-- The deferred `err = errors.Join(err, rc.Close())`, which runs after a panic too.
abbrev pub joined_close : {A : Type 0} → Outcome A → Outcome (Unit {0}) → Outcome A
joined_close (ok a) (ok u) = ok a
joined_close (ok a) (err e) = err (join₁ e)
joined_close (err d) (ok u) = err (join₁ d)
joined_close (err d) (err e) = err (join₂ d e)
joined_close (panic p) c = panic p
joined_close r (panic p) = panic p

abbrev pub closed : {S A : Type 0} → Outcome A → Outcome (Unit {0}) × S → Outcome A × S
closed r (c, s) = (joined_close r c, s)

abbrev pub with_close : {S A : Type 0} → Prog S (Unit {0}) → Prog S A → Prog S A
with_close close body s = let (r, s') = body s in closed r (close s')

pub record Service (S : Type 0) : Type 0 where
  pub object_repo : ObjectRepo S
  pub metadata_repo : MetadataRepo S

module _ {S : Type 0} where
  unfoldable pub new_service : ObjectRepo S → MetadataRepo S → Service S
  new_service objects metas = record { object_repo = objects; metadata_repo = metas }

-- `ctx_err s` is `ctx.Err()` once `ctx.Done()` is closed, and `sha256` is `sha256.Sum256`.
module _ {S : Type 0} (sha256 : Bytes → Bytes) (svc : Service S) where
  open svc use {object_repo, metadata_repo}

  -- `errors.Join` where the object could not be taken back either
  abbrev pub rolled_back : Error → Outcome (Unit {0}) × S → Outcome DataId × S
  rolled_back e (ok u, s) = (err (wrap "failed to put metadata to meta repo" e), s)
  rolled_back e (err d, s) = (err (wrap "failed to put metadata to meta repo" (join₂ e d)), s)
  rolled_back e (panic p, s) = (panic p, s)

  abbrev pub recorded : ObjectLocator → Outcome DataId × S → Outcome DataId × S
  recorded loc (ok id, s) = (ok id, s)
  recorded loc (err e, s) = rolled_back e (object_repo.delete loc s)
  recorded loc (panic p, s) = (panic p, s)

  abbrev pub add_checked : UserId → Metadata → Bytes → Prog S DataId
  add_checked user_id meta sealed =
      let owned : Metadata = record meta { user_id = user_id } in
      do
        loc ←
            map_err (wrap "failed to put sealed data to object repo")
              (object_repo.put owned sealed (int32 (length sealed)) (sha256 sealed))
        λ s. recorded loc (metadata_repo.put owned loc s)

  -- The metadata is a pointer: `none` is nil.
  unfoldable pub add_sealed : UserId → Option Metadata → Bytes → Prog S DataId
  add_sealed user_id none sealed =
      if str_eq user_id "" then fail (new msg_empty_user_id) else fail (new "nil metadata")
  add_sealed user_id (some meta) sealed =
      if str_eq user_id ""
      then fail (new msg_empty_user_id)
      else if is_empty sealed
      then fail (new "empty sealed_data")
      else if supported meta.data_type
      then add_checked user_id meta sealed
      else fail (new (str_append "unsupported data type: " meta.data_type))

module _ {S : Type 0} (svc : Service S) where
  open svc use {object_repo, metadata_repo}

  abbrev pub get_sealed_helper : ObjectLocator → Prog S Bytes
  get_sealed_helper loc = do
    rc ← map_err (wrap "objectRepo.Get method failed") (object_repo.get loc)
    with_close rc.close (map_err (wrap "failed to read object") rc.read_all)

  unfoldable pub get_sealed : DataId → StreamCallback S → Prog S (Unit {0})
  get_sealed id cb = if str_eq id "" then fail (new "empty id") else do
    found ← map_err (wrap "failed to get metadata from repo") (metadata_repo.get id)
    sealed ← get_sealed_helper found.locator
    map_err (wrap "callback failed") (cb found.meta sealed)

  pub list : UserId → Prog S (List MetaLoc)
  list user_id =
      if str_eq user_id ""
      then fail (new msg_empty_user_id)
      else map_err (wrap "failed to list metadata from repo") (metadata_repo.list_by_user user_id)

  unfoldable pub delete : DataId → Prog S (Unit {0})
  delete id = if str_eq id "" then fail (new "empty id") else do
    loc ← map_err (wrap "failed to delete metadata") (metadata_repo.delete id)
    map_err (wrap "failed to delete data") (object_repo.delete loc)

  -- the `select` on `ctx.Done()`
  abbrev pub done_error : Option Error → Prog S (Unit {0})
  done_error none = pure tt
  done_error (some e) = fail (wrap "metadata run through failed" e)

  -- one round of the loop: the object is sent, or the mode refused
  abbrev pub sync_one : SyncMode → StreamCallback S → MetaLoc → Prog S (Unit {0})
  sync_one mode cb ml =
      if mode == sync_mode_short
      then (do
        sealed ← get_sealed_helper ml.locator
        map_err (wrap "metadata and data grpc stream write callback failed") (cb ml.meta sealed))
      else if mode == sync_mode_full
      then fail (new "full sync mode isn't implemented yet")
      else fail (new "unknown sync mode")

  unfoldable pub sync_loop :
      (S → Option Error) → SyncMode → StreamCallback S → List MetaLoc → Prog S (Unit {0})
  sync_loop ctx_err mode cb [] = pure tt
  sync_loop ctx_err mode cb (ml ∷ mls) = do
    λ s. done_error (ctx_err s) s
    sync_one mode cb ml
    sync_loop ctx_err mode cb mls

  unfoldable pub sync :
      (S → Option Error) → UserId → SyncMode → StreamCallback S → Prog S (Unit {0})
  sync ctx_err user_id mode cb = if str_eq user_id "" then fail (new msg_empty_user_id) else do
    meta_locs ←
        map_err (wrap "repo.ListMetadata method failed") (metadata_repo.list_by_user user_id)
    sync_loop ctx_err mode cb meta_locs

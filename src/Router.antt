-- ===== src/Router.antt =====
-- internal/repo/router/router.go: a store for each data type, and one for each locator prefix.
pub mod Panics
pub mod UseCases
mod Tests
use Prim.Native.String.{◌++◌}
use text.Mathlib.Text.{starts_with}
use gophkeeper.Base.{ℕ, String, Option, none, some, str_eq, if◌then◌else◌}
use gophkeeper.Base.Go.{Error, new, wrap, Outcome, ok, err, panic, Prog, lift, map_err, ℤ, ◌>>=◌}
use gophkeeper.Model.{Bytes, DataType, ObjectLocator, Metadata, data_type_unspecified}
use gophkeeper.Keeper.{ObjectRepo, ReadCloser}

-- A Go map: a missing key reads as the zero value, here a nil interface. A nil map has no key.
pub record StoreRouter (S : Type 0) : Type 0 where
  pub by_type : DataType → Option (ObjectRepo S)
  pub by_locator_prefix : String → Option (ObjectRepo S)

abbrev pub s3_storage_prefix : String
s3_storage_prefix = "s3"

abbrev pub postgres_storage_prefix : String
postgres_storage_prefix = "pg"

abbrev pub nil_dereference : String
nil_dereference = "invalid memory address or nil pointer dereference"

module _ {S : Type 0} where
  -- `New` leaves `byLocatorPrefix` nil.
  unfoldable pub new_router : (DataType → Option (ObjectRepo S)) → StoreRouter S
  new_router by_type = record { by_type = by_type; by_locator_prefix = λ prefix. none }

  -- a method of a nil interface is called
  abbrev pub call : {A : Type 0} → Option (ObjectRepo S) → (ObjectRepo S → Prog S A) → Prog S A
  call none f s = (panic nil_dereference, s)
  call (some r) f s = f r s

  abbrev pub found_by_type : DataType → Option (ObjectRepo S) → Outcome (ObjectRepo S)
  found_by_type dt (some r) = ok r
  found_by_type dt none = err (new ("failed to find storage for data type " ++ dt))

module _ {S : Type 0} (r : StoreRouter S) where
  unfoldable pub pick_by_type : DataType → Outcome (ObjectRepo S)
  pick_by_type dt =
      if str_eq dt data_type_unspecified
      then err (new "unknown data type")
      else found_by_type dt (r.by_type dt)

  -- The store may be nil: the map is read with no test for the key.
  unfoldable pub pick_by_locator : ObjectLocator → Outcome (Option (ObjectRepo S))
  pick_by_locator loc =
      if starts_with loc s3_storage_prefix
      then ok (r.by_locator_prefix s3_storage_prefix)
      else if starts_with loc postgres_storage_prefix
      then ok (r.by_locator_prefix postgres_storage_prefix)
      else err (new ("failed to find storage for locator " ++ loc))

  unfoldable pub put : Metadata → Bytes → ℤ → Bytes → Prog S ObjectLocator
  unfolding pick_by_type
  put meta rd size sha256 = do
    storage ← lift (pick_by_type meta.data_type)
    map_err (wrap "storage Put") (storage.put meta rd size sha256)

  unfoldable pub get : ObjectLocator → Prog S (ReadCloser S)
  unfolding pick_by_locator
  get loc = do
    storage ← lift (pick_by_locator loc)
    map_err (wrap "storage Get") (call storage (λ o. o.get loc))

  unfoldable pub delete : ObjectLocator → Prog S (Unit {0})
  unfolding pick_by_locator
  delete loc = do
    storage ← lift (pick_by_locator loc)
    map_err (wrap "storage Delete") (call storage (λ o. o.delete loc))

  -- The router as the `ObjectRepo` of the keeper.
  unfoldable pub as_object_repo : ObjectRepo S
  unfolding put get delete
  as_object_repo = record { put = put; get = get; delete = delete }

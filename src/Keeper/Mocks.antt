-- ===== src/Keeper/Mocks.antt =====
-- internal/service/server/keeper/mock_helpers.go: the fake repositories, readers and callbacks on
-- which the keeper's own tests run. None of them changes a state.
pub mod Outcomes
use gophkeeper.Base.{ℕ, String, Bool, ◌||◌, List, none, [], ◌∷◌, str_eq, if◌then◌else◌}
use gophkeeper.Base.Go.{Error, new, eof, Outcome, ok, err, Prog, pure, fail, lift, ℤ}
use gophkeeper.Model.{Bytes, UserId, DataId, ObjectLocator, Metadata, MetaLoc}
use gophkeeper.Keeper.{ReadCloser, ObjectRepo, MetadataRepo, Service, StreamCallback, new_service}

abbrev pub dummy_data_id : DataId
dummy_data_id = "dummyDataID"

abbrev pub dummy_error : String
dummy_error = "error"

-- What `io.ReadAll` makes of a reader whose first Read returns no bytes and this error.
abbrev read_all_from : Error → Outcome Bytes
read_all_from eof = ok []
read_all_from e = err e

abbrev pub break_locator : ObjectLocator
break_locator = "locator://break/object/repo"

-- a metadata of zero values but for its identifier
abbrev pub metadata_with : DataId → Metadata
metadata_with id = record {
  created_at = 0;
  chunk_descriptor = none;
  description = "";
  name = "";
  user_id = "";
  data_type = "";
  id = id;
}

abbrev pub zero_meta_loc : ObjectLocator → MetaLoc
zero_meta_loc loc = record { locator = loc; meta = metadata_with "" }

abbrev found_at : DataId → ObjectLocator → MetaLoc
found_at id loc = record { locator = loc; meta = metadata_with id }

module _ {S : Type 0} where
  abbrev pub fake_ok_read_closer : ReadCloser S
  fake_ok_read_closer = record { read_all = lift (read_all_from eof); close = pure tt }

  abbrev pub fake_read_error_read_closer : ReadCloser S
  fake_read_error_read_closer = record {
    read_all = lift (read_all_from (new "dummy read error"));
    close = pure tt;
  }

  abbrev pub fake_close_error_read_closer : ReadCloser S
  fake_close_error_read_closer = record {
    read_all = lift (read_all_from eof);
    close = fail (new "dummy close error");
  }

  abbrev pub fake_ok_callback : StreamCallback S
  fake_ok_callback m sealed = pure tt

  abbrev pub fake_error_callback : StreamCallback S
  fake_error_callback m sealed = fail (new "callback error")

  -- the object repository
  abbrev pub with_put : Metadata → Bytes → ℤ → Bytes → Prog S ObjectLocator
  with_put meta r size sha256 =
      if str_eq meta.user_id "put-error-user"
      then fail (new "error1")
      else if str_eq meta.user_id "create-and-delete-error-user"
      then pure break_locator
      else pure "dummy/locator"

  abbrev pub with_object_delete : ObjectLocator → Prog S (Unit {0})
  with_object_delete loc = if str_eq loc break_locator then fail (new "error2") else pure tt

  abbrev pub with_object_get : ObjectLocator → Prog S (ReadCloser S)
  with_object_get loc =
      if str_eq loc "brake://read/closer/read"
      then pure fake_read_error_read_closer
      else if str_eq loc "brake://read/closer/close"
      then pure fake_close_error_read_closer
      else if str_eq loc "locator://error"
      then fail (new dummy_error)
      else pure fake_ok_read_closer

  abbrev pub mock_object_repo : ObjectRepo S
  mock_object_repo = record { put = with_put; get = with_object_get; delete = with_object_delete }

  -- the metadata repository
  abbrev pub with_create : Metadata → ObjectLocator → Prog S DataId
  with_create meta loc =
      if str_eq meta.user_id "create-error-user"
        || str_eq meta.user_id "create-and-delete-error-user"
      then fail (new "error3")
      else pure dummy_data_id

  abbrev pub with_metadata_delete : DataId → Prog S ObjectLocator
  with_metadata_delete id =
      if str_eq id "break-metadataRepo"
      then fail (new dummy_error)
      else if str_eq id "break-objectRepo"
      then pure break_locator
      else pure "locator://dummy"

  abbrev pub with_metadata_get : DataId → Prog S MetaLoc
  with_metadata_get id =
      if str_eq id "metadata-repo-error-user"
      then fail (new dummy_error)
      else if str_eq id "brake-object-repo-get"
      then pure (found_at id "locator://error")
      else if str_eq id "brake-read"
      then pure (found_at id "brake://read/closer/read")
      else if str_eq id "brake-close"
      then pure (found_at id "brake://read/closer/close")
      else pure (found_at id "locator://ok")

  abbrev pub with_list_by_user : UserId → Prog S (List MetaLoc)
  with_list_by_user user_id =
      if str_eq user_id "ok-user"
      then pure (zero_meta_loc "" ∷ zero_meta_loc "" ∷ [])
      else if str_eq user_id "brake-object-repo-get"
      then pure (zero_meta_loc "locator://error" ∷ [])
      else fail (new dummy_error)

  abbrev pub mock_metadata_repo : MetadataRepo S
  mock_metadata_repo = record {
    put = with_create;
    get = with_metadata_get;
    list_by_user = with_list_by_user;
    delete = with_metadata_delete;
  }

  abbrev pub mock_service : Service S
  mock_service = record { object_repo = mock_object_repo; metadata_repo = mock_metadata_repo }

-- ===== src/Api/Fakes/Mocks.antt =====
-- internal/api/v1/mock_helpers.go: the fake user repository, session manager and keeper use case on
-- which the handlers' own tests run. None of them changes a state of its own.
use Prim.Native.String.{◌++◌}
use gophkeeper.Base.{
  ℕ, String, ◌||◌, bytes_eq, Option, none, List, [], ◌∷◌, str_eq, ◌==◌, if◌then◌else◌,
}
use gophkeeper.Base.Go.{new, wrap, not_found, Prog, pure, fail, lift, map_err, ◌>>=◌}
use gophkeeper.Base.Texts.{itoa}
use gophkeeper.Base.Utf8.{to_bytes}
use gophkeeper.Hash.{Crypto}
use gophkeeper.Keeper.{StreamCallback, SyncMode, sync_mode_short, sync_mode_full}
use gophkeeper.Model.{
  Bytes, UserId, User, DataId, ObjectLocator, Metadata, MetaLoc, data_type_unspecified,
}
use gophkeeper.Repo.Users.{UserRepository}
use gophkeeper.Api.Fakes.{
  msg_expected_error, key_db_fail, key_dummy_user_id, dummy_id, key_session_fail,
  fixture_login_db_fail, fixture_login_new_user, fixture_login_not_found,
  fixture_login_create_failed, fixture_login_session_fail, fixture_login_session_fail_register,
  fixture_login_already_exists, fixture_phc,
}
use gophkeeper.Api.KeeperService.{KeeperUseCase}

-- `string_of` is the conversion of bytes to a `model.UserID`.
module _ {S : Type 0} (crypto : Crypto S) (string_of : Bytes → String) where
  abbrev nobody : User
  nobody = record { password_phc = ""; login_hash = [] }

  -- a user of the tests with the password of the fixture
  abbrev fixture_user : UserId → Bytes → Prog S (UserId × User)
  fixture_user user_id login_hash = do
    phc ← lift (fixture_phc crypto)
    pure (user_id, record { login_hash = login_hash; password_phc = phc })

  unfoldable pub with_find_by_login : Bytes → Prog S (UserId × User)
  with_find_by_login login_hash =
      if bytes_eq login_hash (fixture_login_db_fail crypto)
      then fail (new "db error")
      else if bytes_eq login_hash (fixture_login_new_user crypto)
          || (bytes_eq login_hash (fixture_login_not_found crypto)
              || bytes_eq login_hash (fixture_login_create_failed crypto))
      then fail not_found
      else if bytes_eq login_hash (fixture_login_already_exists crypto)
      then pure ("", nobody)
      else if bytes_eq login_hash (fixture_login_session_fail crypto)
      then fixture_user key_session_fail login_hash
      else if bytes_eq login_hash (fixture_login_session_fail_register crypto)
      then fail not_found
      else fixture_user key_dummy_user_id login_hash

  unfoldable pub with_create : User → Prog S UserId
  with_create u =
      if bytes_eq u.login_hash (fixture_login_create_failed crypto)
      then fail (new "user create failed")
      else if bytes_eq u.login_hash (fixture_login_session_fail_register crypto)
      then pure key_session_fail
      else pure (string_of u.login_hash)

  abbrev pub with_user_delete : UserId → Prog S (Unit {0})
  with_user_delete uuid =
      if str_eq uuid key_db_fail
      then fail (new "db error")
      else if str_eq uuid "not-found"
      then fail not_found
      else pure tt

  unfoldable pub mock_repo : UserRepository S
  unfolding with_find_by_login with_create
  mock_repo = record {
    create = with_create;
    find_by_login = with_find_by_login;
    delete = with_user_delete;
  }

module _ {S : Type 0} where
  unfoldable pub with_create_session : UserId → Prog S (String × Bytes)
  unfolding to_bytes
  with_create_session user_id =
      if str_eq user_id key_dummy_user_id
      then pure ("valid-jwt", to_bytes "valid-refresh")
      else if str_eq user_id key_session_fail
      then fail (new "create session error")
      else pure ("valid-jwt", to_bytes "valid-refresh")

  unfoldable pub with_revoke_session : Bytes → Prog S (Unit {0})
  unfolding to_bytes
  with_revoke_session refresh_token =
      if bytes_eq refresh_token (to_bytes "revoke-fail")
      then fail (new "revoke failed")
      else pure tt

  abbrev pub with_add_sealed : UserId → Option Metadata → Bytes → Prog S DataId
  with_add_sealed user_id meta sealed =
      if str_eq user_id "error" then fail (new msg_expected_error) else pure dummy_id

  abbrev pub with_use_case_delete : DataId → Prog S (Unit {0})
  with_use_case_delete id =
      if str_eq id "brake-delete" then fail (new msg_expected_error) else pure tt

-- `dummy_time` is what `time.Parse(time.RFC3339, time.RFC3339)` returns beside its error.
module _ (dummy_time : ℕ) where
  abbrev dummy_metadata : String → String → Metadata
  dummy_metadata name description = record {
    created_at = dummy_time;
    chunk_descriptor = none;
    description = description;
    name = name;
    user_id = "";
    data_type = data_type_unspecified;
    id = dummy_id;
  }

  abbrev located : ObjectLocator → String → MetaLoc
  located loc name = record { locator = loc; meta = dummy_metadata name "" }

  module _ {S : Type 0} where
    unfoldable pub with_get_sealed : DataId → StreamCallback S → Prog S (Unit {0})
    unfolding to_bytes
    with_get_sealed id callback =
        if str_eq id "brake-get"
        then fail (new msg_expected_error)
        else map_err (wrap "callback failed") (
            callback (dummy_metadata "dummy name" "dummy description")
              (to_bytes "dummy secret bytes"))

    unfoldable pub with_list : UserId → Prog S (List MetaLoc)
    with_list user_id =
        if str_eq user_id "error"
        then fail (new msg_expected_error)
        else if str_eq user_id "no-data"
        then pure []
        else if str_eq user_id "single-data"
        then pure (located "pg:/single-data/data1" "data1" ∷ [])
        else if str_eq user_id "multiple-data"
        then pure (
            located "pg://multiple-data/data1" "data1"
            ∷ located "s3://multiple-data/data2" "data2"
            ∷ [])
        else fail (new ("no such user: " ++ user_id))

    -- the number of the mode in the message, for modes below 10 ^ 20
    unfoldable pub with_sync : UserId → SyncMode → StreamCallback S → Prog S (Unit {0})
    unfolding to_bytes itoa
    with_sync user_id mode callback =
        let metadata = dummy_metadata "dummy name" "dummy description" in
        if str_eq user_id "error"
        then fail (new msg_expected_error)
        else if mode == sync_mode_short
        then map_err (wrap "callback failed") (callback metadata [])
        else if mode == sync_mode_full
        then map_err (wrap "callback failed") (callback metadata (to_bytes "dummy secret bytes"))
        else fail (new ("unknown  sync mode: " ++ itoa 20 mode))

    unfoldable pub mock_use_case : KeeperUseCase S
    unfolding with_get_sealed with_list with_sync
    mock_use_case = record {
      add_sealed = with_add_sealed;
      delete = with_use_case_delete;
      get_sealed = with_get_sealed;
      list = with_list;
      sync = with_sync;
    }

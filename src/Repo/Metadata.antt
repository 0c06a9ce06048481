-- ===== src/Repo/Metadata.antt =====
-- internal/repo/db/metadata_repo.go
pub mod Trip
mod Tests
use gophkeeper.Base.{false, none, List, map}
use gophkeeper.Base.Go.{wrap, Prog, pure, lift, map_err, ◌>>=◌}
use gophkeeper.Model
use gophkeeper.Model.{DataId, UserId, ObjectLocator, MetaLoc}
use gophkeeper.Database.{Database, Server, sleep}
use gophkeeper.Sqlc
use gophkeeper.Sqlc.{MetadataRow}
use gophkeeper.Retry.{with_retry}
use gophkeeper.Keeper.{MetadataRepo}
use gophkeeper.Repo.{to_pg_uuid, msg_wrong_user_id}

module _ (srv : Server) where
  -- a row as a metadata, whose owner and chunk descriptor stay empty
  abbrev pub meta_loc : MetadataRow → MetaLoc
  meta_loc row = record {
    locator = row.storage_locator;
    meta = record {
      created_at = row.created_at;
      chunk_descriptor = none;
      description = row.description.string;
      name = row.object_name;
      user_id = "";
      data_type = row.data_type_name;
      id = srv.uuid_string row.id;
    };
  }

  -- The description is a `pgtype.Text` whose `Valid` is left false.
  abbrev pub put_logic : Model.Metadata → ObjectLocator → Prog Database DataId
  put_logic meta loc = do
    user_uuid ← map_err (wrap msg_wrong_user_id) (lift (to_pg_uuid srv meta.user_id))
    data_id ← map_err (wrap "queries.PutMetadata failed") (
        Sqlc.put_metadata srv (record {
          user_id = user_uuid;
          data_type_name = meta.data_type;
          object_name = meta.name;
          description = record { string = meta.description; valid = false };
          storage_locator = loc;
        }))
    pure (srv.uuid_string data_id)

  unfoldable pub put : Model.Metadata → ObjectLocator → Prog Database DataId
  unfolding with_retry
  put meta loc = with_retry sleep (put_logic meta loc) 0

  abbrev pub get_logic : DataId → Prog Database MetadataRow
  get_logic id = do
    data_uuid ← map_err (wrap "wrong dataID format") (lift (to_pg_uuid srv id))
    map_err (wrap "queries.GetMetadata failed") (Sqlc.get_metadata srv data_uuid)

  unfoldable pub get : DataId → Prog Database MetaLoc
  unfolding with_retry
  get id = do row ← with_retry sleep (get_logic id) 0; pure (meta_loc row)

  abbrev pub list_logic : UserId → Prog Database (List MetadataRow)
  list_logic user_id = do
    user_uuid ← map_err (wrap msg_wrong_user_id) (lift (to_pg_uuid srv user_id))
    map_err (wrap "queries.ListByUser failed") (Sqlc.list_by_user srv user_uuid)

  unfoldable pub list_by_user : UserId → Prog Database (List MetaLoc)
  unfolding with_retry
  list_by_user user_id = do rows ← with_retry sleep (list_logic user_id) 0; pure (map meta_loc rows)

  abbrev pub delete_logic : DataId → Prog Database ObjectLocator
  delete_logic id = do
    data_uuid ← map_err (wrap "wrong dataID format") (lift (to_pg_uuid srv id))
    map_err (wrap "queries.Delete failed") (Sqlc.delete_metadata srv data_uuid)

  unfoldable pub delete : DataId → Prog Database ObjectLocator
  unfolding with_retry
  delete id = with_retry sleep (delete_logic id) 0

  unfoldable pub as_metadata_repo : MetadataRepo Database
  unfolding put get list_by_user delete
  as_metadata_repo = record { put = put; get = get; list_by_user = list_by_user; delete = delete }

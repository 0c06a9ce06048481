-- ===== src/Repo/Users.antt =====
-- internal/repo/db/user_repo.go, and the interface that the handlers take it by.
use gophkeeper.Base.{[]}
use gophkeeper.Base.Go.{wrap, Prog, pure, lift, map_err, ◌>>=◌}
use gophkeeper.Model.{Bytes, UserId, User}
use gophkeeper.Database.{Database, Server, sleep}
use gophkeeper.Sqlc
use gophkeeper.Retry.{with_retry}
use gophkeeper.Repo.{to_pg_uuid}

pub record UserRepository (S : Type 0) : Type 0 where
  pub create : User → Prog S UserId
  pub find_by_login : Bytes → Prog S (UserId × User)
  pub delete : UserId → Prog S (Unit {0})

module _ (srv : Server) where
  unfoldable pub create : User → Prog Database UserId
  unfolding with_retry
  create u =
      with_retry sleep
        (do
          user_id ← map_err (wrap "queries.Create failed") (
              Sqlc.create srv (record { login_hash = u.login_hash; password_phc = u.password_phc }))
          pure (srv.uuid_string user_id))
        0

  -- The login hash of the user that is found stays empty.
  unfoldable pub find_by_login : Bytes → Prog Database (UserId × User)
  unfolding with_retry
  find_by_login login_hash =
      with_retry sleep
        (do
          found ← map_err (wrap "queries.FindByLogin failed") (Sqlc.find_by_login srv login_hash)
          pure (
            srv.uuid_string found.id,
            record { password_phc = found.password_phc; login_hash = [] },
          ))
        0

  unfoldable pub delete : UserId → Prog Database (Unit {0})
  unfolding with_retry
  delete uuid =
      with_retry sleep
        (do
          pg_id ← map_err (wrap "wrong userID format") (lift (to_pg_uuid srv uuid))
          map_err (wrap "queries.Delete failed") (Sqlc.delete_user srv pg_id))
        0

  unfoldable pub as_user_repository : UserRepository Database
  unfolding create find_by_login delete
  as_user_repository = record { create = create; find_by_login = find_by_login; delete = delete }

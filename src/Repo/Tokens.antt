-- ===== src/Repo/Tokens.antt =====
-- internal/repo/db/token_repo.go
pub mod Unique
pub mod Life
pub mod Map
pub mod Refinement
mod Tests
use gophkeeper.Base.{ℕ, not}
use gophkeeper.Base.Go.{new, wrap, Prog, lift, map_err, reject_if, ◌>>=◌}
use gophkeeper.Model.{Bytes, UserId}
use gophkeeper.Database.{Database, Server, sleep}
use gophkeeper.Sqlc
use gophkeeper.Retry.{with_retry}
use gophkeeper.Session.{RefreshTokenStorage}
use gophkeeper.Repo.{to_pg_uuid, msg_wrong_user_id}

module _ (srv : Server) where
  abbrev pub save_logic : Bytes → UserId → ℕ → Prog Database (Unit {0})
  save_logic token_hash user_id expires_at = do
    user_uuid ← map_err (wrap msg_wrong_user_id) (lift (to_pg_uuid srv user_id))
    map_err (wrap "queries.Save failed") (
        Sqlc.save srv
          (record { user_id = user_uuid; token_hash = token_hash; expires_at = expires_at }))

  unfoldable pub save : Bytes → UserId → ℕ → Prog Database (Unit {0})
  unfolding with_retry
  save token_hash user_id expires_at = with_retry sleep (save_logic token_hash user_id expires_at) 0

  abbrev pub validate_logic : Bytes → UserId → Prog Database (Unit {0})
  validate_logic token_hash user_id = do
    user_uuid ← map_err (wrap msg_wrong_user_id) (lift (to_pg_uuid srv user_id))
    found ← map_err (wrap "queries.Validate failed") (Sqlc.validate srv token_hash user_uuid)
    reject_if (not found) (new "invalid token")

  unfoldable pub validate : Bytes → UserId → Prog Database (Unit {0})
  unfolding with_retry
  validate token_hash user_id = with_retry sleep (validate_logic token_hash user_id) 0

  abbrev pub delete_logic : Bytes → Prog Database (Unit {0})
  delete_logic token_hash =
      map_err (wrap "queries.Delete failed") (Sqlc.delete_token srv token_hash)

  unfoldable pub delete : Bytes → Prog Database (Unit {0})
  unfolding with_retry
  delete token_hash = with_retry sleep (delete_logic token_hash) 0

  unfoldable pub as_storage : RefreshTokenStorage Database
  unfolding save validate delete
  as_storage = record { save = save; validate = validate; delete = delete }

-- ===== src/Session/Mocks.antt =====
-- pkg/session/mock_helpers.go: the fake storage of refresh tokens on which the sessions' own tests
-- run. It changes no state.
use gophkeeper.Base.{ℕ, bytes_eq, str_eq, if◌then◌else◌}
use gophkeeper.Base.Go.{new, Prog, pure, fail}
use gophkeeper.Base.Utf8.{to_bytes}
use gophkeeper.Model.{Bytes, UserId}
use gophkeeper.Session.{RefreshTokenStorage}

module _ {S : Type 0} where
  abbrev pub with_save : Bytes → UserId → ℕ → Prog S (Unit {0})
  with_save token_hash user_id expires_at =
      if str_eq user_id "save-fail" then fail (new "save error") else pure tt

  abbrev pub with_validate : Bytes → UserId → Prog S (Unit {0})
  with_validate token_hash user_id =
      if str_eq user_id "validate-fail" then fail (new "validate error") else pure tt

  unfoldable pub with_delete : Bytes → Prog S (Unit {0})
  unfolding to_bytes
  with_delete token_hash =
      if bytes_eq token_hash (to_bytes "delete-fail") then fail (new "delete error") else pure tt

  unfoldable pub mock_storage : RefreshTokenStorage S
  unfolding with_delete
  mock_storage = record { save = with_save; validate = with_validate; delete = with_delete }

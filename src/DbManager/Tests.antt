-- ===== src/DbManager/Tests.antt =====
-- The manager's theorems with drivers that count what they are asked.
use gophkeeper.Base.{ℕ, ◌+◌, ◌≡◌, ◌↔◌, Option, none, String}
use gophkeeper.Base.Go.{Error, new, no_change, ok, err, pure, ◌>>◌}
use gophkeeper.DbManager.{
  UpCloser, Drivers, fluent_new, new_manager, fluent_connect, fluent_apply_migrations, fluent_ping,
  connect, apply_migrations, ping, migrated,
}
use gophkeeper.DbManager.Chain.{returned, fluent_chain, IsClean, migrated_lem}

abbrev unclosed : Option Error
unclosed = none

abbrev unchanged : UpCloser ℕ
unchanged = record { up = λ n. (err no_change, n + 1); close = λ n. ((none, none), n + 1) }

abbrev drivers : Drivers ℕ String String String ℕ
drivers = record {
  iofs_new = λ fs. ok fs;
  new_with_source_instance = λ source dsn. pure unchanged;
  parse_config = λ dsn. ok dsn;
  new_with_config = λ cfg n. (ok 5, n + 1);
  pool_ping = λ pool n. (err (new "refused"), n + 1);
  pool_close = λ pool n. n + 1;
}

fluent_chain_example :
    returned drivers (
      (fluent_connect drivers >> fluent_apply_migrations drivers >> fluent_ping drivers)
        (fluent_new drivers "postgres://" "migrations" 0))
    ≡ (connect drivers >> apply_migrations drivers >> ping drivers)
        (new_manager "postgres://" "migrations" 0)
fluent_chain_example = fluent_chain drivers "postgres://" "migrations" 0

migrated_lem_example :
    ((migrated unchanged 0).1 ≡ 2)
    × ((migrated unchanged 0).0 ≡ ok tt
        ↔ IsClean (err no_change) × (unclosed ≡ none) × (unclosed ≡ none))
migrated_lem_example = migrated_lem unchanged 0

-- ===== src/Command.antt =====
-- cmd/server/main.go: the server's process, from its configuration to its end.
pub mod Closing
mod Tests
use gophkeeper.Base.{ℕ, String, Option, none, some, List}
use gophkeeper.Base.Go.{Error, wrap, Outcome, ok, err, panic, Prog, mapped, ◌>>◌}
use gophkeeper.Config
use gophkeeper.Config.{Config, Parsed, returned, exited, get_config}
use gophkeeper.Database.{Database}
use gophkeeper.DbManager
use gophkeeper.DbManager.{
  Drivers, Manager, fluent_new, fluent_connect, fluent_apply_migrations, fluent_ping, get_pool,
}
use gophkeeper.DbManager.Chain
use gophkeeper.Api.Server.{Outside, Server, Pool, setup, new_server}

-- How `run` comes back, or the process exits on its own.
pub data Exit : Type 0 where
  not_connected not_set_up not_stopped stopped : Exit
  exit_code : ℕ → Exit
  crashed : String → Exit
  -- by the panic of another goroutine, which runs no deferred call of `run`
  killed : String → Exit

-- While the server serves, either a signal comes, or a handler panics.
pub data Served (S : Type 0) : Type 0 where
  signalled : S → Served S
  died : String → S → Served S

-- `serving` is what goes on from the start of Serve, and `stop` is Stop with a context
-- of five seconds; both work on what the drivers work on. A failure of Serve is only logged.
pub record Life (S Certificate : Type 0) : Type 0 where
  pub serving : Server Certificate → S → Served S
  pub stop : Server Certificate → Prog S (Unit {0})

module _ {S Fs Source PoolConfig : Type 0} (drivers : Drivers S Fs Source PoolConfig Pool)
    (migrations : Fs) where
  unfoldable pub db_connect : String → S → Outcome (Unit {0}) × Manager S Fs Pool
  unfolding fluent_new fluent_connect fluent_apply_migrations fluent_ping
  db_connect dsn s = mapped (wrap "DBManager init") (
      Chain.returned drivers (
        (fluent_connect drivers >> fluent_apply_migrations drivers >> fluent_ping drivers)
          (fluent_new drivers dsn migrations s)))

  module _ {Certificate Listener : Type 0} (out : Outside Certificate Listener)
      (ctx_err : Database → Option Error) (life : Life S Certificate) where
    -- the deferred `dbManager.Close()`
    abbrev pub closing : Exit → Manager S Fs Pool → Exit × S
    closing x m = (x, (DbManager.close drivers m).outside)

    abbrev stop_result : Manager S Fs Pool → Outcome (Unit {0}) × S → Exit × S
    stop_result m (ok u, s) = closing stopped (record m { outside = s })
    stop_result m (err e, s) = closing not_stopped (record m { outside = s })
    stop_result m (panic p, s) = closing (crashed p) (record m { outside = s })

    -- the wait for a signal, then Stop
    abbrev served_result : Manager S Fs Pool → Server Certificate → Served S → Exit × S
    served_result m server (signalled s) = stop_result m (life.stop server s)
    served_result m server (died p s) = (killed p, s)

    abbrev setup_result : Manager S Fs Pool → Outcome (Unit {0}) × Server Certificate → Exit × S
    setup_result m (ok u, server) = served_result m server (life.serving server m.outside)
    setup_result m (err e, server) = closing not_set_up m
    setup_result m (panic p, server) = closing (crashed p) m

    abbrev with_server : Config → Manager S Fs Pool → Exit × S
    with_server cfg m =
        setup_result m
          (setup out ctx_err (new_server cfg (record { get_pool = (get_pool drivers m).0 })))

    abbrev connect_result : Config → Outcome (Unit {0}) × Manager S Fs Pool → Exit × S
    connect_result cfg (ok u, m) = with_server cfg m
    connect_result cfg (err e, m) = (not_connected, m.outside)
    connect_result cfg (panic p, m) = (crashed p, m.outside)

    -- behind the configuration
    unfoldable pub run_with : Config → S → Exit × S
    unfolding db_connect setup get_pool DbManager.close new_server
    run_with cfg s = connect_result cfg (db_connect cfg.database_uri s)

    abbrev configured : Parsed → S → Exit × S
    configured (returned cfg) s = run_with cfg s
    configured (exited code) s = (exit_code code, s)

    unfoldable pub run : (Config → Config × Option Error) → List String → S → Exit × S
    unfolding run_with get_config
    run env_parse args s = configured (get_config env_parse args) s

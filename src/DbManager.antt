-- ===== src/DbManager.antt =====
-- internal/service/server/dbmanager/dbmanager.go: the connection pool and the migrations.
pub mod Chain
mod Tests
use gophkeeper.Base.{String, Bool, true, false, Option, none, some, str_eq, if◌then◌else◌}
use gophkeeper.Base.Go.{
  Error, new, wrap, join₁, join₂, no_change, errors_is, Outcome, ok, err, panic, Prog, pure, fail,
  lift, modify, map_err, ◌>>=◌, ◌>>◌,
}

-- `upCloser`: `Close` returns an error of the source and one of the database.
pub record UpCloser (S : Type 0) : Type 0 where
  pub up : Prog S (Unit {0})
  pub close : S → (Option Error × Option Error) × S

-- golang-migrate and pgxpool: `iofs.New`, `migrate.NewWithSourceInstance`, `pgxpool.ParseConfig`
-- and `NewWithConfig`, and a pool's `Ping` and `Close`.
pub record Drivers (S Fs Source Config Pool : Type 0) : Type 0 where
  pub iofs_new : Fs → Outcome Source
  pub new_with_source_instance : Source → String → Prog S (UpCloser S)
  pub parse_config : String → Outcome Config
  pub new_with_config : Config → Prog S Pool
  pub pool_ping : Pool → Prog S (Unit {0})
  pub pool_close : Pool → S → S

-- `DBManager`, with what it works on; a nil pool is `none`.
pub record Manager (S Fs Pool : Type 0) : Type 0 where
  pub migrations_fs : Fs
  pub pool : Option Pool
  pub dsn : String
  pub outside : S

unfoldable pub new_manager : {S Fs Pool : Type 0} → String → Fs → S → Manager S Fs Pool
new_manager dsn migrations_fs s = record {
  migrations_fs = migrations_fs;
  pool = none;
  dsn = dsn;
  outside = s;
}

abbrev pub is_no_change : Error → Bool
is_no_change no_change = true
is_no_change _ = false

-- `errors.Join(err, errors.New(text))` where the first may be nil
abbrev pub joined : String → Option Error → Outcome (Unit {0}) → Outcome (Unit {0})
joined text none r = r
joined text (some e) (ok u) = err (join₁ (new text))
joined text (some e) (err d) = err (join₂ d (new text))
joined text (some e) (panic p) = panic p

-- the deferred function of ApplyMigrations
abbrev pub deferred : Outcome (Unit {0}) → Option Error × Option Error → Outcome (Unit {0})
deferred r (source_err, db_err) =
    joined "failed to close DB connection used by migrate" db_err
      (joined "failed to close migrations source" source_err r)

-- what `Up` returned, as ApplyMigrations returns it
abbrev pub applied : Outcome (Unit {0}) → Outcome (Unit {0})
applied (ok u) = ok tt
applied (err e) =
    if errors_is is_no_change e then ok tt else err (wrap "failed to apply migrations to the DB" e)
applied (panic p) = panic p

abbrev pub closing :
    {S : Type 0} → Outcome (Unit {0}) → (Option Error × Option Error) × S → Outcome (Unit {0}) × S
closing r (errors, s) = (deferred r errors, s)

-- `Up` and then the deferred `Close`
unfoldable pub migrated : {S : Type 0} → UpCloser S → Prog S (Unit {0})
migrated migrations s = let (r, t) = migrations.up s in closing (applied r) (migrations.close t)

module _ {S Fs Source Config Pool : Type 0} (drivers : Drivers S Fs Source Config Pool) where
  abbrev beside : {A : Type 0} → Manager S Fs Pool → Outcome A × S → Outcome A × Manager S Fs Pool
  beside m (r, s) = (r, record m { outside = s })

  -- code of the drivers, run beside the fields of the manager
  abbrev pub outside : {A : Type 0} → Prog S A → Prog (Manager S Fs Pool) A
  outside p m = beside m (p m.outside)

  unfoldable pub apply_migrations : Prog (Manager S Fs Pool) (Unit {0})
  unfolding migrated
  apply_migrations m =
      outside
        (do
          src_drv ←
              map_err (wrap "failed to return an iofs driver")
                (lift (drivers.iofs_new m.migrations_fs))
          migrations ← map_err (wrap "failed to start migrate") (
              map_err (wrap "failed to get a new migrate instance")
                (drivers.new_with_source_instance src_drv m.dsn))
          migrated migrations)
        m

  abbrev closed : Option Pool → S → S
  closed none s = s
  closed (some p) s = drivers.pool_close p s

  unfoldable pub close : Manager S Fs Pool → Manager S Fs Pool
  close m = record m { outside = closed m.pool m.outside }

  -- The pool is set by the call of NewWithConfig, to nil where it fails.
  abbrev pooled : Manager S Fs Pool → Outcome Pool × S → Outcome (Unit {0}) × Manager S Fs Pool
  pooled m (ok p, s) = (ok tt, record m { pool = some p; outside = s })
  pooled m (err e, s) = (err (wrap "failed to parse DSN" e), record m { pool = none; outside = s })
  pooled m (panic p, s) = (panic p, record m { outside = s })

  unfoldable pub connect : Prog (Manager S Fs Pool) (Unit {0})
  connect m =
      if str_eq m.dsn ""
      then (err (new "failed to connect: dsn is empty"), m)
      else (do
        cfg ← map_err (wrap "failed to parse DSN") (lift (drivers.parse_config m.dsn))
        λ m. pooled m (drivers.new_with_config cfg m.outside))
          m

  abbrev pub pool_of : Option Pool → Outcome Pool
  pool_of none = err (new "pool is nil")
  pool_of (some p) = ok p

  unfoldable pub get_pool : Prog (Manager S Fs Pool) Pool
  get_pool m = (pool_of m.pool, m)

  unfoldable pub ping : Prog (Manager S Fs Pool) (Unit {0})
  ping = do
    pool ← λ m. (pool_of m.pool, m)
    map_err (wrap "failed to ping the DB") (outside (drivers.pool_ping pool))

  -- `Fluent` keeps the first error of its manager's calls.
  pub record Fluent : Type 0 where
    pub m : Manager S Fs Pool
    pub error : Option Error

  abbrev pub noted : Outcome (Unit {0}) × Manager S Fs Pool → Outcome (Unit {0}) × Fluent
  noted (ok u, m) = (ok tt, record { m = m; error = none })
  noted (err e, m) = (ok tt, record { m = m; error = some e })
  noted (panic p, m) = (panic p, record { m = m; error = none })

  -- `if f.err == nil { f.err = … }`
  abbrev pub then_call : Option Error → Prog (Manager S Fs Pool) (Unit {0}) → Prog Fluent (Unit {0})
  then_call none call f = noted (call f.m)
  then_call (some e) call f = (ok tt, f)

  abbrev pub fluently : Prog (Manager S Fs Pool) (Unit {0}) → Prog Fluent (Unit {0})
  fluently call f = then_call f.error call f

  unfoldable pub fluent_new : String → Fs → S → Fluent
  unfolding new_manager
  fluent_new dsn migrations_fs s = record { m = new_manager dsn migrations_fs s; error = none }

  unfoldable pub fluent_connect : Prog Fluent (Unit {0})
  unfolding connect
  fluent_connect = fluently connect

  unfoldable pub fluent_apply_migrations : Prog Fluent (Unit {0})
  unfolding apply_migrations
  fluent_apply_migrations = fluently apply_migrations

  unfoldable pub fluent_ping : Prog Fluent (Unit {0})
  unfolding ping
  fluent_ping = fluently ping

  -- `Result`: the manager, and the error that was kept
  abbrev pub result : Option Error → Outcome (Unit {0})
  result none = ok tt
  result (some e) = err e

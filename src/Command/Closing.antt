-- ===== src/Command/Closing.antt =====
-- When cmd/server/main.go closes the pool of its database manager.
use gophkeeper.Base.{String, ◌≡◌, ◌≢◌, ◌⊎◌, inl, inr, refl, sym, ap, ◌∙◌, Option, none, some}
use gophkeeper.Base.Go.{Error, wrap, Outcome, ok, err, panic, mapped, continue, ◌>>◌}
use gophkeeper.Base.Runs.{ran, unmapped}
use gophkeeper.Command.{
  Exit, not_connected, not_set_up, not_stopped, stopped, crashed, Life, db_connect, run_with,
  connect_result, setup_result, stop_result, Served, signalled, died, killed, served_result,
}
use gophkeeper.Config.{Config}
use gophkeeper.Database.{Database}
use gophkeeper.DbManager
use gophkeeper.DbManager.{
  Drivers, Manager, new_manager, connect, apply_migrations, ping, pool_of, outside,
}
use gophkeeper.DbManager.Chain.{fluent_chain}
use gophkeeper.Api.Server.{Outside, Server, Pool}

module _ {S Fs Source PoolConfig : Type 0} (drivers : Drivers S Fs Source PoolConfig Pool)
    (migrations : Fs) where
  abbrev pub HasPool : Manager S Fs Pool → Type 0
  HasPool m = (pool : Pool) × (m.pool ≡ some pool)

  answered :
      (o : Option Pool) (w m : Manager S Fs Pool)
      → continue
          (λ pool x.
            mapped (wrap "failed to ping the DB") (outside drivers (drivers.pool_ping pool) x))
          (pool_of drivers o, w)
        ≡ (ok tt, m)
      → w.pool ≡ o
      → HasPool m
  answered none w m h e = cc
  answered (some pool) w m h e = (
    pool,
    sym (
          ap (λ (r : Outcome (Unit {0}) × Manager S Fs Pool). r.1.pool)
            (unmapped (λ d. wrap "failed to ping the DB" d)
              (outside drivers (drivers.pool_ping pool) w) h))
        ∙ e,
  )

  ping-HasPool : (w m : Manager S Fs Pool) → ping drivers w ≡ (ok tt, m) → HasPool m
  unfolding ping
  ping-HasPool w m h = answered w.pool w m h refl

  -- a manager that was connected has a pool
  db_connect-HasPool :
      (dsn : String) (s : S) (m : Manager S Fs Pool)
      → db_connect drivers migrations dsn s ≡ (ok tt, m)
      → HasPool m
  unfolding db_connect
  db_connect-HasPool dsn s m h =
      let done = unmapped (λ d. wrap "DBManager init" d) _ h in
      let (u, w, first, last) =
        ran ((connect drivers >> apply_migrations drivers) (new_manager dsn migrations s))
          (λ x. ping drivers) (sym (fluent_chain drivers dsn migrations s) ∙ done) in
      ping-HasPool w m last

  module _ {Certificate Listener : Type 0} (out : Outside Certificate Listener)
      (ctx_err : Database → Option Error) (life : Life S Certificate) where
    -- the last thing that is done is to close this manager's pool
    abbrev ClosesLast : Exit × S → Manager S Fs Pool → Type 0
    ClosesLast r m =
        (x : Exit) × (before : S) × (x ≢ not_connected)
        × (r ≡ (x, (DbManager.close drivers (record m { outside = before })).outside))

    stop_result-ClosesLast :
        (m : Manager S Fs Pool) (r : Outcome (Unit {0}) × S)
        → ClosesLast (stop_result drivers migrations out ctx_err life m r) m
    stop_result-ClosesLast m (ok u, s) = (stopped, s, (λ q. cc), refl)
    stop_result-ClosesLast m (err e, s) = (not_stopped, s, (λ q. cc), refl)
    stop_result-ClosesLast m (panic p, s) = (crashed p, s, (λ q. cc), refl)

    -- a goroutine of the server ended the process
    pub record Killed (r : Exit × S) (m : Manager S Fs Pool) : Type 0 where
      pub server : Server Certificate
      pub message : String
      pub at_death : S
      pub serving : life.serving server m.outside ≡ died message at_death
      pub result : r ≡ (killed message, at_death)

    served_result-Ends :
        (m : Manager S Fs Pool) (server : Server Certificate) (w : Served S)
        → life.serving server m.outside ≡ w
        → let r = served_result drivers migrations out ctx_err life m server w in
          ClosesLast r m ⊎ Killed r m
    served_result-Ends m server (signalled s) q =
        inl (stop_result-ClosesLast m (life.stop server s))
    served_result-Ends m server (died p s) q =
        inr (record { server = server; message = p; at_death = s; serving = q; result = refl })

    setup_result-Ends :
        (m : Manager S Fs Pool) (r : Outcome (Unit {0}) × Server Certificate)
        → let x = setup_result drivers migrations out ctx_err life m r in
          ClosesLast x m ⊎ Killed x m
    setup_result-Ends m (ok u, server) =
        served_result-Ends m server (life.serving server m.outside) refl
    setup_result-Ends m (err e, server) = inl (not_set_up, m.outside, (λ q. cc), refl)
    setup_result-Ends m (panic p, server) = inl (crashed p, m.outside, (λ q. cc), refl)

    -- How a run ends, by what dbConnect returned.
    pub data Finish (r : Exit × S) : Outcome (Unit {0}) × Manager S Fs Pool → Type 0 where
      unconnected :
          {e : Error} {m : Manager S Fs Pool} → r ≡ (not_connected, m.outside) → Finish r (err e, m)
      panicked :
          {p : String} {m : Manager S Fs Pool} → r ≡ (crashed p, m.outside) → Finish r (panic p, m)
      closed :
          {m : Manager S Fs Pool} (pool : Pool) (x : Exit) (before : S)
          → m.pool ≡ some pool
          → x ≢ not_connected
          → r ≡ (x, drivers.pool_close pool before)
          → Finish r (ok tt, m)
      left_open :
          {m : Manager S Fs Pool} (pool : Pool)
          → m.pool ≡ some pool
          → Killed r m
          → Finish r (ok tt, m)

    closed_by :
        (r : Exit × S) (m : Manager S Fs Pool)
        → HasPool m
        → ClosesLast r m ⊎ Killed r m
        → Finish r (ok tt, m)
    unfolding DbManager.close
    closed_by r m (pool, e) (inl (x, before, other, q)) = closed pool x before e other (rw e at q)
    closed_by r m (pool, e) (inr k) = left_open pool e k

    finish :
        (cfg : Config) (c : Outcome (Unit {0}) × Manager S Fs Pool)
        → ((m : Manager S Fs Pool) → c ≡ (ok tt, m) → HasPool m)
        → Finish (connect_result drivers migrations out ctx_err life cfg c) c
    finish cfg (ok u, m) pooled = closed_by _ m (pooled m refl) (setup_result-Ends m _)
    finish cfg (err e, m) pooled = unconnected refl
    finish cfg (panic p, m) pooled = panicked refl

    -- Once dbConnect has returned a manager, that manager has a pool, and closing it is the last
    -- thing of the run on every way out of it: a Setup that fails or panics, a Stop that fails, and
    -- the clean end. Only where a goroutine of the server panics while it serves does the process end
    -- with the pool not closed. Where dbConnect fails, the run ends there and closes nothing, whether a pool was
    -- made before the failure or not.
    pub run_with-Finish :
        (cfg : Config) (s : S)
        → Finish
            (run_with drivers migrations out ctx_err life cfg s)
            (db_connect drivers migrations cfg.database_uri s)
    unfolding run_with
    run_with-Finish cfg s =
        finish cfg (db_connect drivers migrations cfg.database_uri s)
          (λ m h. db_connect-HasPool cfg.database_uri s m h)

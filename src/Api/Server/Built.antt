-- ===== src/Api/Server/Built.antt =====
-- What Setup of internal/api/api.go leaves behind where it succeeds.
use gophkeeper.Base.{◌≡◌, ap, sym, subst, ◌∙◌, Option, some, some-inj}
use gophkeeper.Base.Go.{Error, wrap, Outcome, ok, err, panic, Prog, mapped, continue, modify}
use gophkeeper.Database.{Database}
use gophkeeper.Api.Server.{
  Outside, Server, GrpcServer, Pool, TlsConfig, setup, load_credentials, services,
}

ok-inj : {A : Type 0} {a b : A} → Outcome.ok a ≡ ok b → a ≡ b
ok-inj q = cc

module _ {Certificate Listener : Type 0} (out : Outside Certificate Listener)
    (ctx_err : Database → Option Error) where
  after_creds :
      (s ready : Server Certificate) (pool : Pool) (r : Outcome (TlsConfig Certificate))
      → continue
          (λ creds. modify (λ (x : Server Certificate). record x {
            grpc_server = some (services out ctx_err x.cfg pool creds);
          }))
          (mapped (wrap "failed to load TLS credentials") (r, s))
        ≡ (ok tt, ready)
      → (creds : TlsConfig Certificate) × (ready.grpc_server
          ≡ some (services out ctx_err s.cfg pool creds))
  after_creds s ready pool (ok c) h =
      (c, sym (ap (λ (x : Outcome (Unit {0}) × Server Certificate). x.1.grpc_server) h))
  after_creds s ready pool (err e) h = cc
  after_creds s ready pool (panic m) h = cc

  with_creds : Pool → Prog (Server Certificate) (Unit {0})
  with_creds pool x =
      continue
        (λ creds. modify (λ (y : Server Certificate). record y {
          grpc_server = some (services out ctx_err y.cfg pool creds);
        }))
        (mapped (wrap "failed to load TLS credentials")
          (load_credentials out ctx_err x.cfg.certs_dir, x))

  after_pool :
      (s ready : Server Certificate) (r : Outcome Pool) (pool : Pool)
      → r ≡ ok pool
      → continue with_creds (mapped (wrap "get pgxpool.Pool") (r, s)) ≡ (ok tt, ready)
      → (creds : TlsConfig Certificate) × (ready.grpc_server
          ≡ some (services out ctx_err s.cfg pool creds))
  unfolding with_creds
  after_pool s ready (ok p) pool q h =
      subst
        (λ (x : Pool).
          (creds : TlsConfig Certificate) × (ready.grpc_server
            ≡ some (services out ctx_err s.cfg x creds)))
        (ok-inj q) (after_creds s ready p (load_credentials out ctx_err s.cfg.certs_dir) h)
  after_pool s ready (err e) pool q h = cc
  after_pool s ready (panic m) pool q h = cc

  -- the server is made of the services over its pool
  pub served_by :
      (server ready : Server Certificate) (pool : Pool) (g : GrpcServer Certificate)
      → setup out ctx_err server ≡ (ok tt, ready)
      → server.db_manager.get_pool ≡ ok pool
      → ready.grpc_server ≡ some g
      → (creds : TlsConfig Certificate) × (g ≡ services out ctx_err server.cfg pool creds)
  unfolding setup with_creds
  served_by server ready pool g h q r =
      let (creds, e) = after_pool server ready server.db_manager.get_pool pool q h in
      (creds, some-inj (sym r ∙ e))

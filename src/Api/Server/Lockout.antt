-- ===== src/Api/Server/Lockout.antt =====
-- What a client can reach of the server that Setup of internal/api/api.go puts together.
use gophkeeper.Base.{ℕ, String, ◌≡◌, ◌≢◌, sym, subst, Option, some, List}
use gophkeeper.Base.Go.{Error, Outcome, ok, err, Prog}
use gophkeeper.Config.{Config}
use gophkeeper.Convert.{Timestamps}
use gophkeeper.Database.{Database}
use gophkeeper.Session.{SessionManager}
use gophkeeper.Api.AuthService
use gophkeeper.Api.AuthService.{AuthRequest, TokensResponse}
use gophkeeper.Api.AuthService.OnDatabase.{OtherError, nobody_logs_in}
use gophkeeper.Api.Context.{ContextValue}
use gophkeeper.Api.Interceptor.{Headers, serve_unary}
use gophkeeper.Api.Interceptor.Gate.{
  no_metadata, no_header, refused, crashed, let_in, serve_unary-Gate,
}
use gophkeeper.Api.KeeperService.{AddRequest, MetadataRequest, SyncRequest, StreamResponse}
use gophkeeper.Api.KeeperService.Guards.{no_user, streams_never_authenticated}
use gophkeeper.Api.Server.{
  Outside, Server, GrpcServer, Pool, TlsConfig, setup, services, as_hashing,
}
use gophkeeper.Api.Server.Built.{served_by}
use gophkeeper.Api.Server.Calls.{call_login, call_register, call_add, call_get, call_sync}

-- a handler that never answers so does not behind the interceptor either
unary_never :
    {S Request Response : Type 0} (manager : SessionManager S) (incoming : Option Headers)
    (req : Request) (handler : ContextValue → Request → Prog S Response) (b : Response)
    → ((ctx : ContextValue) (t : S) → (handler ctx req t).0 ≢ ok b)
    → (s : S) → (serve_unary manager incoming req handler s).0 ≢ ok b
unary_never {Request = Request} {Response = Response} manager incoming req handler b never s =
    elim (serve_unary-Gate manager Request Response incoming s) [
      | no_metadata e ends ↦ rw (ends req handler) (λ q. cc)
      | no_header md e h ends ↦ rw (ends req handler) (λ q. cc)
      | refused md value others x t e h q ends ↦ rw (ends req handler) (λ p. cc)
      | crashed md value others m t e h q ends ↦ rw (ends req handler) (λ p. cc)
      | let_in md value others caller t e h q runs ↦ rw (runs req handler) (never _ t)
    ]

module _ {Certificate Listener : Type 0} (out : Outside Certificate Listener)
    (ctx_err : Database → Option Error) where
  module _ (pool : Pool) (faults : (k : ℕ) (e : Error) → pool.fault k ≡ some e → OtherError e)
      (headers : Option Headers) (a : Option AuthRequest) (d : Database)
      (tokens : TokensResponse) where
    abbrev NoTokens : GrpcServer Certificate → Type 0
    NoTokens g =
        ((call_login g out.crypto headers a d).0 ≢ ok tokens)
        × ((call_register g out.crypto headers a d).0 ≢ ok tokens)

    services-NoTokens :
        (cfg : Config) (creds : TlsConfig Certificate)
        → NoTokens (services out ctx_err cfg pool creds)
    unfolding services call_login call_register
    services-NoTokens cfg creds =
        let g = services out ctx_err cfg pool creds in
        let nobody = nobody_logs_in pool faults (as_hashing out.crypto) g.session_manager a in
        (
          unary_never g.session_manager headers a
              (λ ctx r. AuthService.login (as_hashing out.crypto) g.auth r) tokens
              (λ ctx t. (nobody t tokens).0) d,
          unary_never g.session_manager headers a
              (λ ctx r. AuthService.register (as_hashing out.crypto) g.auth r) tokens
              (λ ctx t. (nobody t tokens).1) d,
        )

  -- On the server that Setup built over the PostgreSQL of the migrations, whose faults are not the
  -- sentinel `model.ErrNotFound`, a client is shut out, whatever headers it sends: no Login and no
  -- Register hands out tokens, and Add, Get and Sync of a request that is there answer
  -- Unauthenticated and change nothing.
  pub locked_out :
      (server ready : Server Certificate) (pool : Pool) (g : GrpcServer Certificate)
      (ts : Timestamps) (headers : Option Headers) (error_text : Error → String)
      (answer : Prog Database (Unit {0}))
      (send : StreamResponse ts.Timestamp → Prog Database (Unit {0})) (a : Option AuthRequest)
      (inbox : List (Outcome (AddRequest ts.Timestamp))) (r : MetadataRequest ts.Timestamp)
      (q : SyncRequest) (d : Database) (tokens : TokensResponse)
      → setup out ctx_err server ≡ (ok tt, ready)
      → server.db_manager.get_pool ≡ ok pool
      → ready.grpc_server ≡ some g
      → ((k : ℕ) (e : Error) → pool.fault k ≡ some e → OtherError e)
      → ((call_login g out.crypto headers a d).0 ≢ ok tokens)
        × ((call_register g out.crypto headers a d).0 ≢ ok tokens)
        × (call_add g out.crypto headers ts error_text answer inbox d ≡ (err no_user, d))
        × (call_get g out.crypto headers ts send (some r) d ≡ (err no_user, d))
        × (call_sync g out.crypto headers ts send (some q) d ≡ (err no_user, d))
  unfolding call_add call_get call_sync
  locked_out server ready pool g ts headers error_text answer send a inbox r q d tokens set pooled
        built faults =
      let (creds, e) = served_by out ctx_err server ready pool g set pooled built in
      let (no_login, no_register) =
        subst (NoTokens pool faults headers a d tokens) (sym e)
          (services-NoTokens pool faults headers a d tokens server.cfg creds) in
      let (no_add, no_get, no_sync) =
        streams_never_authenticated ts g.keeper g.session_manager headers error_text answer send
          inbox r q d in
      (no_login, no_register, no_add, no_get, no_sync)

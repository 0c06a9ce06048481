-- ===== src/Api/Server/Calls.antt =====
-- The calls of a client to the server of internal/api/api.go: the unary methods through its
-- interceptor, the streaming ones without it.
use gophkeeper.Base.{String, Option, List}
use gophkeeper.Base.Go.{Error, Outcome, Prog}
use gophkeeper.Convert.{Timestamps, ProtoMetadata}
use gophkeeper.Database.{Database}
use gophkeeper.Hash.{Crypto}
use gophkeeper.Api.AuthService
use gophkeeper.Api.AuthService.{AuthRequest, LogoutRequest, TokensResponse}
use gophkeeper.Api.HealthService
use gophkeeper.Api.Interceptor.{Headers, serve_unary, serve_stream}
use gophkeeper.Api.KeeperService
use gophkeeper.Api.KeeperService.{AddRequest, MetadataRequest, SyncRequest, StreamResponse}
use gophkeeper.Api.Server.{GrpcServer, as_hashing}

module _ {Certificate : Type 0} (g : GrpcServer Certificate) (crypto : Crypto Database)
    (headers : Option Headers) where
  unfoldable pub call_ping : Prog Database (Unit {0})
  unfolding serve_unary HealthService.ping
  call_ping = serve_unary g.session_manager headers tt (λ ctx req. HealthService.ping g.health)

  unfoldable pub call_login : Option AuthRequest → Prog Database TokensResponse
  unfolding serve_unary AuthService.login as_hashing
  call_login req =
      serve_unary g.session_manager headers req
        (λ ctx r. AuthService.login (as_hashing crypto) g.auth r)

  unfoldable pub call_register : Option AuthRequest → Prog Database TokensResponse
  unfolding serve_unary AuthService.register as_hashing
  call_register req =
      serve_unary g.session_manager headers req
        (λ ctx r. AuthService.register (as_hashing crypto) g.auth r)

  unfoldable pub call_logout : Option LogoutRequest → Prog Database (Unit {0})
  unfolding serve_unary AuthService.logout
  call_logout req =
      serve_unary g.session_manager headers req
        (λ ctx r. AuthService.logout (as_hashing crypto) g.auth r)

  module _ (ts : Timestamps) where
    unfoldable pub call_list : Prog Database (List (Option (ProtoMetadata ts.Timestamp)))
    unfolding serve_unary KeeperService.list
    call_list =
        serve_unary g.session_manager headers tt (λ ctx req. KeeperService.list ts g.keeper ctx)

    unfoldable pub call_delete : Option (MetadataRequest ts.Timestamp) → Prog Database (Unit {0})
    unfolding serve_unary KeeperService.delete
    call_delete req = serve_unary g.session_manager headers req (KeeperService.delete ts g.keeper)

    unfoldable pub call_add :
        (Error → String)
        → Prog Database (Unit {0})
        → List (Outcome (AddRequest ts.Timestamp))
        → Prog Database (Unit {0})
    unfolding serve_stream KeeperService.add
    call_add error_text send_and_close inbox =
        serve_stream g.session_manager headers inbox
          (KeeperService.add ts g.keeper error_text send_and_close)

    unfoldable pub call_get :
        (StreamResponse ts.Timestamp → Prog Database (Unit {0}))
        → Option (MetadataRequest ts.Timestamp)
        → Prog Database (Unit {0})
    unfolding serve_stream KeeperService.get
    call_get send req =
        serve_stream g.session_manager headers req (KeeperService.get ts g.keeper send)

    unfoldable pub call_sync :
        (StreamResponse ts.Timestamp → Prog Database (Unit {0}))
        → Option SyncRequest
        → Prog Database (Unit {0})
    unfolding serve_stream KeeperService.sync
    call_sync send req =
        serve_stream g.session_manager headers req (KeeperService.sync ts g.keeper send)

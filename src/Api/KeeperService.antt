-- ===== src/Api/KeeperService.antt =====
-- internal/api/v1/keeper_service.go: the handlers of the Keeper service.
pub mod Guards
pub mod Additions
pub mod Uploads
mod Tests
use gophkeeper.Base.{
  ℕ, String, Bool, true, false, Option, some, List, [], ◌∷◌, map, ◌==◌, if◌then◌else◌,
}
use gophkeeper.Base.Go.{
  canceled, invalid_argument, unauthenticated, internal, Error, status, eof, canceled_context,
  errors_is, Outcome, ok, err, panic, Prog, pure, lift, map_err, from_option, ◌>>=◌, ◌>>◌,
}
use gophkeeper.Model.{Bytes, UserId, DataId, Metadata, MetaLoc}
use gophkeeper.Keeper
use gophkeeper.Keeper.{StreamCallback, SyncMode, Service}
use gophkeeper.Convert.{
  ProtoMetadata, Timestamps, from_proto_metadata, to_proto_metadata, get_id, get_or,
}
use gophkeeper.Api.Context.{
  ContextValue, as_user_id, authenticated, msg_agent_wrong, msg_sync_failed,
}

pub record KeeperUseCase (S : Type 0) : Type 0 where
  pub add_sealed : UserId → Option Metadata → Bytes → Prog S DataId
  pub delete : DataId → Prog S (Unit {0})
  pub get_sealed : DataId → StreamCallback S → Prog S (Unit {0})
  pub list : UserId → Prog S (List MetaLoc)
  pub sync : UserId → SyncMode → StreamCallback S → Prog S (Unit {0})

-- The service of the keeper package as the use case, under a context and a hash function.
unfoldable pub as_use_case :
    {S : Type 0} → (Bytes → Bytes) → (S → Option Error) → Service S → KeeperUseCase S
as_use_case sha256 ctx_err svc = record {
  add_sealed = Keeper.add_sealed sha256 svc;
  delete = Keeper.delete svc;
  get_sealed = Keeper.get_sealed svc;
  list = Keeper.list svc;
  sync = Keeper.sync svc ctx_err;
}

-- The messages of proto/v1/keeper/keeper.pb.go and proto/v1/common/common.pb.go. Nil bytes are
-- `none`.
pub record Payload : Type 0 where
  pub sealed_data : Option Bytes

pub record AddRequest (Timestamp : Type 0) : Type 0 where
  pub metadata : Option (ProtoMetadata Timestamp)
  pub payload : Option Payload

-- GetRequest and DeleteRequest have this one field.
pub record MetadataRequest (Timestamp : Type 0) : Type 0 where
  pub metadata : Option (ProtoMetadata Timestamp)

pub record SyncRequest : Type 0 where
  pub sync_mode : Option ℕ

-- GetResponse and SyncResponse have these fields.
pub record StreamResponse (Timestamp : Type 0) : Type 0 where
  pub metadata : Option (ProtoMetadata Timestamp)
  pub payload : Payload

abbrev pub sync_mode_proto_short : ℕ
sync_mode_proto_short = 1

abbrev pub sync_mode_proto_full : ℕ
sync_mode_proto_full = 2

abbrev pub is_eof : Error → Bool
is_eof eof = true
is_eof _ = false

abbrev pub is_canceled : Error → Bool
is_canceled canceled_context = true
is_canceled _ = false

abbrev pub agent_wrong : Error
agent_wrong = status invalid_argument msg_agent_wrong

-- a nil request
abbrev pub not_nil : {S A : Type 0} → Option A → Prog S A
not_nil o = from_option agent_wrong o

-- `error_text` is `err.Error()`. The results of `stream.Recv` come as a list; after the last one
-- it returns io.EOF.
module _ {Timestamp : Type 0} (error_text : Error → String) where
  abbrev pub recv_failed : Error → Outcome (List (AddRequest Timestamp))
  recv_failed e =
      if errors_is is_eof e
      then ok []
      else if errors_is is_canceled e
      then err (status canceled (error_text e))
      else err agent_wrong

  abbrev pub cons_ok :
      AddRequest Timestamp
      → Outcome (List (AddRequest Timestamp))
      → Outcome (List (AddRequest Timestamp))
  cons_ok req (ok reqs) = ok (req ∷ reqs)
  cons_ok req (err e) = err e
  cons_ok req (panic p) = panic p

  unfoldable pub receive :
      List (Outcome (AddRequest Timestamp)) → Outcome (List (AddRequest Timestamp))
  receive [] = ok []
  receive (ok req ∷ rest) = cons_ok req (receive rest)
  receive (err e ∷ rest) = recv_failed e
  receive (panic p ∷ rest) = panic p

module _ {S : Type 0} (ts : Timestamps) (use_case : KeeperUseCase S) where
  -- one request of the second loop of Add
  unfoldable pub add_one : UserId → AddRequest ts.Timestamp → Prog S (Unit {0})
  add_one user_id req = do
    meta_dto ← not_nil req.metadata
    payload ← not_nil req.payload
    meta ← map_err (λ e. agent_wrong) (lift (from_proto_metadata ts (some meta_dto)))
    sealed_data ← from_option (status invalid_argument "data should be filled") payload.sealed_data
    map_err (λ e. status internal "add failed")
        (use_case.add_sealed user_id (some meta) sealed_data)
    pure tt

  unfoldable pub add_all : UserId → List (AddRequest ts.Timestamp) → Prog S (Unit {0})
  unfolding add_one
  add_all user_id [] = pure tt
  add_all user_id (req ∷ reqs) = do add_one user_id req; add_all user_id reqs

  -- `send_and_close` answers the stream with the empty AddResponse.
  unfoldable pub add :
      (Error → String)
      → Prog S (Unit {0})
      → ContextValue
      → List (Outcome (AddRequest ts.Timestamp))
      → Prog S (Unit {0})
  unfolding receive add_all
  add error_text send_and_close ctx inbox = do
    user_id ← lift (authenticated ctx)
    requests ← lift (receive error_text inbox)
    add_all user_id requests
    send_and_close

  unfoldable pub delete : ContextValue → Option (MetadataRequest ts.Timestamp) → Prog S (Unit {0})
  delete ctx req = do
    r ← not_nil req
    lift (authenticated ctx)
    meta_dto ← not_nil r.metadata
    map_err (λ e. status internal "delete failed") (use_case.delete (get_id (some meta_dto)))

  -- the callback that both streaming handlers pass on
  abbrev pub send_response : (StreamResponse ts.Timestamp → Prog S (Unit {0})) → StreamCallback S
  send_response send m sealed = send (record {
    metadata = to_proto_metadata ts (some m);
    payload = record { sealed_data = some sealed };
  })

  unfoldable pub get :
      (StreamResponse ts.Timestamp → Prog S (Unit {0}))
      → ContextValue
      → Option (MetadataRequest ts.Timestamp)
      → Prog S (Unit {0})
  get send ctx req = do
    r ← not_nil req
    lift (authenticated ctx)
    meta_dto ← not_nil r.metadata
    map_err (λ e. status internal msg_sync_failed)
        (use_case.get_sealed (get_id (some meta_dto)) (send_response send))

  -- An empty user identifier is not refused here.
  unfoldable pub list : ContextValue → Prog S (List (Option (ProtoMetadata ts.Timestamp)))
  list ctx = do
    user_id ← from_option (status unauthenticated msg_agent_wrong) (as_user_id ctx)
    meta_locs ← map_err (λ e. status internal "server internal error") (use_case.list user_id)
    pure (map (λ (ml : MetaLoc). to_proto_metadata ts (some ml.meta)) meta_locs)

  abbrev pub mode_of : ℕ → Outcome SyncMode
  mode_of n =
      if n == sync_mode_proto_short
      then ok Keeper.sync_mode_short
      else if n == sync_mode_proto_full
      then ok Keeper.sync_mode_full
      else err (status invalid_argument "unknown sync mode")

  unfoldable pub sync :
      (StreamResponse ts.Timestamp → Prog S (Unit {0}))
      → ContextValue
      → Option SyncRequest
      → Prog S (Unit {0})
  sync send ctx req = do
    r ← not_nil req
    user_id ← lift (authenticated ctx)
    mode ← lift (mode_of (get_or 0 r.sync_mode))
    map_err (λ e. status internal msg_sync_failed) (use_case.sync user_id mode (send_response send))

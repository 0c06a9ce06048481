-- ===== src/Api/KeeperService/Additions.antt =====
-- What a stream of `Add` requests of internal/api/v1/keeper_service.go asks of the use case.
use gophkeeper.Base.{◌≡◌, some, List, [], ◌∷◌}
use gophkeeper.Base.Go.{ok}
use gophkeeper.Convert.{Timestamps, ProtoMetadata, from_proto_metadata}
use gophkeeper.Model.{Bytes, UserId, DataId, Metadata}
use gophkeeper.Api.KeeperService.{AddRequest, KeeperUseCase}

module _ (ts : Timestamps) where
  abbrev pub Request : Type 0
  Request = AddRequest ts.Timestamp

  -- the request has a metadata message that converts to `m`, and carries the bytes `b`
  pub record Carries (req : Request) (m : Metadata) (b : Bytes) : Type 0 where
    pub message : ProtoMetadata ts.Timestamp
    pub has_message : req.metadata ≡ some message
    pub converts : from_proto_metadata ts (some message) ≡ ok m
    pub has_payload : req.payload ≡ some (record { sealed_data = some b })

  -- One AddSealed of the user for each request, in their order, each of which succeeded.
  pub data Adds {S : Type 0} (use_case : KeeperUseCase S) (u : UserId)
      : S → List Request → S → Type 0 where
    no_more : {s : S} → Adds use_case u s [] s
    one_more :
        {s t w : S} {req : Request} {reqs : List Request} (m : Metadata) (bytes : Bytes)
        (id : DataId)
        → Carries req m bytes
        → use_case.add_sealed u (some m) bytes s ≡ (ok id, t)
        → Adds use_case u t reqs w
        → Adds use_case u s (req ∷ reqs) w

-- ===== src/Api/KeeperService/Tests.antt =====
-- A stream of two requests to the use case over the fakes of the keeper's tests.
use gophkeeper.Base.{ℕ, String, ◌≡◌, refl, none, some, List, [], ◌∷◌}
use gophkeeper.Base.Go.{pos, Error, Outcome, ok, internal, status, err, pure}
use gophkeeper.Convert.{Timestamps, ProtoMetadata, from_proto_metadata}
use gophkeeper.Keeper
use gophkeeper.Keeper.Mocks.{mock_service}
use gophkeeper.Api.Context.{user_id}
use gophkeeper.Api.KeeperService.{AddRequest, KeeperUseCase, as_use_case, add}

abbrev times : Timestamps
times = record { Timestamp = ℕ; as_time = λ t. t; new_timestamp = λ t. t }

abbrev card_message : ProtoMetadata ℕ
card_message = record {
  data_type = some (pos 2);
  id = none;
  name = some "visa";
  description = none;
  created_at = none;
  chunk_descriptor = none;
}

abbrev request : AddRequest ℕ
request = record {
  metadata = some card_message;
  payload = some (record { sealed_data = some (7 ∷ 8 ∷ []) });
}

abbrev inbox : List (Outcome (AddRequest ℕ))
inbox = ok request ∷ ok request ∷ []

abbrev use_case : KeeperUseCase ℕ
use_case = as_use_case (λ b. b) (λ s. none) mock_service

abbrev text : Error → String
text e = ""

added_run : add times use_case text (pure tt) (user_id "alice") inbox 5 ≡ (ok tt, 5)
unfolding add as_use_case from_proto_metadata Keeper.add_sealed
added_run = refl

refused_run :
    add times use_case text (pure tt) (user_id "create-error-user") inbox 5
    ≡ (err (status internal "add failed"), 5)
unfolding add as_use_case from_proto_metadata Keeper.add_sealed
refused_run = refl

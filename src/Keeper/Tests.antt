-- ===== src/Keeper/Tests.antt =====
-- The theorems of the keeper at inputs of its Go tests, over the fakes of mock_helpers.go.
use gophkeeper.Base.{ℕ, ◌≡◌, refl, true, false, Option, none, some, [], ◌∷◌}
use gophkeeper.Base.Go.{Error, new, wrap, join₁, join₂, ok, err}
use gophkeeper.Model.{Bytes, Metadata, data_type_card}
use gophkeeper.Keeper
use gophkeeper.Keeper.{add_sealed, get_sealed, sync_mode_short}
use gophkeeper.Keeper.Add.{AddWay, add_sealed-AddWay}
use gophkeeper.Keeper.Delete.{DeleteWay, delete-DeleteWay}
use gophkeeper.Keeper.Read.{GetWay, get_sealed-GetWay}
use gophkeeper.Keeper.Mocks.{mock_service, dummy_data_id}
use gophkeeper.Keeper.Mocks.Outcomes.{Verdict, callback, verdicts_on_mocks}

abbrev card : Metadata
card = record {
  created_at = 0;
  chunk_descriptor = none;
  description = "mine";
  name = "visa";
  user_id = "";
  data_type = data_type_card;
  id = "";
}

abbrev sum_of : Bytes → Bytes
sum_of b = b

abbrev sealed : Bytes
sealed = 7 ∷ 8 ∷ []

abbrev not_done : ℕ → Option Error
not_done s = none

abbrev start : ℕ
start = 5

added_run :
    add_sealed sum_of mock_service "alice" (some card) sealed start ≡ (ok dummy_data_id, start)
unfolding add_sealed
added_run = refl

left_run :
    add_sealed sum_of mock_service "create-and-delete-error-user" (some card) sealed start ≡ (
      err (wrap "failed to put metadata to meta repo" (join₂ (new "error3") (new "error2"))),
      start,
    )
unfolding add_sealed
left_run = refl

unread_run :
    get_sealed mock_service "brake-read" (callback false) start
    ≡ (err (join₁ (wrap "failed to read object" (new "dummy read error"))), start)
unfolding get_sealed
unread_run = refl

add_sealed-AddWay_example :
    AddWay sum_of mock_service "create-and-delete-error-user" card sealed start
      (add_sealed sum_of mock_service "create-and-delete-error-user" (some card) sealed start)
add_sealed-AddWay_example =
    add_sealed-AddWay {S = ℕ} sum_of mock_service "create-and-delete-error-user" card sealed start

delete-DeleteWay_example :
    DeleteWay mock_service "break-objectRepo" start
      (Keeper.delete mock_service "break-objectRepo" start)
delete-DeleteWay_example = delete-DeleteWay {S = ℕ} mock_service "break-objectRepo" start

get_sealed-GetWay_example :
    GetWay mock_service
      (callback false)
      "brake-close"
      start
      (get_sealed mock_service "brake-close" (callback false) start)
get_sealed-GetWay_example =
    get_sealed-GetWay {S = ℕ} mock_service (callback false) "brake-close" start

verdicts_on_mocks_example :
    Verdict true start (add_sealed sum_of mock_service "put-error-user" (some card) sealed start)
    × Verdict true start (get_sealed mock_service "brake-close" (callback false) start)
    × Verdict true start (Keeper.list mock_service "put-error-user" start)
    × Verdict false start (Keeper.delete mock_service "brake-close" start)
    × Verdict true start
        (Keeper.sync mock_service not_done "put-error-user" sync_mode_short (callback false) start)
verdicts_on_mocks_example =
    verdicts_on_mocks {S = ℕ} sum_of "put-error-user" (some card) sealed "brake-close"
      sync_mode_short false start

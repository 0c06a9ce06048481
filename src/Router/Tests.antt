-- ===== src/Router/Tests.antt =====
-- The router theorems at stores that refuse everything, and at one that keeps an object.
use gophkeeper.Base.{ℕ, ◌≡◌, ◌≢◌, refl, Option, none, some, [], ◌∷◌, arith, eq_iff}
use gophkeeper.Base.Go.{Error, new, ok, panic, pure, fail}
use gophkeeper.Model.{DataType, Metadata, data_type_card}
use gophkeeper.Keeper.{
  ObjectRepo, MetadataRepo, Service, get_sealed, sync, add_sealed, sync_mode_short,
}
use gophkeeper.Router.{new_router, get, put, delete, as_object_repo, nil_dereference}
use gophkeeper.Router.Panics.{get_delete_never_routed}
use gophkeeper.Router.UseCases.{routed_service, reads_send_nothing, roll_back_fails}

abbrev closed_store : ObjectRepo ℕ
closed_store = record {
  put = λ m b n sum. fail (new "closed");
  get = λ loc. fail (new "closed");
  delete = λ loc. fail (new "closed");
}

abbrev by_type : DataType → Option (ObjectRepo ℕ)
by_type dt = some closed_store

abbrev card : Metadata
card = record {
  created_at = 0;
  chunk_descriptor = none;
  description = "";
  name = "visa";
  user_id = "alice";
  data_type = data_type_card;
  id = "";
}

get_delete_never_routed_example :
    (get (new_router by_type) "pg://1" 5 ≡ (panic nil_dereference, 5))
    × (delete (new_router by_type) "pg://1" 5 ≡ (panic nil_dereference, 5))
get_delete_never_routed_example = get_delete_never_routed by_type "pg://1" 5

abbrev not_done : ℕ → Option Error
not_done s = none

-- an object store that keeps an object, before a metadata store that fails
abbrev open_store : ObjectRepo ℕ
open_store = record {
  put = λ m b n sum s. (ok "pg://7", 6);
  get = λ loc. fail (new "unreached");
  delete = λ loc s. (ok tt, 0);
}

abbrev metas : MetadataRepo ℕ
metas = record {
  put = λ m loc. fail (new "no table");
  get = λ id. pure (record { locator = "pg://7"; meta = card });
  list_by_user = λ u. pure (record { locator = "pg://7"; meta = card } ∷ []);
  delete = λ id. pure "pg://7";
}

abbrev keeper : Service ℕ
keeper = routed_service (λ dt. some open_store) metas

reads_send_nothing_example :
    ((get_sealed keeper "1" (λ m b. pure tt) 5).0 ≢ ok tt)
    × (get_sealed keeper "1" (λ m b. pure tt) 5
        ≡ get_sealed keeper "1" (λ m b. fail (new "closed")) 5)
    × (sync keeper not_done "alice" sync_mode_short (λ m b. pure tt) 5
        ≡ sync keeper not_done "alice" sync_mode_short (λ m b. fail (new "closed")) 5)
reads_send_nothing_example =
    reads_send_nothing (λ dt. some open_store) metas not_done sync_mode_short (λ m b. pure tt)
      (λ m b. fail (new "closed")) "1" "alice" 5

roll_back_fails_example :
    add_sealed (λ b. b) keeper "alice" (some card) (7 ∷ []) 5 ≡ (panic nil_dereference, 6)
unfolding put as_object_repo new_router
roll_back_fails_example =
    roll_back_fails (λ dt. some open_store) metas (λ b. b) "alice" card (7 ∷ []) "pg://7"
      (new "no table") 5 6 6
      (record { named = λ p. ground (arith, eq_iff "alice" ""); filled = λ p. cc; typed = refl })
      refl refl

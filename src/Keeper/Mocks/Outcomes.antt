-- ===== src/Keeper/Mocks/Outcomes.antt =====
-- Where the use cases of internal/service/server/keeper/keeper.go fail over the fakes of
-- internal/service/server/keeper/mock_helpers.go, for every input.
use gophkeeper.Base.{
  ◌≡◌, refl, sym, subst, inl, inr, Bool-cases, Bool, true, false, not, ◌||◌, ◌&&◌, none, some,
  Option, arith, str_eq, eq_iff, ◌==◌,
}
use gophkeeper.Base.Go.{Outcome, ok, err, panic}
use gophkeeper.Keeper
use gophkeeper.Keeper.{
  add_sealed, get_sealed, sync_loop, supported, is_empty, sync_mode_short, SyncMode, StreamCallback,
}
use gophkeeper.Keeper.Mocks.{mock_service, fake_ok_callback, fake_error_callback}
use gophkeeper.Model.{Bytes, UserId, DataId, Metadata}

-- a result with this verdict that left the state alone; nothing panics
abbrev pub Verdict : {S A : Type 0} → Bool → S → Outcome A × S → Type 0
Verdict fails s (ok a, t) = (fails ≡ false) × (t ≡ s)
Verdict fails s (err e, t) = (fails ≡ true) × (t ≡ s)
Verdict fails s (panic p, t) = ⊥

abbrev pub callback : {S : Type 0} → Bool → StreamCallback S
callback true = fake_error_callback
callback false = fake_ok_callback

abbrev pub add_fails : UserId → Option Metadata → Bytes → Bool
add_fails u none b = true
add_fails u (some m) b =
    str_eq u ""
    || (is_empty b
        || (not (supported m.data_type)
            || (str_eq u "put-error-user"
                || (str_eq u "create-error-user" || str_eq u "create-and-delete-error-user"))))

abbrev pub get_fails : DataId → Bool → Bool
get_fails id broken =
    str_eq id ""
    || (str_eq id "metadata-repo-error-user"
        || (str_eq id "brake-object-repo-get"
            || (str_eq id "brake-read" || (str_eq id "brake-close" || broken))))

abbrev pub list_fails : UserId → Bool
list_fails u = not (str_eq u "ok-user" || str_eq u "brake-object-repo-get")

abbrev pub delete_fails : DataId → Bool
delete_fails id = str_eq id "" || (str_eq id "break-metadataRepo" || str_eq id "break-objectRepo")

abbrev pub sync_fails : UserId → SyncMode → Bool → Bool
sync_fails u mode broken = not (str_eq u "ok-user" && (mode == sync_mode_short && not broken))

module _ {S : Type 0} where
  add-Verdict :
      (sha256 : Bytes → Bytes) (u : UserId) (m : Option Metadata) (b : Bytes) (s : S)
      → Verdict (add_fails u m b) s (add_sealed sha256 mock_service u m b s)
  unfolding add_sealed
  add-Verdict sha256 u none b s = ground arith
  add-Verdict sha256 u (some m) b s = ground arith

  get-Verdict :
      (id : DataId) (broken : Bool) (s : S)
      → Verdict (get_fails id broken) s (get_sealed mock_service id (callback broken) s)
  unfolding get_sealed
  get-Verdict id true s = ground arith
  get-Verdict id false s = ground arith

  list-Verdict : (u : UserId) (s : S) → Verdict (list_fails u) s (Keeper.list mock_service u s)
  unfolding Keeper.list
  list-Verdict u s = elim (Bool-cases (str_eq u "ok-user")) [
    | inl e ↦
        subst (λ w. Verdict (list_fails w) s (Keeper.list mock_service w s))
          (sym ((eq_iff u "ok-user").0 e)) (refl, refl)
    | inr e ↦ elim (Bool-cases (str_eq u "brake-object-repo-get")) [
      | inl q ↦
          subst (λ w. Verdict (list_fails w) s (Keeper.list mock_service w s))
            (sym ((eq_iff u "brake-object-repo-get").0 q)) (refl, refl)
      | inr q ↦ ground (arith, e, q)
    ]
  ]

  delete-Verdict :
      (id : DataId) (s : S) → Verdict (delete_fails id) s (Keeper.delete mock_service id s)
  unfolding Keeper.delete
  delete-Verdict id s = ground arith

  abbrev Synced : UserId → SyncMode → Bool → S → Type 0
  Synced u mode broken s =
      Verdict (sync_fails u mode broken) s
        (Keeper.sync mock_service (λ t. none) u mode (callback broken) s)

  ok_user-Synced : (mode : SyncMode) (broken : Bool) (s : S) → Synced "ok-user" mode broken s
  unfolding Keeper.sync sync_loop
  ok_user-Synced mode true s = ground arith
  ok_user-Synced mode false s = ground arith

  broken_user-Synced :
      (mode : SyncMode) (broken : Bool) (s : S) → Synced "brake-object-repo-get" mode broken s
  unfolding Keeper.sync sync_loop
  broken_user-Synced mode broken s = ground arith

  sync-Verdict : (u : UserId) (mode : SyncMode) (broken : Bool) (s : S) → Synced u mode broken s
  unfolding Keeper.sync
  sync-Verdict u mode broken s = elim (Bool-cases (str_eq u "ok-user")) [
    | inl e ↦
        subst (λ w. Synced w mode broken s) (sym ((eq_iff u "ok-user").0 e))
          (ok_user-Synced mode broken s)
    | inr e ↦ elim (Bool-cases (str_eq u "brake-object-repo-get")) [
      | inl q ↦
          subst (λ w. Synced w mode broken s) (sym ((eq_iff u "brake-object-repo-get").0 q))
            (broken_user-Synced mode broken s)
      | inr q ↦ ground (arith, e, q)
    ]
  ]

  -- The five use cases over the fakes, for every input: each fails exactly where its table says,
  -- none panics, and none changes anything.
  pub verdicts_on_mocks :
      (sha256 : Bytes → Bytes) (u : UserId) (m : Option Metadata) (b : Bytes) (id : DataId)
      (mode : SyncMode) (broken : Bool) (s : S)
      → Verdict (add_fails u m b) s (add_sealed sha256 mock_service u m b s)
        × Verdict (get_fails id broken) s (get_sealed mock_service id (callback broken) s)
        × Verdict (list_fails u) s (Keeper.list mock_service u s)
        × Verdict (delete_fails id) s (Keeper.delete mock_service id s)
        × Verdict
            (sync_fails u mode broken)
            s
            (Keeper.sync mock_service (λ t. none) u mode (callback broken) s)
  verdicts_on_mocks sha256 u m b id mode broken s = (
    add-Verdict sha256 u m b s,
    get-Verdict id broken s,
    list-Verdict u s,
    delete-Verdict id s,
    sync-Verdict u mode broken s,
  )

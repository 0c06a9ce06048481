-- ===== src/Keeper/Delete.antt =====
-- `Delete` of internal/service/server/keeper/keeper.go over any stores: the record goes first, then
-- the object.
use gophkeeper.Base.{◌≡◌, ◌≢◌, refl, inl, inr, Bool-cases, String, arith, str_eq, eq_iff}
use gophkeeper.Base.Go.{Error, new, wrap, Outcome, ok, err, panic, mapped, continue}
use gophkeeper.Model.{DataId, ObjectLocator}
use gophkeeper.Keeper.{Service, delete}

module _ {S : Type 0} (svc : Service S) where
  -- How Delete ends, by the results of the calls that it makes.
  pub data DeleteWay (id : DataId) (s : S) : Outcome (Unit {0}) × S → Type 0 where
    refused : id ≡ "" → DeleteWay id s (err (new "empty id"), s)
    record_kept :
        {e : Error} {t : S}
        → id ≢ ""
        → svc.metadata_repo.delete id s ≡ (err e, t)
        → DeleteWay id s (err (wrap "failed to delete metadata" e), t)
    record_crashed :
        {p : String} {t : S}
        → id ≢ ""
        → svc.metadata_repo.delete id s ≡ (panic p, t)
        → DeleteWay id s (panic p, t)
    deleted :
        {loc : ObjectLocator} {s₁ t : S}
        → id ≢ ""
        → svc.metadata_repo.delete id s ≡ (ok loc, s₁)
        → svc.object_repo.delete loc s₁ ≡ (ok tt, t)
        → DeleteWay id s (ok tt, t)
    -- no call puts the record back
    object_kept :
        {loc : ObjectLocator} {e : Error} {s₁ t : S}
        → id ≢ ""
        → svc.metadata_repo.delete id s ≡ (ok loc, s₁)
        → svc.object_repo.delete loc s₁ ≡ (err e, t)
        → DeleteWay id s (err (wrap "failed to delete data" e), t)
    object_crashed :
        {loc : ObjectLocator} {p : String} {s₁ t : S}
        → id ≢ ""
        → svc.metadata_repo.delete id s ≡ (ok loc, s₁)
        → svc.object_repo.delete loc s₁ ≡ (panic p, t)
        → DeleteWay id s (panic p, t)

  module _ (id : DataId) (s : S) (given : id ≢ "") where
    object-DeleteWay :
        (loc : ObjectLocator) (s₁ : S) (r : Outcome (Unit {0}) × S)
        → svc.metadata_repo.delete id s ≡ (ok loc, s₁)
        → svc.object_repo.delete loc s₁ ≡ r
        → DeleteWay id s (mapped (wrap "failed to delete data") r)
    object-DeleteWay loc s₁ (ok x, t) p q = deleted given p q
    object-DeleteWay loc s₁ (err e, t) p q = object_kept given p q
    object-DeleteWay loc s₁ (panic x, t) p q = object_crashed given p q

    record-DeleteWay :
        (r : Outcome ObjectLocator × S)
        → svc.metadata_repo.delete id s ≡ r
        → DeleteWay id s (
            continue
              (λ loc t. mapped (wrap "failed to delete data") (svc.object_repo.delete loc t))
              (mapped (wrap "failed to delete metadata") r))
    record-DeleteWay (ok loc, t) p = object-DeleteWay loc t (svc.object_repo.delete loc t) p refl
    record-DeleteWay (err e, t) p = record_kept given p
    record-DeleteWay (panic x, t) p = record_crashed given p

  -- Delete of any identifier, over any stores: an empty one is refused before any store is called.
  -- Else the record is deleted, and only where that succeeded the object of the locator that came
  -- back; Delete succeeds exactly where both calls do. Where the object's removal fails or panics,
  -- no further call is made, and none that puts the record back.
  pub delete-DeleteWay : (id : DataId) (s : S) → DeleteWay id s (delete svc id s)
  unfolding delete
  delete-DeleteWay id s = elim (Bool-cases (str_eq id "")) [
    | inl empty ↦ rw empty (refused ((eq_iff id "").0 empty))
    | inr given ↦ rw given (
        record-DeleteWay id s (λ p. ground (arith, eq_iff id "")) (svc.metadata_repo.delete id s)
          refl)
  ]

-- ===== src/Keeper/Add.antt =====
-- `AddSealed` of internal/service/server/keeper/keeper.go over any stores: which store calls it
-- makes, and how it ends.
use gophkeeper.Base.{
  ◌≡◌, ◌≢◌, refl, ◌⊎◌, inl, inr, Bool-cases, String, true, false, some, [], ◌∷◌, length, arith,
  str_eq, eq_iff,
}
use gophkeeper.Base.Go.{Error, wrap, join₂, Outcome, ok, err, panic, mapped, continue, int32, Prog}
use gophkeeper.Model.{Bytes, UserId, DataId, ObjectLocator, Metadata}
use gophkeeper.Keeper.{Service, supported, add_sealed, recorded, rolled_back}

-- the guards of AddSealed are passed
pub record Accepted (u : UserId) (m : Metadata) (b : Bytes) : Type 0 where
  pub named : u ≢ ""
  pub filled : b ≢ []
  pub typed : supported m.data_type ≡ true

module _ {S : Type 0} (sha256 : Bytes → Bytes) (svc : Service S) where
  abbrev pub put_object : UserId → Metadata → Bytes → Prog S ObjectLocator
  put_object u m b = svc.object_repo.put (record m { user_id = u }) b (int32 (length b)) (sha256 b)

  abbrev pub put_record : UserId → Metadata → ObjectLocator → Prog S DataId
  put_record u m loc = svc.metadata_repo.put (record m { user_id = u }) loc

  -- How AddSealed ends, by the results of the calls that it makes.
  pub data AddWay (u : UserId) (m : Metadata) (b : Bytes) (s : S)
      : Outcome DataId × S → Type 0 where
    -- no store is called
    refused :
        {e : Error}
        → (u ≡ "") ⊎ ((b ≡ []) ⊎ (supported m.data_type ≡ false))
        → AddWay u m b s (err e, s)
    not_stored :
        {e : Error} {t : S}
        → Accepted u m b
        → put_object u m b s ≡ (err e, t)
        → AddWay u m b s (err (wrap "failed to put sealed data to object repo" e), t)
    store_crashed :
        {p : String} {t : S}
        → Accepted u m b
        → put_object u m b s ≡ (panic p, t)
        → AddWay u m b s (panic p, t)
    added :
        {loc : ObjectLocator} {id : DataId} {s₁ t : S}
        → Accepted u m b
        → put_object u m b s ≡ (ok loc, s₁)
        → put_record u m loc s₁ ≡ (ok id, t)
        → AddWay u m b s (ok id, t)
    -- the object of a record that failed is removed
    taken_back :
        {loc : ObjectLocator} {e : Error} {s₁ s₂ t : S}
        → Accepted u m b
        → put_object u m b s ≡ (ok loc, s₁)
        → put_record u m loc s₁ ≡ (err e, s₂)
        → svc.object_repo.delete loc s₂ ≡ (ok tt, t)
        → AddWay u m b s (err (wrap "failed to put metadata to meta repo" e), t)
    -- its removal fails: both errors are returned
    left_behind :
        {loc : ObjectLocator} {e d : Error} {s₁ s₂ t : S}
        → Accepted u m b
        → put_object u m b s ≡ (ok loc, s₁)
        → put_record u m loc s₁ ≡ (err e, s₂)
        → svc.object_repo.delete loc s₂ ≡ (err d, t)
        → AddWay u m b s (err (wrap "failed to put metadata to meta repo" (join₂ e d)), t)
    removal_crashed :
        {loc : ObjectLocator} {e : Error} {p : String} {s₁ s₂ t : S}
        → Accepted u m b
        → put_object u m b s ≡ (ok loc, s₁)
        → put_record u m loc s₁ ≡ (err e, s₂)
        → svc.object_repo.delete loc s₂ ≡ (panic p, t)
        → AddWay u m b s (panic p, t)
    -- nothing removes the object
    record_crashed :
        {loc : ObjectLocator} {p : String} {s₁ t : S}
        → Accepted u m b
        → put_object u m b s ≡ (ok loc, s₁)
        → put_record u m loc s₁ ≡ (panic p, t)
        → AddWay u m b s (panic p, t)

  module _ (u : UserId) (m : Metadata) (b : Bytes) (s : S) (a : Accepted u m b) where
    rolled_back-AddWay :
        (loc : ObjectLocator) (e : Error) (s₁ s₂ : S) (r : Outcome (Unit {0}) × S)
        → put_object u m b s ≡ (ok loc, s₁)
        → put_record u m loc s₁ ≡ (err e, s₂)
        → svc.object_repo.delete loc s₂ ≡ r
        → AddWay u m b s (rolled_back sha256 svc e r)
    rolled_back-AddWay loc e s₁ s₂ (ok x, t) p q d = taken_back a p q d
    rolled_back-AddWay loc e s₁ s₂ (err c, t) p q d = left_behind a p q d
    rolled_back-AddWay loc e s₁ s₂ (panic x, t) p q d = removal_crashed a p q d

    recorded-AddWay :
        (loc : ObjectLocator) (s₁ : S) (r : Outcome DataId × S)
        → put_object u m b s ≡ (ok loc, s₁)
        → put_record u m loc s₁ ≡ r
        → AddWay u m b s (recorded sha256 svc loc r)
    recorded-AddWay loc s₁ (ok id, t) p q = added a p q
    recorded-AddWay loc s₁ (err e, t) p q =
        rolled_back-AddWay loc e s₁ t (svc.object_repo.delete loc t) p q refl
    recorded-AddWay loc s₁ (panic x, t) p q = record_crashed a p q

    stored-AddWay :
        (r : Outcome ObjectLocator × S)
        → put_object u m b s ≡ r
        → AddWay u m b s (
            continue
              (λ loc t. recorded sha256 svc loc (put_record u m loc t))
              (mapped (wrap "failed to put sealed data to object repo") r))
    stored-AddWay (ok loc, t) p = recorded-AddWay loc t (put_record u m loc t) p refl
    stored-AddWay (err e, t) p = not_stored a p
    stored-AddWay (panic x, t) p = store_crashed a p

  filled-AddWay :
      (u : UserId) (m : Metadata) (b : Bytes) (s : S)
      → str_eq u "" ≡ false
      → AddWay u m b s (add_sealed sha256 svc u (some m) b s)
  unfolding add_sealed
  filled-AddWay u m [] s named = rw named (refused (inr (inl refl)))
  filled-AddWay u m (x ∷ xs) s named = elim (Bool-cases (supported m.data_type)) [
    | inl known ↦
        rw (named, known)
          (stored-AddWay u m (x ∷ xs) s
            (record { named = λ p. ground (arith, eq_iff u ""); filled = λ p. cc; typed = known })
            (put_object u m (x ∷ xs) s) refl)
    | inr unknown ↦ rw (named, unknown) (refused (inr (inr unknown)))
  ]

  -- AddSealed of a metadata that is not nil, over any stores: a nameless user, an empty secret and an unknown type
  -- are refused before any store is called. Else the object is put once, with the caller as owner,
  -- its length and its checksum; a record is put only for the locator that came back. The
  -- identifier of the record is returned exactly where both succeeded. Where the record fails, the
  -- same object is removed once, in the state that the failure left, and a removal that fails too
  -- is joined to the error. A panic of a store ends the call at once.
  pub add_sealed-AddWay :
      (u : UserId) (m : Metadata) (b : Bytes) (s : S)
      → AddWay u m b s (add_sealed sha256 svc u (some m) b s)
  unfolding add_sealed
  add_sealed-AddWay u m b s = elim (Bool-cases (str_eq u "")) [
    | inl nameless ↦ rw nameless (refused (inl ((eq_iff u "").0 nameless)))
    | inr named ↦ filled-AddWay u m b s named
  ]

-- ===== src/Keeper/Read.antt =====
-- `GetSealed` and `getSealedHelper` of internal/service/server/keeper/keeper.go over any stores.
use gophkeeper.Base.{◌≡◌, ◌≢◌, refl, ◌⊎◌, inl, inr, Bool-cases, String, arith, str_eq, eq_iff}
use gophkeeper.Base.Go.{
  Error, new, wrap, join₁, join₂, Outcome, ok, err, panic, mapped, continue, ◌>>=◌, map_err,
}
use gophkeeper.Model.{Bytes, DataId, ObjectLocator, MetaLoc}
use gophkeeper.Keeper.{
  Service, ReadCloser, StreamCallback, get_sealed, get_sealed_helper, closed, with_close,
}

module _ {S : Type 0} (svc : Service S) where
  -- the object at a locator is opened, read and closed, each without an error
  pub record Loaded (loc : ObjectLocator) (s : S) (b : Bytes) (t : S) : Type 0 where
    pub reader : ReadCloser S
    pub after_open : S
    pub after_read : S
    pub opened : svc.object_repo.get loc s ≡ (ok reader, after_open)
    pub read : reader.read_all after_open ≡ (ok b, after_read)
    pub shut : reader.close after_read ≡ (ok tt, t)

  -- How the loading of an object fails; a reader that was opened is closed on each way.
  pub data LoadFails (loc : ObjectLocator) (s : S) : Outcome (Unit {0}) × S → Type 0 where
    not_opened :
        {e : Error} {t : S}
        → svc.object_repo.get loc s ≡ (err e, t)
        → LoadFails loc s (err (wrap "objectRepo.Get method failed" e), t)
    open_crashed :
        {p : String} {t : S}
        → svc.object_repo.get loc s ≡ (panic p, t)
        → LoadFails loc s (panic p, t)
    not_read :
        {rc : ReadCloser S} {e : Error} {s₁ s₂ t : S}
        → svc.object_repo.get loc s ≡ (ok rc, s₁)
        → rc.read_all s₁ ≡ (err e, s₂)
        → rc.close s₂ ≡ (ok tt, t)
        → LoadFails loc s (err (join₁ (wrap "failed to read object" e)), t)
    not_read_not_shut :
        {rc : ReadCloser S} {e d : Error} {s₁ s₂ t : S}
        → svc.object_repo.get loc s ≡ (ok rc, s₁)
        → rc.read_all s₁ ≡ (err e, s₂)
        → rc.close s₂ ≡ (err d, t)
        → LoadFails loc s (err (join₂ (wrap "failed to read object" e) d), t)
    -- what was read is dropped
    not_shut :
        {rc : ReadCloser S} {b : Bytes} {d : Error} {s₁ s₂ t : S}
        → svc.object_repo.get loc s ≡ (ok rc, s₁)
        → rc.read_all s₁ ≡ (ok b, s₂)
        → rc.close s₂ ≡ (err d, t)
        → LoadFails loc s (err (join₁ d), t)
    read_crashed :
        {rc : ReadCloser S} {p : String} {c : Outcome (Unit {0})} {s₁ s₂ t : S}
        → svc.object_repo.get loc s ≡ (ok rc, s₁)
        → rc.read_all s₁ ≡ (panic p, s₂)
        → rc.close s₂ ≡ (c, t)
        → LoadFails loc s (panic p, t)
    shut_crashed :
        {rc : ReadCloser S} {r : Outcome Bytes} {p : String} {s₁ s₂ t : S}
        → svc.object_repo.get loc s ≡ (ok rc, s₁)
        → rc.read_all s₁ ≡ (r, s₂)
        → rc.close s₂ ≡ (panic p, t)
        → LoadFails loc s (panic p, t)

  -- what goes on with a loaded object
  abbrev pub LoadWay :
      ObjectLocator → S → (Bytes → S → Outcome (Unit {0}) × S) → Outcome (Unit {0}) × S → Type 0
  LoadWay loc s f r = LoadFails loc s r ⊎ ((b : Bytes) × (t : S) × Loaded loc s b t × (f b t ≡ r))

  module _ (loc : ObjectLocator) (s : S) (f : Bytes → S → Outcome (Unit {0}) × S) where
    closed-LoadWay :
        (rc : ReadCloser S) (s₁ s₂ : S) (r : Outcome Bytes) (c : Outcome (Unit {0}) × S)
        → svc.object_repo.get loc s ≡ (ok rc, s₁)
        → rc.read_all s₁ ≡ (r, s₂)
        → rc.close s₂ ≡ c
        → LoadWay loc s f (continue f (closed (mapped (wrap "failed to read object") (r, s₂)).0 c))
    closed-LoadWay rc s₁ s₂ (ok b) (ok x, t) o r c = inr (
      b,
      t,
      record { reader = rc; after_open = s₁; after_read = s₂; opened = o; read = r; shut = c },
      refl,
    )
    closed-LoadWay rc s₁ s₂ (ok b) (err d, t) o r c = inl (not_shut o r c)
    closed-LoadWay rc s₁ s₂ (ok b) (panic p, t) o r c = inl (shut_crashed o r c)
    closed-LoadWay rc s₁ s₂ (err e) (ok x, t) o r c = inl (not_read o r c)
    closed-LoadWay rc s₁ s₂ (err e) (err d, t) o r c = inl (not_read_not_shut o r c)
    closed-LoadWay rc s₁ s₂ (err e) (panic p, t) o r c = inl (shut_crashed o r c)
    closed-LoadWay rc s₁ s₂ (panic p) (c, t) o r q = inl (read_crashed o r q)

    read-LoadWay :
        (rc : ReadCloser S) (s₁ : S) (r : Outcome Bytes × S)
        → svc.object_repo.get loc s ≡ (ok rc, s₁)
        → rc.read_all s₁ ≡ r
        → LoadWay loc s f (
            continue f (
              closed
                (mapped (wrap "failed to read object") r).0
                (rc.close (mapped (wrap "failed to read object") r).1)))
    read-LoadWay rc s₁ (ok b, t) o r = closed-LoadWay rc s₁ t (ok b) (rc.close t) o r refl
    read-LoadWay rc s₁ (err e, t) o r = closed-LoadWay rc s₁ t (err e) (rc.close t) o r refl
    read-LoadWay rc s₁ (panic p, t) o r = closed-LoadWay rc s₁ t (panic p) (rc.close t) o r refl

    opened-LoadWay :
        (r : Outcome (ReadCloser S) × S)
        → svc.object_repo.get loc s ≡ r
        → LoadWay loc s f (
            continue f (
              continue
                (λ rc. with_close rc.close (map_err (wrap "failed to read object") rc.read_all))
                (mapped (wrap "objectRepo.Get method failed") r)))
    opened-LoadWay (ok rc, t) o = read-LoadWay rc t (rc.read_all t) o refl
    opened-LoadWay (err e, t) o = inl (not_opened o)
    opened-LoadWay (panic p, t) o = inl (open_crashed o)

    pub get_sealed_helper-LoadWay : LoadWay loc s f ((get_sealed_helper svc loc >>= f) s)
    get_sealed_helper-LoadWay = opened-LoadWay (svc.object_repo.get loc s) refl

  module _ (cb : StreamCallback S) where
    -- How GetSealed ends, by the results of the calls that it makes.
    pub data GetWay (id : DataId) (s : S) : Outcome (Unit {0}) × S → Type 0 where
      refused : id ≡ "" → GetWay id s (err (new "empty id"), s)
      no_record :
          {e : Error} {t : S}
          → id ≢ ""
          → svc.metadata_repo.get id s ≡ (err e, t)
          → GetWay id s (err (wrap "failed to get metadata from repo" e), t)
      record_crashed :
          {p : String} {t : S}
          → id ≢ ""
          → svc.metadata_repo.get id s ≡ (panic p, t)
          → GetWay id s (panic p, t)
      not_loaded :
          {ml : MetaLoc} {s₁ : S} {r : Outcome (Unit {0}) × S}
          → id ≢ ""
          → svc.metadata_repo.get id s ≡ (ok ml, s₁)
          → LoadFails ml.locator s₁ r
          → GetWay id s r
      -- the one message
      called :
          {ml : MetaLoc} {b : Bytes} {s₁ s₂ : S} {r : Outcome (Unit {0}) × S}
          → id ≢ ""
          → svc.metadata_repo.get id s ≡ (ok ml, s₁)
          → Loaded ml.locator s₁ b s₂
          → mapped (wrap "callback failed") (cb ml.meta b s₂) ≡ r
          → GetWay id s r

    loaded-GetWay :
        (id : DataId) (s s₁ : S) (ml : MetaLoc) (r : Outcome (Unit {0}) × S)
        → id ≢ ""
        → svc.metadata_repo.get id s ≡ (ok ml, s₁)
        → LoadWay ml.locator s₁ (λ b. map_err (wrap "callback failed") (cb ml.meta b)) r
        → GetWay id s r
    loaded-GetWay id s s₁ ml r given p (inl fails) = not_loaded given p fails
    loaded-GetWay id s s₁ ml r given p (inr (b, s₂, loaded, q)) = called given p loaded q

    found-GetWay :
        (id : DataId) (s : S) (r : Outcome MetaLoc × S)
        → id ≢ ""
        → svc.metadata_repo.get id s ≡ r
        → GetWay id s (
            continue
              (λ ml. get_sealed_helper svc ml.locator >>= λ b.
                map_err (wrap "callback failed") (cb ml.meta b))
              (mapped (wrap "failed to get metadata from repo") r))
    found-GetWay id s (ok ml, t) given p = loaded-GetWay id s t ml _ given p (
        get_sealed_helper-LoadWay ml.locator t
          (λ b. map_err (wrap "callback failed") (cb ml.meta b)))
    found-GetWay id s (err e, t) given p = no_record given p
    found-GetWay id s (panic x, t) given p = record_crashed given p

    -- GetSealed of any identifier, over any stores: the callback runs at most once, with the
    -- metadata of the identifier and all the bytes of the object at its locator, and only after the
    -- object's reader was opened, read to its end and closed, all without an error. A reader that
    -- was opened is closed once on every way out, a panic of its read included, and what its
    -- closing returns is joined to the error.
    pub get_sealed-GetWay : (id : DataId) (s : S) → GetWay id s (get_sealed svc id cb s)
    unfolding get_sealed
    get_sealed-GetWay id s = elim (Bool-cases (str_eq id "")) [
      | inl empty ↦ rw empty (refused ((eq_iff id "").0 empty))
      | inr given ↦
          rw given (
            found-GetWay id s (svc.metadata_repo.get id s) (λ p. ground (arith, eq_iff id "")) refl)
    ]

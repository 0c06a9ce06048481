-- ===== src/Router/UseCases.antt =====
-- The use cases of internal/service/server/keeper/keeper.go over the router that `New` of
-- internal/repo/router/router.go builds, as setupRepos of internal/api/api.go joins the two.
use Prim.Native.String.{◌++◌}
use gophkeeper.Base.{
  ◌≡◌, ◌≢◌, refl, sym, subst, String, eq_iff, ◌∙◌, inl, inr, Bool-cases, Option-cases, Option, some,
  List, [], ◌∷◌, str_eq, ◌==◌, if◌then◌else◌,
}
use gophkeeper.Base.Go.{
  Error, new, wrap, join₂, Outcome, ok, err, panic, Prog, mapped, continue, map_err, ◌>>=◌,
}
use gophkeeper.Model.{Bytes, UserId, DataId, DataType, ObjectLocator, Metadata, MetaLoc}
use gophkeeper.Keeper.{
  ObjectRepo, MetadataRepo, Service, StreamCallback, SyncMode, sync_mode_short, sync_mode_full,
  get_sealed_helper, get_sealed, sync_loop, sync, add_sealed,
}
use gophkeeper.Keeper.Add.{Accepted, put_object, put_record}
use gophkeeper.Router.{new_router, as_object_repo, nil_dereference}
use gophkeeper.Router.Panics.{routed, get_delete_never_routed}

-- what a Get or a Delete of a locator comes to
abbrev pub unreached : {A : Type 0} → ObjectLocator → Outcome A
unreached loc =
    if routed loc
    then panic nil_dereference
    else err (new ("failed to find storage for locator " ++ loc))

module _ {S : Type 0} (by_type : DataType → Option (ObjectRepo S)) (metas : MetadataRepo S) where
  abbrev pub routed_service : Service S
  routed_service = record {
    object_repo = as_object_repo (new_router by_type);
    metadata_repo = metas;
  }

  got : (loc : ObjectLocator) (s : S) → routed_service.object_repo.get loc s ≡ (unreached loc, s)
  unfolding as_object_repo
  got loc s = (get_delete_never_routed by_type loc s).0

  removed :
      (loc : ObjectLocator) (s : S) → routed_service.object_repo.delete loc s ≡ (unreached loc, s)
  unfolding as_object_repo
  removed loc s = (get_delete_never_routed by_type loc s).1

  -- what the loading of an object comes to, whatever would go on with it
  abbrev not_loaded : ObjectLocator → S → Outcome (Unit {0}) × S
  not_loaded loc s = (mapped (wrap "objectRepo.Get method failed") (unreached loc, s))

  loading :
      (loc : ObjectLocator) (f : Bytes → Prog S (Unit {0})) (s : S)
      → (get_sealed_helper routed_service loc >>= f) s ≡ not_loaded loc s
  loading loc f s = elim (Bool-cases (routed loc)) [
    | inl known ↦ rw (got loc s) (rw known refl)
    | inr unknown ↦ rw (got loc s) (rw unknown refl)
  ]

  -- what GetSealed comes to, with any callback
  abbrev pub unread : DataId → S → Outcome (Unit {0}) × S
  unread id s =
      if str_eq id ""
      then (err (new "empty id"), s)
      else continue (λ ml. not_loaded ml.locator)
          (mapped (wrap "failed to get metadata from repo") (metas.get id s))

  found-unread :
      (cb : StreamCallback S) (r : Outcome MetaLoc × S)
      → continue
          (λ ml. get_sealed_helper routed_service ml.locator >>= λ b.
            map_err (wrap "callback failed") (cb ml.meta b))
          r
        ≡ continue (λ ml. not_loaded ml.locator) r
  found-unread cb (ok ml, t) =
      loading ml.locator (λ b. map_err (wrap "callback failed") (cb ml.meta b)) t
  found-unread cb (err e, t) = refl
  found-unread cb (panic p, t) = refl

  get_sealed-unread :
      (id : DataId) (cb : StreamCallback S) (s : S)
      → get_sealed routed_service id cb s ≡ unread id s
  unfolding get_sealed
  get_sealed-unread id cb s = elim (Bool-cases (str_eq id "")) [
    | inl empty ↦ rw empty refl
    | inr given ↦
        rw given
          (found-unread cb (mapped (wrap "failed to get metadata from repo") (metas.get id s)))
  ]

  loading_then :
      (loc : ObjectLocator) (f : Bytes → Prog S (Unit {0})) (rest : Prog S (Unit {0})) (s : S)
      → continue (λ _. rest) ((get_sealed_helper routed_service loc >>= f) s) ≡ not_loaded loc s
  loading_then loc f rest s = elim (Bool-cases (routed loc)) [
    | inl known ↦ rw (got loc s) (rw known refl)
    | inr unknown ↦ rw (got loc s) (rw unknown refl)
  ]

  no_success : (loc : ObjectLocator) (s : S) → (not_loaded loc s).0 ≢ ok tt
  no_success loc s q = elim (Bool-cases (routed loc)) [
    | inl known ↦ absurd (panicked (rw known at q))
    | inr unknown ↦ absurd (failed (rw unknown at q))
  ]
    where
      panicked : {p : String} → Outcome.panic p ≡ ok (tt {0}) → ⊥
      panicked h = cc

      failed : {e : Error} → err e ≡ ok (tt {0}) → ⊥
      failed h = cc

  found_no_success :
      (r : Outcome MetaLoc × S) → (continue (λ ml. not_loaded ml.locator) r).0 ≢ ok tt
  found_no_success (ok ml, t) q = no_success ml.locator t q
  found_no_success (err e, t) q = cc
  found_no_success (panic p, t) q = cc

  unread_no_success : (id : DataId) (s : S) → (unread id s).0 ≢ ok tt
  unread_no_success id s = elim (Bool-cases (str_eq id "")) [
    | inl empty ↦ rw empty (λ q. cc)
    | inr given ↦
        rw given
          (found_no_success (mapped (wrap "failed to get metadata from repo") (metas.get id s)))
  ]

  module _ (ctx_err : S → Option Error) (mode : SyncMode) (cb other : StreamCallback S) where
    rounds-same :
        (mls : List MetaLoc) (s : S)
        → sync_loop routed_service ctx_err mode cb mls s
          ≡ sync_loop routed_service ctx_err mode other mls s
    unfolding sync_loop
    rounds-same [] s = refl
    rounds-same (ml ∷ mls) s = elim (Option-cases (ctx_err s)) [
      | inl go ↦ elim (Bool-cases (mode == sync_mode_short)) [
        | inl short ↦
            rw (go, short)
              (loading_then ml.locator _ (sync_loop routed_service ctx_err mode cb mls) s
                ∙ sym
                    (loading_then ml.locator _ (sync_loop routed_service ctx_err mode other mls) s))
        | inr long ↦ elim (Bool-cases (mode == sync_mode_full)) [
          | inl full ↦ rw (go, long, full) refl
          | inr unknown ↦ rw (go, long, unknown) refl
        ]
      ]
      | inr (e, stop) ↦ rw stop refl
    ]

    listed-same :
        (r : Outcome (List MetaLoc) × S)
        → continue (sync_loop routed_service ctx_err mode cb) r
          ≡ continue (sync_loop routed_service ctx_err mode other) r
    listed-same (ok mls, t) = rounds-same mls t
    listed-same (err e, t) = refl
    listed-same (panic p, t) = refl

    sync-same :
        (u : UserId) (s : S)
        → sync routed_service ctx_err u mode cb s ≡ sync routed_service ctx_err u mode other s
    unfolding sync
    sync-same u s = elim (Bool-cases (str_eq u "")) [
      | inl nameless ↦ rw nameless refl
      | inr named ↦ rw named (listed-same _)
    ]

    -- Over the router that New builds, whatever stores it was given and over any metadata store: no
    -- GetSealed succeeds, and neither GetSealed nor Sync ever runs its callback, since each of them
    -- does the same with any other one. So nothing that was stored can be read back.
    pub reads_send_nothing :
        (id : DataId) (u : UserId) (s : S)
        → ((get_sealed routed_service id cb s).0 ≢ ok tt)
          × (get_sealed routed_service id cb s ≡ get_sealed routed_service id other s)
          × (sync routed_service ctx_err u mode cb s ≡ sync routed_service ctx_err u mode other s)
    reads_send_nothing id u s =
        let read = get_sealed-unread id in
        (
          subst (λ r. r.0 ≢ ok tt) (sym (read cb s)) (unread_no_success id s),
          read cb s ∙ sym (read other s),
          sync-same u s,
        )

  module _ (sha256 : Bytes → Bytes) where
    -- Over the same router: where AddSealed has put its object and the metadata store then fails,
    -- the object is never taken back. For a locator that begins with "s3" or "pg" AddSealed panics;
    -- for any other one it returns both errors. The state is the one that the failure left.
    pub roll_back_fails :
        (u : UserId) (m : Metadata) (b : Bytes) (loc : ObjectLocator) (e : Error) (s s₁ s₂ : S)
        → Accepted u m b
        → put_object sha256 routed_service u m b s ≡ (ok loc, s₁)
        → put_record sha256 routed_service u m loc s₁ ≡ (err e, s₂)
        → add_sealed sha256 routed_service u (some m) b s ≡ (
          if routed loc
              then panic nil_dereference
              else err (
                  wrap "failed to put metadata to meta repo"
                    (join₂ e (new ("failed to find storage for locator " ++ loc)))),
          s₂,
        )
    unfolding add_sealed
    roll_back_fails u m [] loc e s s₁ s₂ a p q = absurd (a.filled refl)
    roll_back_fails u m (x ∷ xs) loc e s s₁ s₂ a p q = elim (Bool-cases (str_eq u "")) [
      | inl nameless ↦ absurd (a.named ((eq_iff u "").0 nameless))
      | inr named ↦ elim (Bool-cases (routed loc)) [
        | inl known ↦ rw (named, a.typed) (rw p (rw q (rw (removed loc s₂) (rw known refl))))
        | inr unknown ↦ rw (named, a.typed) (rw p (rw q (rw (removed loc s₂) (rw unknown refl))))
      ]
    ]

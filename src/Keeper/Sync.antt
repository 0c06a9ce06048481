-- ===== src/Keeper/Sync.antt =====
-- `Sync` of internal/service/server/keeper/keeper.go over any stores: the loop over a user's listing.
use gophkeeper.Base.{String, ◌≡◌, ◌≢◌, Option, none, some, List, [], ◌∷◌, ◌++◌}
use gophkeeper.Base.Go.{Error, new, wrap, Outcome, ok, err, panic}
use gophkeeper.Model.{Bytes, UserId, MetaLoc}
use gophkeeper.Keeper.{
  Service, StreamCallback, msg_empty_user_id, SyncMode, sync_mode_short, sync_mode_full,
}
use gophkeeper.Keeper.Read.{Loaded, LoadFails}

abbrev pub msg_callback : String
msg_callback = "metadata and data grpc stream write callback failed"

module _ {S : Type 0} (svc : Service S) (ctx_err : S → Option Error) (mode : SyncMode)
    (cb : StreamCallback S) where
  -- The rounds that went through: each sends the metadata of its entry with its loaded object,
  -- while the context is not done.
  pub data Rounds : S → List MetaLoc → S → Type 0 where
    no_more : {s : S} → Rounds s [] s
    round :
        {s s₁ s₂ t : S} {ml : MetaLoc} {b : Bytes} {mls : List MetaLoc}
        → ctx_err s ≡ none
        → mode ≡ sync_mode_short
        → Loaded svc ml.locator s b s₁
        → cb ml.meta b s₁ ≡ (ok tt, s₂)
        → Rounds s₂ mls t
        → Rounds s (ml ∷ mls) t

  -- How the round of an entry ends the loop.
  pub data Stops (ml : MetaLoc) (s : S) : Outcome (Unit {0}) × S → Type 0 where
    done :
        {e : Error}
        → ctx_err s ≡ some e
        → Stops ml s (err (wrap "metadata run through failed" e), s)
    full_mode :
        ctx_err s ≡ none
        → mode ≡ sync_mode_full
        → Stops ml s (err (new "full sync mode isn't implemented yet"), s)
    unknown_mode :
        ctx_err s ≡ none
        → mode ≢ sync_mode_short
        → mode ≢ sync_mode_full
        → Stops ml s (err (new "unknown sync mode"), s)
    not_loaded :
        {r : Outcome (Unit {0}) × S}
        → ctx_err s ≡ none
        → mode ≡ sync_mode_short
        → LoadFails svc ml.locator s r
        → Stops ml s r
    not_sent :
        {b : Bytes} {e : Error} {s₁ t : S}
        → ctx_err s ≡ none
        → mode ≡ sync_mode_short
        → Loaded svc ml.locator s b s₁
        → cb ml.meta b s₁ ≡ (err e, t)
        → Stops ml s (err (wrap msg_callback e), t)
    send_crashed :
        {b : Bytes} {p : String} {s₁ t : S}
        → ctx_err s ≡ none
        → mode ≡ sync_mode_short
        → Loaded svc ml.locator s b s₁
        → cb ml.meta b s₁ ≡ (panic p, t)
        → Stops ml s (panic p, t)

  -- A loop over a listing: all rounds went through, or those of a front part, before one stopped it.
  pub data LoopWay (mls : List MetaLoc) (s : S) : Outcome (Unit {0}) × S → Type 0 where
    all_sent : {t : S} → Rounds s mls t → LoopWay mls s (ok tt, t)
    stopped :
        (front rest : List MetaLoc) {ml : MetaLoc} {w : S} {r : Outcome (Unit {0}) × S}
        → mls ≡ front ++ ml ∷ rest
        → Rounds s front w
        → Stops ml w r
        → LoopWay mls s r

  -- How Sync ends, by the results of the calls that it makes.
  pub data SyncWay (u : UserId) (s : S) : Outcome (Unit {0}) × S → Type 0 where
    refused : u ≡ "" → SyncWay u s (err (new msg_empty_user_id), s)
    not_listed :
        {e : Error} {t : S}
        → u ≢ ""
        → svc.metadata_repo.list_by_user u s ≡ (err e, t)
        → SyncWay u s (err (wrap "repo.ListMetadata method failed" e), t)
    list_crashed :
        {p : String} {t : S}
        → u ≢ ""
        → svc.metadata_repo.list_by_user u s ≡ (panic p, t)
        → SyncWay u s (panic p, t)
    listed :
        {mls : List MetaLoc} {s₁ : S} {r : Outcome (Unit {0}) × S}
        → u ≢ ""
        → svc.metadata_repo.list_by_user u s ≡ (ok mls, s₁)
        → LoopWay mls s₁ r
        → SyncWay u s r

-- ===== src/Api/KeeperService/Uploads.antt =====
-- `Add` of internal/api/v1/keeper_service.go over any use case: what becomes of a stream of requests.
use gophkeeper.Base.{String, ◌≡◌, ◌⊎◌, some, List, ◌∷◌, ◌++◌}
use gophkeeper.Base.Go.{Error, status, internal, Outcome, ok, err, panic, Prog}
use gophkeeper.Convert.{Timestamps}
use gophkeeper.Model.{Bytes, UserId, DataId, Metadata}
use gophkeeper.Api.KeeperService.Additions.{Request, Carries, Adds}
use gophkeeper.Api.KeeperService.Guards.{no_user}
use gophkeeper.Api.KeeperService.{KeeperUseCase, receive}

abbrev add_failed : Error
add_failed = status internal "add failed"

module _ {S : Type 0} (ts : Timestamps) (use_case : KeeperUseCase S) where
  -- Why the loop ends at a request: its fields are refused and the use case is not called, or
  -- AddSealed fails or panics.
  pub data Fails (u : UserId) (req : Request ts) (s : S) : Outcome (Unit {0}) × S → Type 0 where
    malformed :
        {e : Error}
        → ((m : Metadata) (b : Bytes) → Carries ts req m b → ⊥)
        → Fails u req s (err e, s)
    not_added :
        {m : Metadata} {b : Bytes} {e : Error} {t : S}
        → Carries ts req m b
        → use_case.add_sealed u (some m) b s ≡ (err e, t)
        → Fails u req s (err add_failed, t)
    crashed :
        {m : Metadata} {b : Bytes} {p : String} {t : S}
        → Carries ts req m b
        → use_case.add_sealed u (some m) b s ≡ (panic p, t)
        → Fails u req s (panic p, t)

  abbrev OneWay : UserId → Request ts → S → Outcome (Unit {0}) × S → Type 0
  OneWay u req s r =
      Fails u req s r
      ⊎ ((m : Metadata) × (b : Bytes) × (id : DataId) × (t : S) × Carries ts req m b
          × (use_case.add_sealed u (some m) b s ≡ (ok id, t))
          × (r ≡ (ok tt, t)))

  -- The requests in their order: all of them added, or a front part before one that fails.
  pub data LoopWay (u : UserId) (reqs : List (Request ts)) (s : S)
      : Outcome (Unit {0}) × S → Type 0 where
    all_added : {t : S} → Adds ts use_case u s reqs t → LoopWay u reqs s (ok tt, t)
    stopped :
        (front rest : List (Request ts)) {req : Request ts} {w : S} {r : Outcome (Unit {0}) × S}
        → reqs ≡ front ++ req ∷ rest
        → Adds ts use_case u s front w
        → Fails u req w r
        → LoopWay u reqs s r

  module _ (error_text : Error → String) (answer : Prog S (Unit {0}))
      (inbox : List (Outcome (Request ts))) where
    -- How Add ends.
    pub data UploadWay (u : UserId) (s : S) : Outcome (Unit {0}) × S → Type 0 where
      nameless : u ≡ "" → UploadWay u s (err no_user, s)
      not_received : {e : Error} → receive error_text inbox ≡ err e → UploadWay u s (err e, s)
      receive_crashed :
          {p : String} → receive error_text inbox ≡ panic p → UploadWay u s (panic p, s)
      -- all are added, and the client is answered
      answered :
          {reqs : List (Request ts)} {t : S}
          → receive error_text inbox ≡ ok reqs
          → Adds ts use_case u s reqs t
          → UploadWay u s (answer t)
      -- nothing takes back what the front part added
      broken_off :
          (front rest : List (Request ts)) {req : Request ts} {w : S} {r : Outcome (Unit {0}) × S}
          → receive error_text inbox ≡ ok (front ++ req ∷ rest)
          → Adds ts use_case u s front w
          → Fails u req w r
          → UploadWay u s r

-- ===== src/Base/Runs.antt =====
-- What a run that succeeded went through, and what a call without effect leaves.
use gophkeeper.Base.{◌≡◌, refl}
use gophkeeper.Base.Go.{Error, Outcome, ok, err, panic, Prog, mapped, continue}

module _ {S : Type 0} where
  -- the steps of a run that succeeded
  pub ran :
      {A B : Type 0} (r : Outcome A × S) (f : A → Prog S B) {b : B} {t : S}
      → continue f r ≡ (ok b, t)
      → (a : A) × (w : S) × (r ≡ (ok a, w)) × (f a w ≡ (ok b, t))
  ran (ok a, w) f h = (a, w, refl, h)
  ran (err e, w) f h = cc
  ran (panic p, w) f h = cc

  pub unmapped :
      {A : Type 0} (g : Error → Error) (r : Outcome A × S) {a : A} {w : S}
      → mapped g r ≡ (ok a, w)
      → r ≡ (ok a, w)
  unmapped g (ok a, w) h = h
  unmapped g (err e, w) h = cc
  unmapped g (panic p, w) h = cc

  pub mapped_state : {A : Type 0} (g : Error → Error) (r : Outcome A × S) → (mapped g r).1 ≡ r.1
  mapped_state g (ok a, s) = refl
  mapped_state g (err e, s) = refl
  mapped_state g (panic p, s) = refl

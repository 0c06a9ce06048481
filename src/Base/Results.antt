-- ===== src/Base/Results.antt =====
-- Code that may fail or panic and changes no state, for `do` blocks over outcomes.
use mathlib.Core.Option.{Option, none, some}
use gophkeeper.Base.Go.{Error, Outcome, ok, err, panic}

infixl 5 ◌>>=◌ ◌>>◌
abbrev pub ◌>>=◌ {ℓ κ} : {A : Type ℓ} {B : Type κ} → Outcome A → (A → Outcome B) → Outcome B
ok a >>= f = f a
err e >>= f = err e
panic p >>= f = panic p

abbrev pub ◌>>◌ {ℓ κ} : {A : Type ℓ} {B : Type κ} → Outcome A → Outcome B → Outcome B
m >> k = m >>= λ _. k

-- `if err != nil { return …, f(err) }`
abbrev pub with_err {ℓ} : {A : Type ℓ} → (Error → Error) → Outcome A → Outcome A
with_err f (ok a) = ok a
with_err f (err e) = err (f e)
with_err f (panic p) = panic p

abbrev pub or_err {ℓ} : {A : Type ℓ} → Error → Option A → Outcome A
or_err e none = err e
or_err e (some a) = ok a

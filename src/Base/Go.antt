-- ===== src/Base/Go.antt =====
-- What every Go function of the repository uses: error values and their chains, a call that
-- returns, fails or panics, and code that changes a state.
use Prim.Native.Nat.{ℕ, ◌-◌, ◌%◌, ◌^◌}
use Prim.Native.String.{String}
use mathlib.Core.Bool.{Bool, ◌||◌}
use mathlib.Core.Option.{Option, none, some}
use gophkeeper.Base.Booleans.{ltb, if◌then◌else◌}

-- The gRPC status codes that the handlers return.
pub data Code : Type 0 where
  canceled invalid_argument already_exists unauthenticated internal : Code

-- `wrap` is `fmt.Errorf` with `%w`; `join₁ e` is `errors.Join` of `e` and a nil error. A `pg` error
-- carries the SQLSTATE of a `*pgconn.PgError`.
pub data Error : Type 0 where
  new : String → Error
  wrap : String → Error → Error
  join₁ : Error → Error
  join₂ : Error → Error → Error
  pg : String → Error
  status : Code → String → Error
  eof no_rows tx_closed not_found canceled_context token_expired no_change : Error

-- `errors.Is` against a sentinel that `p` knows: the chain is walked, both sides of a join.
abbrev pub errors_is : (Error → Bool) → Error → Bool
errors_is p (wrap m e) = errors_is p e
errors_is p (join₁ e) = errors_is p e
errors_is p (join₂ d e) = errors_is p d || errors_is p e
errors_is p e = p e

abbrev or_else {ℓ} : {A : Type ℓ} → Option A → Option A → Option A
or_else (some a) o = some a
or_else none o = o

-- `errors.As` into a `*pgconn.PgError`: the SQLSTATE of the first one of the chain.
abbrev pub errors_as_pg : Error → Option String
errors_as_pg (wrap m e) = errors_as_pg e
errors_as_pg (join₁ e) = errors_as_pg e
errors_as_pg (join₂ d e) = or_else (errors_as_pg d) (errors_as_pg e)
errors_as_pg (pg c) = some c
errors_as_pg _ = none

pub data Outcome {ℓ} (A : Type ℓ) : Type ℓ where
  ok : A → Outcome A
  err : Error → Outcome A
  panic : String → Outcome A

abbrev pub Prog : Type 0 → Type 0 → Type 0
Prog S A = S → Outcome A × S

module _ {S A : Type 0} where
  abbrev pub pure : A → Prog S A
  pure a s = (ok a, s)

  abbrev pub fail : Error → Prog S A
  fail e s = (err e, s)

  abbrev pub lift : Outcome A → Prog S A
  lift r s = (r, s)

  abbrev pub gets : (S → A) → Prog S A
  gets f s = (ok (f s), s)

  abbrev pub from_option : Error → Option A → Prog S A
  from_option e none s = (err e, s)
  from_option e (some a) s = (ok a, s)

  abbrev pub mapped : (Error → Error) → Outcome A × S → Outcome A × S
  mapped f (ok a, s) = (ok a, s)
  mapped f (err e, s) = (err (f e), s)
  mapped f (panic p, s) = (panic p, s)

  -- `if err != nil { return …, f(err) }`
  abbrev pub map_err : (Error → Error) → Prog S A → Prog S A
  map_err f m s = mapped f (m s)

-- The rest of a function runs where a call returned no error.
abbrev pub continue : {S A B : Type 0} → (A → Prog S B) → Outcome A × S → Outcome B × S
continue f (ok a, s) = f a s
continue f (err e, s) = (err e, s)
continue f (panic p, s) = (panic p, s)

infixl 5 ◌>>=◌ ◌>>◌
abbrev pub ◌>>=◌ : {S A B : Type 0} → Prog S A → (A → Prog S B) → Prog S B
◌>>=◌ m f s = continue f (m s)

abbrev pub ◌>>◌ : {S A B : Type 0} → Prog S A → Prog S B → Prog S B
m >> k = m >>= λ _. k

abbrev pub modify : {S : Type 0} → (S → S) → Prog S (Unit {0})
modify f s = (ok tt, f s)

-- `if c { return …, e }`
abbrev pub reject_if : {S : Type 0} → Bool → Error → Prog S (Unit {0})
reject_if c e s = (if c then err e else ok tt, s)

-- A signed machine integer; `negsuc n` is -(n + 1).
pub data ℤ : Type 0 where
  pos : ℕ → ℤ
  negsuc : ℕ → ℤ

-- `int32(n)` for a length `n`.
abbrev pub int32 : ℕ → ℤ
int32 n = let m = n % 2 ^ 32 in if ltb m (2 ^ 31) then pos m else negsuc (2 ^ 32 - 1 - m)

-- ===== src/Repo/Tokens/Unique.antt =====
-- UNIQUE (token_hash) of refresh_tokens under the statements of
-- internal/repo/db/internal/sqlc/tokens.sql.go.
use gophkeeper.Base.{
  ◌≡◌, refl, ◌∙◌, Bool, Bool-cases, inl, inr, false, List, [], ◌∷◌, arith, bytes_eq,
}
use gophkeeper.Model.{Bytes}
use gophkeeper.Database.{RefreshToken, any, filter}
use gophkeeper.Sqlc.{SaveParams, upsert_token}

abbrev pub has_hash : Bytes → List RefreshToken → Bool
has_hash h ts = any (λ t. bytes_eq t.token_hash h) ts

-- UNIQUE (token_hash)
abbrev pub AreUnique : List RefreshToken → Type 0
AreUnique [] = Unit
AreUnique (t ∷ ts) = (has_hash t.token_hash ts ≡ false) × AreUnique ts

bytes_eq_comm : (xs ys : Bytes) → bytes_eq xs ys ≡ bytes_eq ys xs
bytes_eq_comm [] [] = refl
bytes_eq_comm [] (y ∷ ys) = refl
bytes_eq_comm (x ∷ xs) [] = refl
bytes_eq_comm (x ∷ xs) (y ∷ ys) = ground (arith, bytes_eq_comm xs ys)

-- a new row brings no hash but its own
has_hash-upsert_token :
    (p : SaveParams) (h : Bytes) (ts : List RefreshToken)
    → has_hash h ts ≡ false
    → bytes_eq p.token_hash h ≡ false
    → has_hash h (upsert_token p ts) ≡ false
has_hash-upsert_token p h [] q n = rw n refl
has_hash-upsert_token p h (t ∷ ts) q n = elim (Bool-cases (bytes_eq t.token_hash p.token_hash)) [
  | inl here ↦ rw here (ground (arith, q))
  | inr far ↦ rw far (ground (arith, q, has_hash-upsert_token p h ts, n))
]

pub upsert_token-AreUnique :
    (p : SaveParams) (ts : List RefreshToken) → AreUnique ts → AreUnique (upsert_token p ts)
upsert_token-AreUnique p [] q = (refl, tt)
upsert_token-AreUnique p (t ∷ ts) q = elim (Bool-cases (bytes_eq t.token_hash p.token_hash)) [
  | inl here ↦ rw here q
  | inr far ↦ rw far (
    has_hash-upsert_token p t.token_hash ts q.0 (bytes_eq_comm p.token_hash t.token_hash ∙ far),
    upsert_token-AreUnique p ts q.1,
  )
]

has_hash-filter :
    (keep : RefreshToken → Bool) (h : Bytes) (ts : List RefreshToken)
    → has_hash h ts ≡ false
    → has_hash h (filter keep ts) ≡ false
has_hash-filter keep h [] q = refl
has_hash-filter keep h (t ∷ ts) q = ground (arith, q, has_hash-filter keep h ts)

pub filter-AreUnique :
    (keep : RefreshToken → Bool) (ts : List RefreshToken)
    → AreUnique ts
    → AreUnique (filter keep ts)
filter-AreUnique keep [] q = tt
filter-AreUnique keep (t ∷ ts) q = elim (Bool-cases (keep t)) [
  | inl stays ↦ rw stays (has_hash-filter keep t.token_hash ts q.0, filter-AreUnique keep ts q.1)
  | inr goes ↦ rw goes (filter-AreUnique keep ts q.1)
]

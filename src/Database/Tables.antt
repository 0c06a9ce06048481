-- ===== src/Database/Tables.antt =====
-- Searches in the rows of a table, over the list functions that the statements use.
use gophkeeper.Base.{◌≡◌, Bool, Bool-cases, inl, inr, true, false, some, List, [], ◌∷◌, ◌++◌, arith}
use gophkeeper.Database.{any, find, filter}

pub any_last {ℓ} :
    {A : Type ℓ} (p : A → Bool) (xs : List A) (x : A) → p x ≡ true → any p (xs ++ x ∷ []) ≡ true
any_last p [] x h = rw h
any_last p (y ∷ ys) x h = ground (arith, any_last p ys x h)

pub find_last {ℓ} :
    {A : Type ℓ} (p : A → Bool) (xs : List A) (x : A)
    → any p xs ≡ false
    → p x ≡ true
    → find p (xs ++ x ∷ []) ≡ some x
find_last p [] x h q = rw q
find_last p (y ∷ ys) x h q = ground (arith, find_last p ys x, h)

pub none_of {ℓ} :
    {A : Type ℓ} (p : A → Bool) (x : A) (xs : List A)
    → any p (x ∷ xs) ≡ false
    → (p x ≡ false) × (any p xs ≡ false)
none_of p x xs h = ground arith

pub any_filtered {ℓ} :
    {A : Type ℓ} (p q : A → Bool) (xs : List A) (y : A)
    → filter p xs ≡ y ∷ []
    → q y ≡ true
    → any q xs ≡ true
any_filtered p q [] y h t = cc
any_filtered p q (x ∷ xs) y h t = elim (Bool-cases (p x)) [
  | inl here ↦ ground (arith, h, here, t)
  | inr other ↦ ground (arith, h, other, any_filtered p q xs y, t)
]

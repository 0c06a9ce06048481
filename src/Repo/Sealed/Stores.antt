-- ===== src/Repo/Sealed/Stores.antt =====
-- What `Put` of internal/repo/db/sealed_repo.go stores, and what it drops.
use gophkeeper.Base.{
  ℕ, zero, suc, ◌+◌, ◌-◌, ◌<◌, ◌≡◌, refl, ap, ◌∙◌, Bool, true, false, Option, some, [], ◌∷◌, length,
  take, drop, arith, Bool-cases, inl, inr, ◌⊎◌, if◌then◌else◌,
}
use gophkeeper.Base.Go.{
  Error, eof, errors_is, Outcome, ok, err, panic, Prog, pos, mapped, continue, map_err, fail, ◌>>=◌,
}
use gophkeeper.Model.{Bytes}
use gophkeeper.Database.{Uuid, Database, Server}
use gophkeeper.Repo.Sealed.{
  Upload, in_tx, executed, store_chunk, put_helper, put_loop, looped, read_from, is_eof,
}

pub List-cases : (l : Bytes) → (l ≡ []) ⊎ ((b : ℕ) × (bs : Bytes) × (l ≡ b ∷ bs))
List-cases [] = inl refl
List-cases (b ∷ bs) = inr (b, bs, refl)

module _ (srv : Server) (generate_sha256 : Bytes → Bytes) where
  -- code that leaves the reader alone
  pub record Leaves {A : Type 0} (m : Prog Upload A) : Type 0 where
    pub at : (u : Upload) → (m u).1.rest ≡ u.rest

  rest-executed :
      {A : Type 0} (u : Upload) (r : Outcome A × Database) → (executed u r).1.rest ≡ u.rest
  rest-executed u (ok a, d) = refl
  rest-executed u (err e, d) = refl
  rest-executed u (panic p, d) = refl

  rest-if :
      {A : Type 0} (b : Bool) (x y : Outcome A × Upload) (bs : Bytes)
      → x.1.rest ≡ bs
      → y.1.rest ≡ bs
      → (if b then x else y).1.rest ≡ bs
  rest-if true x y bs h k = h
  rest-if false x y bs h k = k

  Leaves-in_tx : {A : Type 0} (st : Prog Database A) → Leaves (in_tx st)
  Leaves-in_tx st = record {
    at = λ u. rest-if u.tx.aborted _ _ u.rest refl (rest-executed u (st u.tx.db));
  }

  rest-mapped :
      {A : Type 0} (f : Error → Error) (r : Outcome A × Upload) → (mapped f r).1.rest ≡ r.1.rest
  rest-mapped f (ok a, u) = refl
  rest-mapped f (err e, u) = refl
  rest-mapped f (panic p, u) = refl

  Leaves-map_err :
      {A : Type 0} (f : Error → Error) (m : Prog Upload A) → Leaves m → Leaves (map_err f m)
  Leaves-map_err f m h = record { at = λ u. rest-mapped f (m u) ∙ h.at u }

  rest-continue :
      {A B : Type 0} (f : A → Prog Upload B) (r : Outcome A × Upload)
      → ((a : A) → Leaves (f a))
      → (continue f r).1.rest ≡ r.1.rest
  rest-continue f (ok a, u) h = (h a).at u
  rest-continue f (err c, u) h = refl
  rest-continue f (panic p, u) h = refl

  Leaves-bind :
      {A B : Type 0} (m : Prog Upload A) (f : A → Prog Upload B)
      → Leaves m
      → ((a : A) → Leaves (f a))
      → Leaves (m >>= f)
  Leaves-bind m f h k = record { at = λ u. rest-continue f (m u) k ∙ h.at u }

  Leaves-if :
      {A : Type 0} (b : Bool) (m n : Prog Upload A)
      → Leaves m
      → Leaves n
      → Leaves (if b then m else n)
  Leaves-if true m n h k = h
  Leaves-if false m n h k = k

  Leaves-fail : {A : Type 0} (e : Error) → Leaves (fail {A = A} e)
  Leaves-fail e = record { at = λ u. refl }

  pub store_chunk-Leaves :
      (idx n : ℕ) (id : Uuid) (sha sealed : Bytes)
      → Leaves (store_chunk srv generate_sha256 idx n id sha sealed)
  store_chunk-Leaves idx n id sha sealed =
      search (Leaves-if, Leaves-bind, Leaves-map_err, Leaves-in_tx, Leaves-fail)

  pub length-drop : (n : ℕ) (bs : Bytes) → length (drop n bs) ≡ length bs - n
  length-drop zero bs = omega arith
  length-drop (suc n) [] = omega arith
  length-drop (suc n) (b ∷ bs) = omega (arith, length-drop n bs)

  abbrev Ends : Option (Outcome (Unit {0}) × Upload) → Type 0
  Ends o = (r : Outcome (Unit {0}) × Upload) × (o ≡ some r)

  looped-Ends :
      (again : Upload → Option (Outcome (Unit {0}) × Upload)) (r : Outcome (Unit {0}) × Upload)
      → ((u : Upload) → u.rest ≡ r.1.rest → Ends (again u))
      → Ends (looped srv generate_sha256 again r)
  looped-Ends again (ok x, u) h = h u refl
  looped-Ends again (err e, u) h = elim (Bool-cases (errors_is is_eof e)) [
    | inl over ↦ rw over ((ok tt, u), refl)
    | inr more ↦ rw more (h u refl)
  ]
  looped-Ends again (panic p, u) h = ((panic p, u), refl)

  pub put_helper-eof :
      (idx n : ℕ) (id : Uuid) (sha : Bytes) (u : Upload)
      → u.rest ≡ []
      → put_helper srv generate_sha256 idx (pos n) id sha u ≡ (err eof, u)
  unfolding put_helper
  put_helper-eof idx n id sha u h = rw h

  rest-read_from :
      (idx n : ℕ) (id : Uuid) (sha r : Bytes) (u : Upload)
      → u.rest ≡ r
      → (continue (store_chunk srv generate_sha256 idx n id sha) (read_from n r u)).1.rest
        ≡ drop n r
  rest-read_from idx zero id sha [] u h = h
  rest-read_from idx (suc n) id sha [] u h = h
  rest-read_from idx n id sha (b ∷ bs) u h =
      (store_chunk-Leaves idx n id sha (take n (b ∷ bs))).at (record u { rest = drop n (b ∷ bs) })

  pub rest-put_helper :
      (idx n : ℕ) (id : Uuid) (sha : Bytes) (u : Upload)
      → (put_helper srv generate_sha256 idx (pos n) id sha u).1.rest ≡ drop n u.rest
  unfolding put_helper
  rest-put_helper idx n id sha u = rest-read_from idx n id sha u.rest u refl

  -- The read loop of `Put` ends, whatever the data and whatever the statements answer, where the
  -- size is positive: fuel above the number of bytes that are left to read is enough.
  pub put_loop_total :
      (fuel idx n : ℕ) (id : Uuid) (sha : Bytes) (u : Upload)
      → 0 < n
      → length u.rest < fuel
      → (r : Outcome (Unit {0}) × Upload) × (put_loop srv generate_sha256 fuel idx (pos n) id sha u
          ≡ some r)
  unfolding put_loop
  put_loop_total zero idx n id sha u p h = absurd (omega arith)
  put_loop_total (suc fuel) idx n id sha u p h = elim (List-cases u.rest) [
    | inl done ↦ rw (put_helper-eof idx n id sha u done) ((ok tt, u), refl)
    | inr (b, bs, more) ↦
        looped-Ends (put_loop srv generate_sha256 fuel (idx + 1) (pos n) id sha)
          (put_helper srv generate_sha256 idx (pos n) id sha u)
          (λ w e. put_loop_total fuel (idx + 1) n id sha w p (
            omega (
              arith,
              ap (λ (l : Bytes). length l) e,
              ap (λ (l : Bytes). length l) (rest-put_helper idx n id sha u),
              length-drop n u.rest,
              ap (λ (l : Bytes). length l) more,
            )))
  ]

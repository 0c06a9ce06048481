-- ===== src/Repo/Sealed/Sizes.antt =====
-- `Put` of internal/repo/db/sealed_repo.go is given its size as an `int32`: what becomes of data
-- whose length does not fit.
use gophkeeper.Base.{
  ℕ, String, zero, suc, ◌+◌, ◌-◌, ◌%◌, ◌^◌, ◌<◌, ◌≤◌, ◌≡◌, ◌⊎◌, inl, inr, refl, ap, ◌∙◌, Bool, true,
  false, Option, none, some, ◌∷◌, length, take, drop, arith, ltb, Bool-cases, if◌then◌else◌,
}
use gophkeeper.Base.Go.{
  new, wrap, pg, errors_is, Outcome, ok, err, panic, Prog, pos, negsuc, int32, mapped, continue,
}
use gophkeeper.Model.{Bytes}
use gophkeeper.Database.{Uuid, Database, Server, ChunkManifest, round}
use gophkeeper.Sqlc
use gophkeeper.Repo.Sealed.{
  Upload, in_tx, executed, store_chunk, put_helper, put_loop, looped, is_eof,
}
use gophkeeper.Repo.Sealed.Stores.{List-cases, length-drop, put_helper-eof, rest-put_helper}

-- no panic, and no io.EOF, which ends the loop
abbrev IsQuiet : {A : Type 0} → Outcome A → Type 0
IsQuiet (ok a) = Unit
IsQuiet (err e) = errors_is is_eof e ≡ false
IsQuiet (panic p) = ⊥

record Quiet {A S : Type 0} (r : Outcome A × S) : Type 0 where
  at : IsQuiet r.0

Quiet-ok : {A S : Type 0} (a : A) (s : S) → Quiet (ok a, s)
Quiet-ok a s = record { at = tt }

Quiet-pg : {A S : Type 0} (code : String) (s : S) → Quiet {A = A} (err (pg code), s)
Quiet-pg code s = record { at = refl }

Quiet-new : {A S : Type 0} (text : String) (s : S) → Quiet {A = A} (err (new text), s)
Quiet-new text s = record { at = refl }

Quiet-if :
    {A S : Type 0} (b : Bool) (x y : Outcome A × S) → Quiet x → Quiet y → Quiet (if b then x else y)
Quiet-if true x y h k = h
Quiet-if false x y h k = k

Quiet-mapped :
    {A S : Type 0} (text : String) (r : Outcome A × S) → Quiet r → Quiet (mapped (wrap text) r)
Quiet-mapped text (ok a, s) h = record { at = tt }
Quiet-mapped text (err e, s) h = record { at = h.at }
Quiet-mapped text (panic p, s) h = record { at = h.at }

Quiet-continue :
    {A B S : Type 0} (f : A → Prog S B) (r : Outcome A × S)
    → Quiet r
    → ((a : A) (s : S) → Quiet (f a s))
    → Quiet (continue f r)
Quiet-continue f (ok a, s) h k = k a s
Quiet-continue f (err e, s) h k = record { at = h.at }
Quiet-continue f (panic p, s) h k = absurd h.at

Quiet-executed :
    {A : Type 0} (u : Upload) (r : Outcome A × Database) → Quiet r → Quiet (executed u r)
Quiet-executed u (ok a, d) h = record { at = tt }
Quiet-executed u (err e, d) h = record { at = h.at }
Quiet-executed u (panic p, d) h = record { at = h.at }

Quiet-in_tx :
    {A : Type 0} (st : Prog Database A) (u : Upload)
    → ((d : Database) → Quiet (st d))
    → Quiet (in_tx st u)
Quiet-in_tx st u h =
    Quiet-if u.tx.aborted _ _ (record { at = refl }) (Quiet-executed u (st u.tx.db) (h u.tx.db))

-- the three ways of the loop, by what is left of the length in 32 bits
abbrev pub Sized : ℕ → Upload → Option (Outcome (Unit {0}) × Upload) → Type 0
Sized n u r =
    ((0 < n) × (n < 2 ^ 31) × (w : Upload) × (r ≡ some (ok tt, w)))
    ⊎ ((2 ^ 31 ≤ n) × (r ≡ some (panic "makeslice: len out of range", u)))
    ⊎ ((n ≡ 0) × (r ≡ none))

module _ (srv : Server) (generate_sha256 : Bytes → Bytes)
    (answers : (k : ℕ) → srv.fault k ≡ none) where
  Quiet-round :
      {A : Type 0} (st : Prog Database A) (d : Database)
      → ((w : Database) → Quiet (st w))
      → Quiet (round srv st d)
  Quiet-round st d h = rw (answers d.rounds) (h (record d { rounds = d.rounds + 1 }))

  insert_blob-Quiet :
      (id : Uuid) (sealed : Bytes) (d : Database) → Quiet (Sqlc.insert_blob srv id sealed d)
  unfolding Sqlc.insert_blob
  insert_blob-Quiet id sealed d = search (Quiet-round, Quiet-if, Quiet-pg, Quiet-ok)

  put_manifest-Quiet : (c : ChunkManifest) (d : Database) → Quiet (Sqlc.put_manifest srv c d)
  unfolding Sqlc.put_manifest
  put_manifest-Quiet c d = search (Quiet-round, Quiet-if, Quiet-pg, Quiet-ok)

  Quiet-if_at :
      {A : Type 0} (b : Bool) (m n : Prog Upload A) (u : Upload)
      → Quiet (m u)
      → Quiet (n u)
      → Quiet ((if b then m else n) u)
  Quiet-if_at true m n u h k = h
  Quiet-if_at false m n u h k = k

  store_chunk-Quiet :
      (idx n : ℕ) (id : Uuid) (sha sealed : Bytes) (u : Upload)
      → Quiet (store_chunk srv generate_sha256 idx n id sha sealed u)
  store_chunk-Quiet idx n id sha sealed u = search (
    Quiet-if_at, Quiet-continue, Quiet-mapped, Quiet-in_tx, insert_blob-Quiet, put_manifest-Quiet,
    Quiet-new,
  )

  -- a chunk that is not empty
  put_helper-Quiet :
      (idx n b : ℕ) (bs : Bytes) (id : Uuid) (sha : Bytes) (u : Upload)
      → u.rest ≡ b ∷ bs
      → Quiet (put_helper srv generate_sha256 idx (pos n) id sha u)
  unfolding put_helper
  put_helper-Quiet idx n b bs id sha u h =
      rw h (store_chunk-Quiet idx n id sha (take n (b ∷ bs)) (record u { rest = drop n (b ∷ bs) }))

  -- a quiet round, and the loop goes on
  looped-Quiet :
      (again : Upload → Option (Outcome (Unit {0}) × Upload)) (r : Outcome (Unit {0}) × Upload)
      → Quiet r
      → looped srv generate_sha256 again r ≡ again r.1
  looped-Quiet again (ok x, u) h = refl
  looped-Quiet again (err e, u) h = rw h.at refl
  looped-Quiet again (panic p, u) h = absurd h.at

  put_loop-round :
      (fuel idx n b : ℕ) (bs : Bytes) (id : Uuid) (sha : Bytes) (u : Upload)
      → u.rest ≡ b ∷ bs
      → (w : Upload) × (w.rest ≡ drop n u.rest)
        × (put_loop srv generate_sha256 (suc fuel) idx (pos n) id sha u
            ≡ put_loop srv generate_sha256 fuel (idx + 1) (pos n) id sha w)
  unfolding put_loop
  put_loop-round fuel idx n b bs id sha u h = (
    (put_helper srv generate_sha256 idx (pos n) id sha u).1,
    rest-put_helper srv generate_sha256 idx n id sha u,
    looped-Quiet _ _ (put_helper-Quiet idx n b bs id sha u h),
  )

  -- with a positive size the loop comes to the end of the data, and to no panic
  loop_ends :
      (fuel idx n : ℕ) (id : Uuid) (sha : Bytes) (u : Upload)
      → 0 < n
      → length u.rest < fuel
      → (w : Upload) × (put_loop srv generate_sha256 fuel idx (pos n) id sha u ≡ some (ok tt, w))
  unfolding put_loop
  loop_ends zero idx n id sha u p h = absurd (omega arith)
  loop_ends (suc fuel) idx n id sha u p h = elim (List-cases u.rest) [
    | inl done ↦ rw (put_helper-eof srv generate_sha256 idx n id sha u done) (u, refl)
    | inr (b, bs, more) ↦
        let (w, rest, e) = put_loop-round fuel idx n b bs id sha u more in
        let shorter : length w.rest < fuel = omega (
          arith,
          ap (λ (l : Bytes). length l) rest,
          length-drop srv generate_sha256 n u.rest,
          ap (λ (l : Bytes). length l) more,
        ) in
        let (v, f) = loop_ends fuel (idx + 1) n id sha w p shorter in (v, e ∙ f)
  ]

  -- with size 0 no round reads anything
  loop_stays :
      (fuel idx b : ℕ) (bs : Bytes) (id : Uuid) (sha : Bytes) (u : Upload)
      → u.rest ≡ b ∷ bs
      → put_loop srv generate_sha256 fuel idx (pos 0) id sha u ≡ none
  unfolding put_loop
  loop_stays zero idx b bs id sha u more = refl
  loop_stays (suc fuel) idx b bs id sha u more =
      let (w, rest, e) = put_loop-round fuel idx 0 b bs id sha u more in
      e ∙ loop_stays fuel (idx + 1) b bs id sha w (rest ∙ more)

  sized :
      (fuel n b : ℕ) (bs : Bytes) (id : Uuid) (sha : Bytes) (u : Upload)
      → u.rest ≡ b ∷ bs
      → length u.rest < fuel
      → Sized n u (
          put_loop srv generate_sha256 fuel 0
            (if ltb n (2 ^ 31) then pos n else negsuc (2 ^ 32 - 1 - n))
            id
            sha
            u)
  unfolding put_loop put_helper
  sized zero n b bs id sha u more enough = absurd (omega arith)
  sized (suc fuel) zero b bs id sha u more enough =
      inr (inr (refl, loop_stays (suc fuel) 0 b bs id sha u more))
  sized (suc fuel) (suc n) b bs id sha u more enough = elim (Bool-cases (ltb (suc n) (2 ^ 31))) [
    | inl fits ↦
        let (w, e) = loop_ends (suc fuel) 0 (suc n) id sha u (omega arith) enough in
        rw fits (inl (omega arith, ground (arith, fits), w, e))
    | inr large ↦ rw large (inr (inl (ground (arith, large), refl)))
  ]

  -- `AddSealed` passes the length of the data as an `int32`. Where the server answers, the read
  -- loop of Put, on data that is not empty and with more fuel than bytes: comes to its end without
  -- an error where the length modulo 2 ^ 32 is between 0 and 2 ^ 31; panics in `make` from 2 ^ 31
  -- on, with nothing stored; and has not ended where that is 0, whatever the fuel.
  pub put_loop-int32 :
      (fuel b : ℕ) (bs : Bytes) (id : Uuid) (sha : Bytes) (u : Upload)
      → u.rest ≡ b ∷ bs
      → length u.rest < fuel
      → Sized
          (length u.rest % 2 ^ 32)
          u
          (put_loop srv generate_sha256 fuel 0 (int32 (length u.rest)) id sha u)
  put_loop-int32 fuel b bs id sha u more enough =
      sized fuel (length u.rest % 2 ^ 32) b bs id sha u more enough

-- ===== src/Hash/Malformed.antt =====
-- What CompareHashAndPassword of pkg/hash/hash.go does with a text of too few parts.
use gophkeeper.Base.{
  ℕ, zero, suc, ◌≤◌, ◌≡◌, ◌⊎◌, inl, inr, refl, String, List, [], ◌∷◌, length, arith,
}
use gophkeeper.Base.Go.{Outcome, ok, panic}
use gophkeeper.Base.Results.{◌>>=◌}
use gophkeeper.Base.Texts.{split, trim_prefix}
use gophkeeper.Hash.Compare.{alg_version, compare, compare_parts}
use gophkeeper.Hash.Phc.{part, out_of_range, atoi}
use gophkeeper.Base.Go.{pos}
use gophkeeper.Model.{Bytes}

part_missing : (parts : List String) (i : ℕ) → length parts ≤ i → part parts i ≡ panic out_of_range
part_missing [] i h = refl
part_missing (p ∷ ps) zero h = absurd (omega arith)
part_missing (p ∷ ps) (suc i) h = part_missing ps i (omega (arith, h))

missing_sixth :
    (parts : List String) (rest : String → String → String → Outcome (Unit {0}))
    → length parts ≤ 5
    → (part parts 3 >>= λ a. part parts 4 >>= λ b. part parts 5 >>= λ c. rest a b c)
      ≡ panic out_of_range
missing_sixth [] rest h = refl
missing_sixth (a ∷ []) rest h = refl
missing_sixth (a ∷ b ∷ []) rest h = refl
missing_sixth (a ∷ b ∷ c ∷ []) rest h = refl
missing_sixth (a ∷ b ∷ c ∷ d ∷ []) rest h = refl
missing_sixth (a ∷ b ∷ c ∷ d ∷ e ∷ []) rest h = refl
missing_sixth (a ∷ b ∷ c ∷ d ∷ e ∷ f ∷ ps) rest h = absurd (omega arith)

module _ (id_key : Bytes → Bytes → ℕ → ℕ → ℕ → ℕ → Outcome Bytes) where
  versioned :
      (parts : List String) (version : String) (password : Bytes)
      → part parts 2 ≡ ok version
      → atoi (trim_prefix version "v=") ≡ ok (pos alg_version)
      → length parts ≤ 5
      → compare_parts id_key parts password ≡ panic out_of_range
  unfolding compare_parts
  versioned parts version password e v h = rw e (rw v (missing_sixth parts _ h))

  -- A stored text with fewer than three parts between dollar signs makes the comparison panic,
  -- whatever the password; so does one with the right version and fewer than six parts. The number
  -- of parts is never tested.
  pub compare_panics :
      (phc version : String) (password : Bytes)
      → (length (split b'$' phc) ≤ 2)
        ⊎ ((part (split b'$' phc) 2 ≡ ok version)
            × (atoi (trim_prefix version "v=") ≡ ok (pos alg_version))
            × (length (split b'$' phc) ≤ 5))
      → compare id_key phc password ≡ panic out_of_range
  unfolding compare compare_parts
  compare_panics phc version password (inl h) = rw (part_missing (split b'$' phc) 2 h) refl
  compare_panics phc version password (inr (e, v, h)) =
      versioned (split b'$' phc) version password e v h

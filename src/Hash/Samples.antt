-- ===== src/Hash/Samples.antt =====
-- Cryptographic functions for the tests: a key derivation that copies the password's length into
-- one byte, zeros for randomness.
use gophkeeper.Base.{ℕ, zero, suc, ◌<◌, ◌≡◌, refl, ap, subst, [], ◌∷◌, length, arith}
use gophkeeper.Base.Base64.{AreBelow}
use gophkeeper.Base.Go.{Outcome, ok, pure}
use gophkeeper.Hash.{Crypto}
use gophkeeper.Hash.RoundTrip.{IsCrypto}
use gophkeeper.Model.{Bytes}

abbrev zeros : ℕ → Bytes
zeros zero = []
zeros (suc n) = 0 ∷ zeros n

-- one byte that tells passwords by their length, and zeros
abbrev low_byte : ℕ → ℕ
low_byte zero = 0
low_byte (suc n) = 1

abbrev key_of : Bytes → ℕ → Bytes
key_of password zero = []
key_of password (suc n) = low_byte (length password) ∷ zeros n

abbrev pub id_key : Bytes → Bytes → ℕ → ℕ → ℕ → ℕ → Outcome Bytes
id_key password salt t m p n = ok (key_of password n)

abbrev pub crypto : {S : Type 0} → Crypto S
crypto = record {
  hmac_sha256 = λ key b. b;
  sha256 = λ b. b;
  rand_read = λ n. pure (zeros n);
  id_key = id_key;
}

zeros_lem : (n : ℕ) → AreBelow 256 (zeros n) × (length (zeros n) ≡ n)
zeros_lem zero = (tt, refl)
zeros_lem (suc n) = ((omega arith, (zeros_lem n).0), omega (arith, (zeros_lem n).1))

low_byte-lt : (n : ℕ) → low_byte n < 256
low_byte-lt zero = omega arith
low_byte-lt (suc n) = omega arith

key_of_lem :
    (password : Bytes) (n : ℕ) → AreBelow 256 (key_of password n) × (length (key_of password n) ≡ n)
key_of_lem password zero = (tt, refl)
key_of_lem password (suc n) =
    ((low_byte-lt (length password), (zeros_lem n).0), omega (arith, (zeros_lem n).1))

bytes_of : Outcome Bytes → Bytes
bytes_of (ok b) = b
bytes_of _ = []

pub crypto-IsCrypto : {S : Type 0} → IsCrypto (crypto {S = S})
unfolding bytes_of
crypto-IsCrypto {S} = record {
  random = λ n s t salt h.
      subst (AreBelow 256) (ap (λ (r : Outcome Bytes × S). bytes_of r.0) h) (zeros_lem n).0;
  keys = λ password salt key t m p n h.
      subst (λ b. AreBelow 256 b × (length b ≡ n)) (ap bytes_of h) (key_of_lem password n);
}

-- ===== src/Hash/Tests.antt =====
-- The hashing theorems with a key derivation that copies the password's first bytes.
use gophkeeper.Base.{ℕ, ◌≡◌, inr, ◌↔◌, refl, String, [], ◌∷◌, some, arith}
use gophkeeper.Base.Base64.{decode_string}
use gophkeeper.Base.Go.{new, ok, err, panic}
use gophkeeper.Base.Texts.{split}
use gophkeeper.Hash.{
  time_cost, memory_cost, threads, key_len, generate_from_password, compare_hash_and_password,
}
use gophkeeper.Hash.Compare.{alg_version, compare}
use gophkeeper.Hash.Malformed.{compare_panics}
use gophkeeper.Hash.Phc.{generate_phc, atoi, out_of_range}
use gophkeeper.Hash.RoundTrip.{compare-generate_from_password}
use gophkeeper.Model.{Bytes}
use gophkeeper.Hash.Samples.{id_key, crypto, crypto-IsCrypto}

phc_text :
    generate_phc (1 ∷ 2 ∷ 3 ∷ []) (255 ∷ 254 ∷ []) alg_version time_cost memory_cost threads
    ≡ "$argon2id$v=19$m=65536,t=2,p=1$//4$AQID"
unfolding generate_phc
phc_text = refl

base64_run : decode_string "AQI\nD" ≡ some (1 ∷ 2 ∷ 3 ∷ [])
unfolding decode_string
base64_run = refl

wrong_password :
    compare_hash_and_password (crypto {S = ℕ}) "$argon2id$v=19$m=65536,t=2,p=1$//4$AQID" (1 ∷ [])
    ≡ err (new "password is incorrect")
unfolding compare_hash_and_password
wrong_password = refl

abbrev stored : String
stored =
    "$argon2id$v=19$m=2,t=65536,p=1$AAAAAAAAAAAAAAAAAAAAAAAAAAAAAAAAAAAAAAAAAAA$AQAAAAAAAAAAAAAAAAAAAAAAAAAAAAAAAAAAAAAAAAA"

compare-generate_from_password_example :
    (salt : Bytes) × (key : Bytes) × (id_key (4 ∷ []) salt time_cost memory_cost threads key_len
      ≡ ok key)
    × ((other : Bytes)
        → (compare_hash_and_password (crypto {S = ℕ}) stored other ≡ ok tt)
          ↔ (id_key other salt memory_cost time_cost threads key_len ≡ ok key))
unfolding generate_from_password
compare-generate_from_password_example =
    compare-generate_from_password {S = ℕ} crypto crypto-IsCrypto (4 ∷ []) 0 0 stored refl

compare_panics_example :
    compare id_key "$argon2id$v=19$m=65536,t=2,p=1" (4 ∷ []) ≡ panic out_of_range
unfolding split atoi
compare_panics_example =
    compare_panics id_key "$argon2id$v=19$m=65536,t=2,p=1" "v=19" (4 ∷ [])
      (inr (refl, refl, omega arith))

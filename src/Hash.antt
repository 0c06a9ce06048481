-- ===== src/Hash.antt =====
-- pkg/hash/hash.go: random bytes, keyed hashes of logins, and password hashes.
pub mod Phc
pub mod Compare
pub mod Scans
pub mod RoundTrip
pub mod Malformed
pub mod Samples
mod Tests
use gophkeeper.Base.{ℕ, ◌*◌, String}
use gophkeeper.Base.Go.{wrap, Outcome, Prog, pure, lift, map_err, ◌>>=◌}
use gophkeeper.Hash.Compare
use gophkeeper.Hash.Compare.{alg_version}
use gophkeeper.Hash.Phc.{generate_phc}
use gophkeeper.Model.{Bytes}

abbrev pub time_cost : ℕ
time_cost = 2

abbrev pub memory_cost : ℕ
memory_cost = 64 * 1024

abbrev pub threads : ℕ
threads = 1

abbrev pub key_len : ℕ
key_len = 32

abbrev pub salt_size : ℕ
salt_size = 32

-- The cryptographic functions that the package calls: HMAC and SHA-256, `rand.Read` into a new
-- buffer, and `argon2.IDKey`, which panics at costs out of its range.
pub record Crypto (S : Type 0) : Type 0 where
  pub hmac_sha256 : Bytes → Bytes → Bytes
  pub sha256 : Bytes → Bytes
  pub rand_read : ℕ → Prog S Bytes
  pub id_key : Bytes → Bytes → ℕ → ℕ → ℕ → ℕ → Outcome Bytes

module _ {S : Type 0} (crypto : Crypto S) where
  unfoldable pub generate_hmac : Bytes → Bytes → Bytes
  generate_hmac data' secret = crypto.hmac_sha256 secret data'

  unfoldable pub generate_sha256 : Bytes → Bytes
  generate_sha256 data' = crypto.sha256 data'

  unfoldable pub generate_random : ℕ → Prog S Bytes
  generate_random size = map_err (wrap "failed to generate random") (crypto.rand_read size)

  -- The costs are handed to GeneratePHC the other way round than it declares them.
  unfoldable pub generate_from_password : Bytes → Prog S String
  unfolding generate_random generate_phc
  generate_from_password password = do
    salt ← map_err (wrap "failed to generate salt") (generate_random salt_size)
    hash ← lift (crypto.id_key password salt time_cost memory_cost threads key_len)
    pure (generate_phc hash salt alg_version memory_cost time_cost threads)

  unfoldable pub compare_hash_and_password : String → Bytes → Outcome (Unit {0})
  unfolding Compare.compare
  compare_hash_and_password phc password = Compare.compare crypto.id_key phc password

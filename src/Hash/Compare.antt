-- ===== src/Hash/Compare.antt =====
-- `CompareHashAndPassword` of pkg/hash/hash.go.
use Prim.Native.String.{◌++◌}
use gophkeeper.Base.{
  ℕ, suc, ◌%◌, ◌^◌, String, Bool, false, List, length, ◌==◌, bytes_eq, if◌then◌else◌,
}
use gophkeeper.Base.Base64.{decode_string}
use gophkeeper.Base.Go.{Error, new, wrap, Outcome, ok, err, ℤ, pos, negsuc}
use gophkeeper.Base.Results.{◌>>=◌, ◌>>◌, with_err, or_err}
use gophkeeper.Base.Texts.{split, trim_prefix, itoa}
use gophkeeper.Hash.Phc.{part, atoi, scan_costs}
use gophkeeper.Model.{Bytes}

-- `argon2.Version`
abbrev pub alg_version : ℕ
alg_version = 19

abbrev shown : ℤ → String
shown (pos n) = itoa 20 n
shown (negsuc n) = "-" ++ itoa 20 (suc n)

abbrev is_version : ℤ → Bool
is_version (pos n) = n == alg_version
is_version (negsuc n) = false

abbrev pub check_version : ℤ → Outcome (Unit {0})
check_version v =
    if is_version v
    then ok tt
    else err
        (new ("argon2 version mismatch: have " ++ (shown v ++ (" want " ++ itoa 20 alg_version))))

-- `subtle.ConstantTimeCompare`
abbrev pub same_hash : Bytes → Bytes → Outcome (Unit {0})
same_hash computed hash =
    if bytes_eq computed hash then ok tt else err (new "password is incorrect")

abbrev pub illegal_base64 : Error
illegal_base64 = new "illegal base64 data"

-- `id_key` is `argon2.IDKey`
module _ (id_key : Bytes → Bytes → ℕ → ℕ → ℕ → ℕ → Outcome Bytes) where
  -- what follows once the text is split
  unfoldable pub compare_parts : List String → Bytes → Outcome (Unit {0})
  unfolding atoi scan_costs decode_string
  compare_parts parts password = do
    version_str ← part parts 2
    version ← with_err (wrap "parse PHC argon2 version") (atoi (trim_prefix version_str "v="))
    check_version version
    params ← part parts 3
    salt_base64 ← part parts 4
    hash_base64 ← part parts 5
    costs ← with_err (wrap "parse PHC parameters") (scan_costs params)
    salt ← with_err (wrap "salt base64.Decode") (or_err illegal_base64 (decode_string salt_base64))
    hash ← with_err (wrap "hash base64.Decode") (or_err illegal_base64 (decode_string hash_base64))
    computed ← id_key password salt costs.time costs.memory costs.threads (length hash % 2 ^ 32)
    same_hash computed hash

  unfoldable pub compare : String → Bytes → Outcome (Unit {0})
  unfolding split compare_parts
  compare phc password = compare_parts (split b'$' phc) password

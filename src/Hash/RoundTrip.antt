-- ===== src/Hash/RoundTrip.antt =====
-- What CompareHashAndPassword of pkg/hash/hash.go makes of the texts that GeneratePHC and
-- GenerateFromPassword write.
use Prim.Native.String.{◌++◌}
use text.Mathlib.TextLemmas.{nil-append, cons-append}
use gophkeeper.Base.{
  ℕ, ◌%◌, ◌^◌, ◌<◌, ◌≡◌, ◌≢◌, ◌↔◌, refl, sym, ap, ◌∙◌, String, true, false, Bool-cases, inl, inr,
  List, [], ◌∷◌, length, bytes_eq, bytes_eq_refl, bytes_eq_sound, arith,
}
use gophkeeper.Base.Base64.{
  AreBelow, encode_to_string, decode_string-encode_to_string, encode_to_string-Free,
}
use gophkeeper.Base.Go.{Error, Outcome, ok, err, panic, Prog, mapped, continue}
use gophkeeper.Base.Results.{◌>>=◌}
use gophkeeper.Base.Runs.{ran, unmapped}
use gophkeeper.Base.Texts.{pick, itoa, split}
use gophkeeper.Base.Texts.Laws.{
  passes, Free, no_digit, split_part, split_last, append-Free, itoa-Free,
}
use gophkeeper.Hash
use gophkeeper.Hash.{
  Crypto, time_cost, memory_cost, threads, key_len, salt_size, generate_from_password,
  compare_hash_and_password,
}
use gophkeeper.Hash.Compare.{alg_version, same_hash, compare, compare_parts}
use gophkeeper.Hash.Phc.{generate_phc}
use gophkeeper.Hash.Scans.{printed, scan_costs-printed}
use gophkeeper.Model.{Bytes}

split_dollar : (s t : String) → Free b'$' s → split b'$' (s ++ ("$" ++ t)) ≡ s ∷ split b'$' t
unfolding pick
split_dollar s t h =
    let dollar = pick "$" 0 in
    ap (λ (u : String). split b'$' (s ++ u))
      (cons-append dollar "" t ∙ ap (String.◌∷◌ dollar) (nil-append t))
    ∙ split_part b'$' s t dollar h refl

dollar_no_digit : no_digit b'$' ≡ true
unfolding passes pick
dollar_no_digit = refl

printed-Free : (m t p : ℕ) → Free b'$' (printed m t p)
printed-Free m t p =
    let number = λ (n : ℕ). itoa-Free b'$' 20 n dollar_no_digit in
    append-Free b'$' "m=" _ (refl, (refl, tt))
      (append-Free b'$' (itoa 20 m) _ (number m) (
        append-Free b'$' ",t=" _ (refl, (refl, (refl, tt)))
          (append-Free b'$' (itoa 20 t) _ (number t)
            (append-Free b'$' ",p=" (itoa 20 p) (refl, (refl, (refl, tt))) (number p)))))

-- the six parts of the text
split-generate_phc :
    (hash salt : Bytes) (m t p : ℕ)
    → AreBelow 256 hash
    → AreBelow 256 salt
    → split b'$' (generate_phc hash salt alg_version t m p)
      ≡ ""
        ∷ "argon2id"
        ∷ "v=19"
        ∷ printed m t p
        ∷ encode_to_string salt
        ∷ encode_to_string hash
        ∷ []
unfolding generate_phc
split-generate_phc hash salt m t p hh hs =
    let hash_text = encode_to_string hash in
    let salt_text = encode_to_string salt in
    let t₃ = salt_text ++ ("$" ++ hash_text) in
    let t₂ = printed m t p ++ ("$" ++ t₃) in
    let t₁ = "v=19" ++ ("$" ++ t₂) in
    let t₀ = "argon2id" ++ ("$" ++ t₁) in
    ap (split b'$') (sym (nil-append ("$" ++ t₀)))
    ∙ split_dollar "" t₀ tt
    ∙ ap (λ (l : List String). "" ∷ l)
        (split_dollar "argon2id" t₁
            (refl, (refl, (refl, (refl, (refl, (refl, (refl, (refl, tt))))))))
          ∙ ap (λ (l : List String). "argon2id" ∷ l)
              (split_dollar "v=19" t₂ (refl, (refl, (refl, (refl, tt))))
                ∙ ap (λ (l : List String). "v=19" ∷ l)
                    (split_dollar (printed m t p) t₃ (printed-Free m t p)
                      ∙ ap (λ (l : List String). printed m t p ∷ l)
                          (split_dollar salt_text hash_text (encode_to_string-Free salt hs)
                            ∙ ap (λ (l : List String). salt_text ∷ l)
                                (split_last b'$' hash_text (encode_to_string-Free hash hh))))))

module _ (id_key : Bytes → Bytes → ℕ → ℕ → ℕ → ℕ → Outcome Bytes) where
  compare_parts-printed :
      (hash salt password : Bytes) (m t p : ℕ)
      → AreBelow 256 hash
      → AreBelow 256 salt
      → m < 2 ^ 32
      → t < 2 ^ 32
      → p < 2 ^ 8
      → compare_parts id_key
          (""
            ∷ "argon2id"
            ∷ "v=19"
            ∷ printed m t p
            ∷ encode_to_string salt
            ∷ encode_to_string hash
            ∷ [])
          password
        ≡ (id_key password salt t m p (length hash % 2 ^ 32) >>= λ computed.
            same_hash computed hash)
  unfolding compare_parts
  compare_parts-printed hash salt password m t p hh hs hm ht hp =
      rw (scan_costs-printed m t p hm ht hp) (
        rw (decode_string-encode_to_string salt hs)
          (rw (decode_string-encode_to_string hash hh) refl))

  -- A text that GeneratePHC made of bytes and of costs in their ranges, under argon2's version, is
  -- compared with a password by running argon2 on the password with that salt and these costs, for
  -- as many bytes as the hash has, and by comparing the result with the hash.
  pub compare-generate_phc :
      (hash salt password : Bytes) (m t p : ℕ)
      → AreBelow 256 hash
      → AreBelow 256 salt
      → m < 2 ^ 32
      → t < 2 ^ 32
      → p < 2 ^ 8
      → compare id_key (generate_phc hash salt alg_version t m p) password ≡ (
          id_key password salt t m p (length hash % 2 ^ 32) >>= λ computed. same_hash computed hash)
  unfolding compare
  compare-generate_phc hash salt password m t p hh hs hm ht hp =
      ap (λ (parts : List String). compare_parts id_key parts password)
        (split-generate_phc hash salt m t p hh hs)
      ∙ compare_parts-printed hash salt password m t p hh hs hm ht hp

-- What the cryptographic functions promise: bytes, and keys of the length that was asked for.
pub record IsCrypto {S : Type 0} (crypto : Crypto S) : Type 0 where
  pub random :
      (n : ℕ) (s t : S) (salt : Bytes) → crypto.rand_read n s ≡ (ok salt, t) → AreBelow 256 salt
  pub keys :
      (password salt key : Bytes) (t m p n : ℕ)
      → crypto.id_key password salt t m p n ≡ ok key
      → AreBelow 256 key × (length key ≡ n)

rejected : {e : Error} → err e ≢ ok (tt {0})
rejected q = cc

key_of : {a b : Bytes} → Outcome.ok a ≡ ok b → a ≡ b
key_of q = cc

different : {a b : Bytes} → a ≡ b → bytes_eq a b ≢ false
different {a} {b} e q = ground (arith, bytes_eq_refl b, ap (λ (x : Bytes). bytes_eq x b) e, q)

text_of : Outcome String → String
text_of (ok s) = s
text_of _ = ""

-- the verdict on a key that was computed for 32 bytes
same_hash_iff :
    (r : Outcome Bytes) (key : Bytes)
    → ((r >>= λ computed. same_hash computed key) ≡ ok tt) ↔ (r ≡ ok key)
same_hash_iff (ok k) key = elim (Bool-cases (bytes_eq k key)) [
  | inl same ↦
      let e = bytes_eq_sound k key same in
      (λ h. ap (λ (b : Bytes). Outcome.ok b) e, λ h. rw same refl)
  | inr other ↦ (λ h. absurd (rejected (rw other at h)), λ q. absurd (different (key_of q) other))
]
same_hash_iff (err e) key = (λ h. cc, λ h. cc)
same_hash_iff (panic m) key = (λ h. cc, λ h. cc)

module _ {S : Type 0} (crypto : Crypto S) (laws : IsCrypto crypto) where
  with_key : Bytes → Bytes → Prog S String
  with_key salt key s = (ok (generate_phc key salt alg_version memory_cost time_cost threads), s)

  -- the rest of GenerateFromPassword, once it has the salt
  with_salt : Bytes → Bytes → Prog S String
  unfolding with_key
  with_salt password salt s =
      continue (with_key salt)
        (crypto.id_key password salt time_cost memory_cost threads key_len, s)

  -- GenerateFromPassword writes its two costs into the text in each other's place. So the text that
  -- it made of a password, where it made one, is fitted by exactly the passwords that argon2 gives
  -- the same key with the two costs swapped: the hashed password itself is accepted only where
  -- argon2 gives it one key for both orders of the costs.
  pub compare-generate_from_password :
      (password : Bytes) (s t : S) (phc : String)
      → generate_from_password crypto password s ≡ (ok phc, t)
      → (salt : Bytes) × (key : Bytes) × (crypto.id_key password salt time_cost memory_cost threads
            key_len
          ≡ ok key)
        × ((other : Bytes)
            → (compare_hash_and_password crypto phc other ≡ ok tt)
              ↔ (crypto.id_key other salt memory_cost time_cost threads key_len ≡ ok key))
  unfolding generate_from_password compare_hash_and_password Hash.generate_random with_salt with_key
      text_of
  compare-generate_from_password password s t phc h =
      let failed : String → Error → Error = λ text. Error.wrap text in
      let drawn = crypto.rand_read salt_size s in
      let (salt, s₁, e₁, h₁) =
        ran
          (mapped (failed "failed to generate salt")
            (mapped (failed "failed to generate random") drawn))
          (with_salt password) h in
      let random =
        unmapped (failed "failed to generate random") drawn
          (unmapped (failed "failed to generate salt") _ e₁) in
      let made = crypto.id_key password salt time_cost memory_cost threads key_len in
      let (key, s₂, e₂, h₂) = ran (made, s₁) (with_key salt) h₁ in
      let own = ap (λ (r : Outcome Bytes × S). r.0) e₂ in
      let text = ap (λ (r : Outcome String × S). text_of r.0) h₂ in
      let (below, long) = laws.keys password salt key time_cost memory_cost threads key_len own in
      let verdict : (other : Bytes)
          → compare_hash_and_password crypto phc other ≡ (
              crypto.id_key other salt memory_cost time_cost threads key_len >>= λ computed.
              same_hash computed key) =
        λ other.
          ap (λ (u : String). compare crypto.id_key u other) (sym text)
          ∙ compare-generate_phc crypto.id_key key salt other time_cost memory_cost threads below
              (laws.random salt_size s s₁ salt random) (omega arith) (omega arith) (omega arith)
          ∙ ap
              (λ (n : ℕ).
                crypto.id_key other salt memory_cost time_cost threads (n % 2 ^ 32) >>= λ computed.
                same_hash computed key)
              long in
      let accepts : (other : Bytes)
          → (compare_hash_and_password crypto phc other ≡ ok tt)
            ↔ (crypto.id_key other salt memory_cost time_cost threads key_len ≡ ok key) =
        λ other.
          rw (verdict other)
            (same_hash_iff (crypto.id_key other salt memory_cost time_cost threads key_len) key) in
      (salt, key, own, accepts)

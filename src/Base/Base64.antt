-- ===== src/Base/Base64.antt =====
-- `base64.RawStdEncoding` of Go's encoding/base64: no padding, line breaks skipped, the last bits
-- of a short group ignored.
use Prim.Native.Char.{code}
use Prim.Native.Nat.{ℕ, ◌+◌, ◌*◌, ◌/◌, ◌%◌, ◌<◌}
use Prim.Native.String.{String}
use mathlib.Core.Path.{◌≡◌, refl, ap, ◌∙◌}
use mathlib.Core.Bool.{Bool, true, false, not, ◌&&◌, ◌||◌}
use mathlib.Core.Option.{Option, none, some}
use mathlib.Core.List.{List, [], ◌∷◌}
use native.Mathlib.Omega.{arith}
use gophkeeper.Base.Booleans.{◌==◌, if◌then◌else◌}
use gophkeeper.Base.Texts.{pick, index_of}
use gophkeeper.Base.Texts.Laws.{passes, passes_at, is_some_of, is_some_of_sound, Free}

abbrev pub alphabet : String
alphabet = "ABCDEFGHIJKLMNOPQRSTUVWXYZabcdefghijklmnopqrstuvwxyz0123456789+/"

-- three bytes are four numbers below 64
abbrev pub sextets : List ℕ → List ℕ
sextets [] = []
sextets (a ∷ []) = a / 4 ∷ (a % 4) * 16 ∷ []
sextets (a ∷ b ∷ []) = a / 4 ∷ ((a % 4) * 16 + b / 16) ∷ (b % 16) * 4 ∷ []
sextets (a ∷ b ∷ c ∷ r) =
    a / 4 ∷ ((a % 4) * 16 + b / 16) ∷ ((b % 16) * 4 + c / 64) ∷ c % 64 ∷ sextets r

unfoldable pub letters : List ℕ → String
unfolding pick
letters [] = ""
letters (n ∷ ns) = String.◌∷◌ (pick alphabet n) (letters ns)

unfoldable pub encode_to_string : List ℕ → String
unfolding letters
encode_to_string bytes = letters (sextets bytes)

abbrev pub cons_some : ℕ → Option (List ℕ) → Option (List ℕ)
cons_some n none = none
cons_some n (some ns) = some (n ∷ ns)

abbrev pub is_line_break : ℕ → Bool
is_line_break k = k == 10 || k == 13

abbrev pub value_first : Option ℕ → Option (List ℕ) → Option (List ℕ)
value_first none rest = none
value_first (some n) rest = cons_some n rest

unfoldable pub values : String → Option (List ℕ)
unfolding index_of
values String.[] = some []
values (String.◌∷◌ c s) =
    let rest = values s in
    if is_line_break (code c) then rest else value_first (index_of alphabet (code c)) rest

-- a group of one number alone is refused
abbrev pub groups : List ℕ → Option (List ℕ)
groups [] = some []
groups (a ∷ []) = none
groups (a ∷ b ∷ []) = some ((a * 4 + b / 16) ∷ [])
groups (a ∷ b ∷ c ∷ []) = some ((a * 4 + b / 16) ∷ ((b % 16) * 16 + c / 4) ∷ [])
groups (a ∷ b ∷ c ∷ d ∷ r) =
    cons_some (a * 4 + b / 16)
      (cons_some ((b % 16) * 16 + c / 4) (cons_some ((c % 4) * 64 + d) (groups r)))

abbrev pub grouped : Option (List ℕ) → Option (List ℕ)
grouped none = none
grouped (some ns) = groups ns

-- `none` is a CorruptInputError
unfoldable pub decode_string : String → Option (List ℕ)
unfolding values
decode_string s = grouped (values s)

abbrev pub AreBelow : ℕ → List ℕ → Type 0
AreBelow bound [] = Unit
AreBelow bound (n ∷ ns) = (n < bound) × AreBelow bound ns

abbrev is_letter : ℕ → Bool
is_letter n =
    let k = code (pick alphabet n) in
    is_some_of n (index_of alphabet k) && (not (is_line_break k) && not (k == b'$'))

letter_table : passes is_letter 64 ≡ true
unfolding passes index_of pick
letter_table = refl

split_and : (a b c : Bool) → (a && (not b && not c)) ≡ true → (a ≡ true) × (b ≡ false) × (c ≡ false)
split_and a b c h = ground arith

letter :
    (n : ℕ)
    → n < 64
    → (index_of alphabet (code (pick alphabet n)) ≡ some n)
      × (is_line_break (code (pick alphabet n)) ≡ false)
      × ((code (pick alphabet n) == b'$') ≡ false)
letter n h =
    let k = code (pick alphabet n) in
    let (found, kept, free) =
      split_and (is_some_of n (index_of alphabet k)) (is_line_break k) (k == b'$')
        (passes_at is_letter 64 letter_table h) in
    (is_some_of_sound n (index_of alphabet k) found, kept, free)

values-letters : (ns : List ℕ) → AreBelow 64 ns → values (letters ns) ≡ some ns
unfolding letters values
values-letters [] h = refl
values-letters (n ∷ ns) h =
    let (found, kept, free) = letter n h.0 in rw kept (rw (found, values-letters ns h.1) refl)

sextets-AreBelow : (bytes : List ℕ) → AreBelow 256 bytes → AreBelow 64 (sextets bytes)
sextets-AreBelow [] h = tt
sextets-AreBelow (a ∷ []) h = (omega arith, (omega arith, tt))
sextets-AreBelow (a ∷ b ∷ []) h = (omega arith, (omega arith, (omega arith, tt)))
sextets-AreBelow (a ∷ b ∷ c ∷ r) h =
    (omega arith, (omega arith, (omega arith, (omega arith, sextets-AreBelow r h.1.1.1))))

groups-sextets : (bytes : List ℕ) → AreBelow 256 bytes → groups (sextets bytes) ≡ some bytes
groups-sextets [] h = refl
groups-sextets (a ∷ []) h = ground arith
groups-sextets (a ∷ b ∷ []) h = ground arith
groups-sextets (a ∷ b ∷ c ∷ r) h = ground (arith, groups-sextets r)

-- bytes that were encoded are decoded to themselves
pub decode_string-encode_to_string :
    (bytes : List ℕ) → AreBelow 256 bytes → decode_string (encode_to_string bytes) ≡ some bytes
unfolding decode_string encode_to_string
decode_string-encode_to_string bytes h =
    ap grouped (values-letters (sextets bytes) (sextets-AreBelow bytes h)) ∙ groups-sextets bytes h

letters-Free : (ns : List ℕ) → AreBelow 64 ns → Free b'$' (letters ns)
unfolding letters
letters-Free [] h = tt
letters-Free (n ∷ ns) h = ((letter n h.0).2, letters-Free ns h.1)

-- no `$` occurs in encoded bytes
pub encode_to_string-Free :
    (bytes : List ℕ) → AreBelow 256 bytes → Free b'$' (encode_to_string bytes)
unfolding encode_to_string
encode_to_string-Free bytes h = letters-Free (sextets bytes) (sextets-AreBelow bytes h)

-- ===== src/Base/Utf8.antt =====
-- The bytes of a text, as Go's conversion `[]byte(s)` gives them.
use Prim.Native.Char.{code}
use Prim.Native.Nat.{ℕ, ◌+◌, ◌/◌, ◌%◌}
use Prim.Native.String.{String}
use mathlib.Core.List.{List, [], ◌∷◌, ◌++◌}
use gophkeeper.Base.Booleans.{ltb, if◌then◌else◌}

-- the UTF-8 encoding of a character
abbrev rune_bytes : ℕ → List ℕ
rune_bytes k =
    if ltb k 0x80
    then k ∷ []
    else if ltb k 0x800
    then (0xc0 + k / 64) ∷ (0x80 + k % 64) ∷ []
    else if ltb k 0x10000
    then (0xe0 + k / 4096) ∷ (0x80 + k / 64 % 64) ∷ (0x80 + k % 64) ∷ []
    else (0xf0 + k / 262144) ∷ (0x80 + k / 4096 % 64) ∷ (0x80 + k / 64 % 64) ∷ (0x80 + k % 64) ∷ []

-- `[]byte(s)`
unfoldable pub to_bytes : String → List ℕ
to_bytes String.[] = []
to_bytes (String.◌∷◌ c s) = rune_bytes (code c) ++ to_bytes s

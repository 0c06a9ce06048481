-- ===== src/Base/Texts.antt =====
-- What the code uses of Go's fmt, strconv and strings on texts: decimal numbers, `%d`, `Split`.
pub mod Laws
use Prim.Native.Char.{Char, code, nul}
use Prim.Native.Nat.{ℕ, zero, suc, ◌+◌, ◌*◌, ◌/◌, ◌%◌}
use Prim.Native.String
use Prim.Native.String.{String, ◌++◌, slice, len}
use mathlib.Core.Bool.{Bool, true, false}
use mathlib.Core.Option.{Option, none, some}
use mathlib.Core.List.{List, [], ◌∷◌}
use text.Mathlib.Text.{starts_with}
use gophkeeper.Base.Booleans.{◌==◌, ltb, if◌then◌else◌}

-- the n-th character of a text
unfoldable pub pick : String → ℕ → Char
pick String.[] n = nul
pick (String.◌∷◌ c s) zero = c
pick (String.◌∷◌ c s) (suc n) = pick s n

abbrev pub later : Option ℕ → Option ℕ
later none = none
later (some n) = some (suc n)

-- where a text has a character first, `strings.IndexByte`
unfoldable pub index_of : String → ℕ → Option ℕ
index_of String.[] k = none
index_of (String.◌∷◌ c s) k = if code c == k then some 0 else later (index_of s k)

abbrev pub decimals : String
decimals = "0123456789"

-- `%d` of a natural number below 10 ^ fuel
unfoldable pub itoa : ℕ → ℕ → String
unfolding pick
itoa zero n = ""
itoa (suc f) n =
    let front = itoa f (n / 10) in
    let last = String.◌∷◌ (pick decimals (n % 10)) "" in if ltb n 10 then last else front ++ last

-- the number in front of a text, behind the digits already read, and the rest of the text
abbrev pub on_digit {ℓ} : {A : Type ℓ} → Option ℕ → A → (ℕ → A) → A
on_digit none stop go = stop
on_digit (some d) stop go = go d

unfoldable pub scan : String → ℕ → ℕ × String
unfolding index_of
scan String.[] n = (n, "")
scan (String.◌∷◌ c s) n =
    on_digit (index_of decimals (code c)) (n, String.◌∷◌ c s) (λ d. scan s (n * 10 + d))

abbrev cons_head : Char → List String → List String
cons_head c [] = []
cons_head c (p ∷ ps) = String.◌∷◌ c p ∷ ps

-- `strings.Split` at a separator of one character
unfoldable pub split : ℕ → String → List String
split sep String.[] = "" ∷ []
split sep (String.◌∷◌ c s) =
    let rest = split sep s in if code c == sep then "" ∷ rest else cons_head c rest

-- `strings.TrimPrefix`
abbrev pub trim_prefix : String → String → String
trim_prefix s p = if starts_with s p then slice s (len p) (len s) else s

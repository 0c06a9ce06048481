-- ===== src/Base/Texts/Laws.antt =====
-- Decimal numbers are read back, and parts without the separator are split apart.
use Prim.Native.Char.{Char, code}
use Prim.Native.Nat.{ℕ, zero, suc, ◌+◌, ◌*◌, ◌/◌, ◌%◌, ◌^◌, ◌<◌}
use Prim.Native.String.{String, ◌++◌}
use mathlib.Core.Path.{◌≡◌, refl, ap, ◌∙◌}
use mathlib.Core.Logic.{inl, inr}
use mathlib.Core.Bool.{Bool, true, false, not}
use mathlib.Core.Option.{Option, none, some}
use mathlib.Core.List.{[], ◌∷◌}
use native.Mathlib.Omega.{arith}
use native.Mathlib.Nat.{pow-suc}
use text.Mathlib.TextLemmas.{nil-append, cons-append, append_assoc}
use gophkeeper.Base.Booleans.{◌==◌, if◌then◌else◌, ==_iff, Bool-cases, ltb}
use gophkeeper.Base.Texts.{pick, index_of, decimals, itoa, scan, split}

-- whether a test succeeds on every number under a limit
unfoldable pub passes : (ℕ → Bool) → ℕ → Bool
passes test zero = true
passes test (suc limit) = let below = passes test limit in if test limit then below else false

pub passes_at :
    (test : ℕ → Bool) (limit : ℕ) {k : ℕ} → passes test limit ≡ true → k < limit → test k ≡ true
unfolding passes
passes_at test zero table small = absurd (omega arith)
passes_at test (suc limit) {k} table small = ground (arith, passes_at test limit {k = k})

abbrev pub is_some_of : ℕ → Option ℕ → Bool
is_some_of n none = false
is_some_of n (some m) = m == n

pub is_some_of_sound : (n : ℕ) (o : Option ℕ) → is_some_of n o ≡ true → o ≡ some n
is_some_of_sound n none h = cc
is_some_of_sound n (some m) h = ground arith

digit_table : passes (λ d. is_some_of d (index_of decimals (code (pick decimals d)))) 10 ≡ true
unfolding passes index_of pick
digit_table = refl

pub index_of-pick_digit : (d : ℕ) → d < 10 → index_of decimals (code (pick decimals d)) ≡ some d
index_of-pick_digit d h =
    is_some_of_sound d _
      (passes_at (λ d. is_some_of d (index_of decimals (code (pick decimals d)))) 10 digit_table h)

-- a text that begins with no digit
abbrev pub Stops : String → Type 0
Stops String.[] = Unit
Stops (String.◌∷◌ c s) = index_of decimals (code c) ≡ none

pub scan-Stops : (s : String) (n : ℕ) → Stops s → scan s n ≡ (n, s)
unfolding scan
scan-Stops String.[] n h = refl
scan-Stops (String.◌∷◌ c s) n h = rw h

scan_digit :
    (d n : ℕ) (s : String) → d < 10 → scan (String.◌∷◌ (pick decimals d) s) n ≡ scan s (n * 10 + d)
unfolding scan
scan_digit d n s h = rw (index_of-pick_digit d h)

one_char : (c : Char) (t : String) → String.◌∷◌ c "" ++ t ≡ String.◌∷◌ c t
one_char c t = cons-append c "" t ∙ ap (String.◌∷◌ c) (nil-append t)

pow_step : (f n : ℕ) → n < 10 ^ suc f * 10 → n / 10 < 10 ^ f * 10
pow_step f n h = omega (arith, h, pow-suc 10 f)

-- a number below ten is one digit
scan-itoa_low : (f n : ℕ) (s : String) → n < 10 → scan (itoa (suc f) n ++ s) 0 ≡ scan s n
unfolding itoa
scan-itoa_low f n s h =
    let low : ltb n 10 ≡ true = ground arith in
    rw low (
      ap (λ (t : String). scan t 0) (one_char (pick decimals (n % 10)) s)
      ∙ scan_digit (n % 10) 0 s (omega arith)
      ∙ ap (scan s) (omega (arith, h)))

itoa_step :
    (f n : ℕ)
    → ltb n 10 ≡ false
    → itoa (suc f) n ≡ itoa f (n / 10) ++ String.◌∷◌ (pick decimals (n % 10)) ""
unfolding itoa
itoa_step f n high = rw high refl

-- a longer one has the digits of its tenth in front
scan-itoa_high :
    (f n : ℕ) (s : String)
    → ltb n 10 ≡ false
    → scan (itoa (suc f) (n / 10) ++ String.◌∷◌ (pick decimals (n % 10)) s) 0
      ≡ scan (String.◌∷◌ (pick decimals (n % 10)) s) (n / 10)
    → scan (itoa (suc (suc f)) n ++ s) 0 ≡ scan s n
scan-itoa_high f n s high front =
    let last = String.◌∷◌ (pick decimals (n % 10)) "" in
    ap (λ (t : String). scan (t ++ s) 0) (itoa_step (suc f) n high)
    ∙ ap (λ (t : String). scan t 0)
        (append_assoc (itoa (suc f) (n / 10)) last s
          ∙ ap (λ (t : String). itoa (suc f) (n / 10) ++ t) (one_char (pick decimals (n % 10)) s))
    ∙ front
    ∙ scan_digit (n % 10) (n / 10) s (omega arith)
    ∙ ap (scan s) (omega arith)

-- a number of at most f + 1 digits
pub scan-itoa : (f n : ℕ) (s : String) → n < 10 ^ f * 10 → scan (itoa (suc f) n ++ s) 0 ≡ scan s n
scan-itoa zero n s h = scan-itoa_low zero n s (omega arith)
scan-itoa (suc f) n s h = elim (Bool-cases (ltb n 10)) [
  | inl low ↦ scan-itoa_low (suc f) n s (ground (arith, low))
  | inr high ↦
      scan-itoa_high f n s high
        (scan-itoa f (n / 10) (String.◌∷◌ (pick decimals (n % 10)) s) (pow_step f n h))
]

-- no character of the text is the separator
abbrev pub Free : ℕ → String → Type 0
Free sep String.[] = Unit
Free sep (String.◌∷◌ c s) = ((code c == sep) ≡ false) × Free sep s

pub split_part :
    (sep : ℕ) (s t : String) (c : Char)
    → Free sep s
    → code c ≡ sep
    → split sep (s ++ String.◌∷◌ c t) ≡ s ∷ split sep t
unfolding split
split_part sep String.[] t c h e =
    rw (nil-append (String.◌∷◌ c t)) (rw ((==_iff (code c) sep).1 e) refl)
split_part sep (String.◌∷◌ a s) t c h e =
    rw (cons-append a s (String.◌∷◌ c t)) (rw h.0 (rw (split_part sep s t c h.1 e) refl))

pub split_last : (sep : ℕ) (s : String) → Free sep s → split sep s ≡ s ∷ []
unfolding split
split_last sep String.[] h = refl
split_last sep (String.◌∷◌ c s) h = rw h.0 (rw (split_last sep s h.1) refl)

pub append-Free : (sep : ℕ) (s t : String) → Free sep s → Free sep t → Free sep (s ++ t)
append-Free sep String.[] t h k = rw (nil-append t) k
append-Free sep (String.◌∷◌ c s) t h k = rw (cons-append c s t) (h.0, append-Free sep s t h.1 k)

-- no digit is the separator
abbrev pub no_digit : ℕ → Bool
no_digit sep = passes (λ d. not (code (pick decimals d) == sep)) 10

digit_free : (sep d : ℕ) → no_digit sep ≡ true → d < 10 → (code (pick decimals d) == sep) ≡ false
digit_free sep d h lt =
    ground (arith, passes_at (λ d. not (code (pick decimals d) == sep)) 10 {k = d} h lt)

pub itoa-Free : (sep f n : ℕ) → no_digit sep ≡ true → Free sep (itoa f n)
unfolding itoa
itoa-Free sep zero n h = tt
itoa-Free sep (suc f) n h = elim (Bool-cases (ltb n 10)) [
  | inl low ↦ rw low last
  | inr high ↦ rw high (append-Free sep (itoa f (n / 10)) _ (itoa-Free sep f (n / 10) h) last)
]
  where
    last : Free sep (String.◌∷◌ (pick decimals (n % 10)) "")
    last = (digit_free sep (n % 10) h (omega arith), tt)

-- ===== src/Hash/Scans.antt =====
-- The fields of a text that `GeneratePHC` of pkg/hash/hash.go wrote are read back.
use Prim.Native.Char.{code}
use Prim.Native.String.{◌++◌}
use text.Mathlib.TextLemmas.{nil-append, cons-append, append-nil, append_assoc}
use gophkeeper.Base.{
  ℕ, zero, suc, ◌/◌, ◌%◌, ◌^◌, ◌<◌, ◌≡◌, refl, sym, ap, ◌∙◌, String, Bool, true, false, not, ◌&&◌,
  Bool-cases, inl, inr, ltb, leb, ◌==◌, ==_iff, arith,
}
use gophkeeper.Base.Go.{ok}
use gophkeeper.Base.Texts.{pick, index_of, decimals, itoa, scan}
use gophkeeper.Base.Texts.Laws.{passes, passes_at, Stops, scan-Stops, scan-itoa}
use gophkeeper.Hash.Phc.{expect, is_space, skip_space, starts_number, scan_uint, scan_costs}

pub expect-append : (f s : String) → expect f (f ++ s) ≡ ok s
unfolding expect
expect-append String.[] s = ap (λ (t : String). ok t) (nil-append s)
expect-append (String.◌∷◌ c f) s =
    rw (cons-append c f s) (rw ((==_iff (code c) (code c)).1 refl) (expect-append f s))

-- a digit is no space
abbrev is_plain_digit : ℕ → Bool
is_plain_digit d =
    let k = code (pick decimals d) in
    (not (k == 10) && not (is_space k)) && (leb b'0' k && leb k b'9')

digit_table : passes is_plain_digit 10 ≡ true
unfolding passes pick
digit_table = refl

-- the digit that a number begins with
abbrev Begins : String → Type 0
Begins s = (d : ℕ) × (t : String) × (d < 10) × (s ≡ String.◌∷◌ (pick decimals d) t)

last_digit : ℕ → String
last_digit n = String.◌∷◌ (pick decimals (n % 10)) ""

itoa-Begins_low : (f n : ℕ) (s : String) → ltb n 10 ≡ true → Begins (itoa (suc f) n ++ s)
unfolding itoa
itoa-Begins_low f n s low =
    rw low (n % 10, "" ++ s, omega arith, cons-append (pick decimals (n % 10)) "" s)

itoa_high :
    (f n : ℕ) (s : String)
    → ltb n 10 ≡ false
    → itoa (suc f) n ++ s ≡ itoa f (n / 10) ++ (last_digit n ++ s)
unfolding itoa last_digit
itoa_high f n s high = rw high (append_assoc (itoa f (n / 10)) (last_digit n) s)

-- a number that is printed begins with a digit
itoa-Begins : (f n : ℕ) (s : String) → Begins (itoa (suc f) n ++ s)
unfolding last_digit itoa
itoa-Begins zero n s = elim (Bool-cases (ltb n 10)) [
  | inl low ↦ itoa-Begins_low zero n s low
  | inr high ↦ (
    n % 10,
    "" ++ s,
    omega arith,
    itoa_high zero n s high
        ∙ none_before (last_digit n ++ s)
        ∙ cons-append (pick decimals (n % 10)) "" s,
  )
]
  where
    none_before : (t : String) → itoa zero (n / 10) ++ t ≡ t
    none_before t = nil-append t
itoa-Begins (suc f) n s = elim (Bool-cases (ltb n 10)) [
  | inl low ↦ itoa-Begins_low (suc f) n s low
  | inr high ↦
      let (d, t, lt, e) = itoa-Begins f (n / 10) (last_digit n ++ s) in
      (d, t, lt, itoa_high (suc f) n s high ∙ e)
]

-- a text in front of which a comma stands
comma-Stops : (f s : String) → Stops (String.◌∷◌ (pick "," 0) f ++ s)
unfolding pick index_of
comma-Stops f s = rw (cons-append (pick "," 0) f s) refl

skip_space_digit :
    (d : ℕ) (t : String)
    → d < 10
    → skip_space (String.◌∷◌ (pick decimals d) t) ≡ ok (String.◌∷◌ (pick decimals d) t)
unfolding skip_space
skip_space_digit d t h = ground (arith, passes_at is_plain_digit 10 {k = d} digit_table h)

starts_number_digit :
    (d : ℕ) (t : String)
    → d < 10
    → starts_number (String.◌∷◌ (pick decimals d) t) ≡ ok (String.◌∷◌ (pick decimals d) t)
starts_number_digit d t h = ground (arith, passes_at is_plain_digit 10 {k = d} digit_table h)

scan_uint_at :
    (bits n : ℕ) (s r : String)
    → skip_space s ≡ ok s
    → starts_number s ≡ ok s
    → scan s 0 ≡ (n, r)
    → n < 2 ^ bits
    → scan_uint bits s ≡ ok (n, r)
unfolding scan_uint
scan_uint_at bits n s r e q w h =
    let low : ltb n (2 ^ bits) ≡ true = ground (arith, h) in rw e (rw q (rw w (rw low refl)))

-- a number that was printed, in front of what is no digit
pub scan_uint-itoa :
    (bits n : ℕ) (s : String)
    → n < 2 ^ bits
    → n < 10 ^ 20
    → Stops s
    → scan_uint bits (itoa 20 n ++ s) ≡ ok (n, s)
scan_uint-itoa bits n s h k stops =
    let (d, t, lt, e) = itoa-Begins 19 n s in
    let read = scan-itoa 19 n s (omega (arith, k)) ∙ scan-Stops s n stops in
    ap (scan_uint bits) e
    ∙ scan_uint_at bits n (String.◌∷◌ (pick decimals d) t) s (skip_space_digit d t lt)
        (starts_number_digit d t lt) (ap (λ (u : String). scan u 0) (sym e) ∙ read) h

-- the three costs as they are printed between the dollar signs
abbrev pub printed : ℕ → ℕ → ℕ → String
printed memory time threads =
    "m=" ++ (itoa 20 memory ++ (",t=" ++ (itoa 20 time ++ (",p=" ++ itoa 20 threads))))

pub scan_costs-printed :
    (memory time threads : ℕ)
    → memory < 2 ^ 32
    → time < 2 ^ 32
    → threads < 2 ^ 8
    → scan_costs (printed memory time threads)
      ≡ ok (record { memory = memory; time = time; threads = threads })
unfolding scan_costs pick
scan_costs-printed memory time threads hm ht hp =
    let s₅ = itoa 20 threads in
    let s₃ = itoa 20 time ++ (",p=" ++ s₅) in
    let s₁ = itoa 20 memory ++ (",t=" ++ s₃) in
    rw (expect-append "m=" s₁) (
      rw (scan_uint-itoa 32 memory (",t=" ++ s₃) hm (omega (arith, hm)) (comma-Stops "t=" s₃)) (
        rw (expect-append ",t=" s₃) (
          rw (scan_uint-itoa 32 time (",p=" ++ s₅) ht (omega (arith, ht)) (comma-Stops "p=" s₅)) (
            rw (expect-append ",p=" s₅) (
              rw
                (ap (scan_uint 8) (sym (append-nil s₅))
                  ∙ scan_uint-itoa 8 threads "" hp (omega (arith, hp)) tt)
                refl)))))

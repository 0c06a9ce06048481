-- ===== src/Hash/Phc.antt =====
-- pkg/hash/hash.go: the text of a password hash, `GeneratePHC`, and the reading of its fields.
use Prim.Native.Char.{code}
use Prim.Native.String.{◌++◌}
use gophkeeper.Base.{
  ℕ, zero, suc, ◌^◌, String, Bool, true, false, ◌&&◌, ◌||◌, Option, none, some, List, [], ◌∷◌, ltb,
  leb, ◌==◌, if◌then◌else◌,
}
use gophkeeper.Base.Base64.{encode_to_string}
use gophkeeper.Base.Go.{Error, new, Outcome, ok, err, panic, ℤ, pos, negsuc}
use gophkeeper.Base.Results.{◌>>=◌}
use gophkeeper.Base.Texts.{itoa, scan}
use gophkeeper.Model.{Bytes}

-- passwordHashingCompetitionFormat, `$argon2id$v=%d$m=%d,t=%d,p=%d$%s$%s`
unfoldable pub generate_phc : Bytes → Bytes → ℕ → ℕ → ℕ → ℕ → String
unfolding itoa encode_to_string
generate_phc password_hash salt alg_version time_cost memory_cost threads =
    "$"
    ++ ("argon2id"
        ++ ("$"
            ++ (("v=" ++ itoa 20 alg_version)
                ++ ("$"
                    ++ (("m="
                          ++ (itoa 20 memory_cost
                              ++ (",t=" ++ (itoa 20 time_cost ++ (",p=" ++ itoa 20 threads)))))
                        ++ ("$"
                            ++ (encode_to_string salt
                                ++ ("$" ++ encode_to_string password_hash))))))))

abbrev pub out_of_range : String
out_of_range = "index out of range"

-- `parts[i]`
abbrev pub part : List String → ℕ → Outcome String
part [] i = panic out_of_range
part (p ∷ ps) zero = ok p
part (p ∷ ps) (suc i) = part ps i

abbrev all_digits : String → ℕ × String → Option ℕ
all_digits String.[] r = none
all_digits s (n, String.[]) = some n
all_digits s (n, String.◌∷◌ c t) = none

-- a text of decimal digits and nothing else
unfoldable pub digits_only : String → Option ℕ
unfolding scan
digits_only s = all_digits s (scan s 0)

abbrev pub syntax_error : Error
syntax_error = new "invalid syntax"

abbrev pub range_error : Error
range_error = new "value out of range"

abbrev negated : ℕ → ℤ
negated zero = pos 0
negated (suc n) = negsuc n

-- an int has 64 bits
abbrev pub int_of : Bool → Option ℕ → Outcome ℤ
int_of negative none = err syntax_error
int_of false (some n) = if ltb n (2 ^ 63) then ok (pos n) else err range_error
int_of true (some n) = if leb n (2 ^ 63) then ok (negated n) else err range_error

-- `strconv.Atoi`
unfoldable pub atoi : String → Outcome ℤ
unfolding digits_only
atoi String.[] = err syntax_error
atoi (String.◌∷◌ c s) =
    if code c == b'-'
    then int_of true (digits_only s)
    else if code c == b'+'
    then int_of false (digits_only s)
    else int_of false (digits_only (String.◌∷◌ c s))

-- fmt's `isSpace`, without the line feed
abbrev pub is_space : ℕ → Bool
is_space k =
    k == 9
    || (k == 11
        || (k == 12
            || (k == 13
                || (k == 32
                    || (k == 0x85
                        || (k == 0xa0
                            || (k == 0x1680
                                || (leb 0x2000 k && leb k 0x200a
                                    || (k == 0x2028
                                        || (k == 0x2029
                                            || (k == 0x202f
                                                || (k == 0x205f || k == 0x3000))))))))))))

-- `SkipSpace` of a scan from a text
unfoldable pub skip_space : String → Outcome String
skip_space String.[] = ok ""
skip_space (String.◌∷◌ c s) =
    let rest = skip_space s in
    if code c == 10
    then err (new "unexpected newline")
    else if is_space (code c)
    then rest
    else ok (String.◌∷◌ c s)

abbrev pub in_bits : ℕ → ℕ × String → Outcome (ℕ × String)
in_bits bits (n, s) =
    if ltb n (2 ^ bits) then ok (n, s) else err (new "unsigned integer overflow on token")

abbrev pub starts_number : String → Outcome String
starts_number String.[] = err (new "unexpected EOF")
starts_number (String.◌∷◌ c s) =
    if leb b'0' (code c) && leb (code c) b'9'
    then ok (String.◌∷◌ c s)
    else err (new "expected integer")

-- `%d` into an unsigned integer of so many bits
unfoldable pub scan_uint : ℕ → String → Outcome (ℕ × String)
unfolding skip_space scan
scan_uint bits s = do t ← skip_space s; u ← starts_number t; in_bits bits (scan u 0)

-- the literal characters of the format
unfoldable pub expect : String → String → Outcome String
expect String.[] s = ok s
expect (String.◌∷◌ c f) String.[] = err (new "unexpected EOF")
expect (String.◌∷◌ c f) (String.◌∷◌ d s) =
    let rest = expect f s in
    if code c == code d then rest else err (new "input does not match format")

pub record Costs : Type 0 where
  pub memory : ℕ
  pub time : ℕ
  pub threads : ℕ

-- `fmt.Sscanf(params, "m=%d,t=%d,p=%d", …)` into uint32, uint32 and uint8; a rest is left unread
unfoldable pub scan_costs : String → Outcome Costs
unfolding scan_uint expect
scan_costs params = do
  s₁ ← expect "m=" params
  (memory, s₂) ← scan_uint 32 s₁
  s₃ ← expect ",t=" s₂
  (time, s₄) ← scan_uint 32 s₃
  s₅ ← expect ",p=" s₄
  (threads, s₆) ← scan_uint 8 s₅
  ok (record { memory = memory; time = time; threads = threads })

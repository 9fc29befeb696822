-- ===== src/Codec/Decimal.antt =====
-- strconv: numbers as decimal digits.
pub mod RoundTrip
use agent_sandbox_platform.Base.{
  leb, ◌-◌, ◌*◌, ◌^◌, ◌&&◌, Option, none, some, if◌then◌else◌, eqb, ℕ, zero, suc, ◌+◌, ◌/◌, ◌%◌,
  ◌≡◌, refl, true, false, [], ◌∷◌, ◌++◌, Bytes, ltb,
}
use agent_sandbox_platform.Base.Int.{ℤ, pos, negsuc}
use agent_sandbox_platform.Base.Text.{bytes}

-- A number has no more digits than one more than itself.
digits : ℕ → ℕ → Bytes
digits zero n = []
digits (suc fuel) n = elim (ltb n 10) [
  | true ↦ (n + 48) ∷ []
  | false ↦ digits fuel (n / 10) ++ ((n % 10 + 48) ∷ [])
]

-- `strconv.Itoa` of a natural number.
unfoldable pub format_decimal : ℕ → Bytes
unfolding digits
format_decimal n = digits (suc n) n

format_decimal_runs : format_decimal 8080 ≡ bytes "8080"
unfolding format_decimal
format_decimal_runs = refl

-- Decimal digits, after a number that was read already.
digits_from : ℕ → Bytes → Option ℕ
digits_from n [] = some n
digits_from n (c ∷ text) =
    if leb 48 c && leb c 57 then digits_from (n * 10 + (c - 48)) text else none

unsigned : Bytes → Option ℕ
unfolding digits_from
unsigned [] = none
unsigned (c ∷ text) = digits_from 0 (c ∷ text)

abbrev up_to : ℕ → Option ℕ → Option ℕ
up_to most none = none
up_to most (some n) = if leb n most then some n else none

abbrev negated : Option ℕ → Option ℤ
negated none = none
negated (some n) = if eqb n 0 then some (pos 0) else some (negsuc (n - 1))

abbrev plain : Option ℕ → Option ℤ
plain none = none
plain (some n) = some (pos n)

-- `strconv.ParseInt(s, 10, 64)`
unfoldable pub parse_int64 : Bytes → Option ℤ
unfolding unsigned
parse_int64 [] = none
parse_int64 (c ∷ text) =
    if eqb c b'-'
    then negated (up_to (2 ^ 63) (unsigned text))
    else if eqb c b'+'
    then plain (up_to (2 ^ 63 - 1) (unsigned text))
    else plain (up_to (2 ^ 63 - 1) (unsigned (c ∷ text)))

parse_int64_runs : parse_int64 (bytes "-42") ≡ some (negsuc 41)
unfolding parse_int64
parse_int64_runs = refl

parse_int64_overflows : parse_int64 (bytes "9223372036854775808") ≡ none
unfolding parse_int64
parse_int64_overflows = refl

-- ===== src/Codec/Hexadecimal.antt =====
-- encoding/hex: `EncodeToString` and `DecodeString`.
pub mod RoundTrip
use agent_sandbox_platform.Base.{
  ℕ, ◌+◌, ◌/◌, ◌%◌, ◌≡◌, refl, [], ◌∷◌, Bytes, ltb, leb, ◌-◌, ◌*◌, ◌&&◌, Option, none, some,
  if◌then◌else◌,
}
use agent_sandbox_platform.Base.Text.{bytes}

hex_digit : ℕ → ℕ
hex_digit v = if ltb v 10 then v + 48 else v + 87

unfoldable pub encode_hex : Bytes → Bytes
unfolding hex_digit
encode_hex [] = []
encode_hex (b ∷ bs) = hex_digit (b / 16) ∷ hex_digit (b % 16) ∷ encode_hex bs

encode_hex_runs : encode_hex (0 ∷ 255 ∷ 58 ∷ []) ≡ bytes "00ff3a"
unfolding encode_hex hex_digit
encode_hex_runs = refl

hex_value : ℕ → Option ℕ
hex_value c =
    if leb 48 c && leb c 57
    then some (c - 48)
    else if leb 97 c && leb c 102
    then some (c - 87)
    else if leb 65 c && leb c 70
    then some (c - 55)
    else none

abbrev both_digits : Option ℕ → Option ℕ → Option Bytes → Option Bytes
both_digits (some high) (some low) (some rest) = some ((high * 16 + low) ∷ rest)
both_digits (some high) (some low) none = none
both_digits (some high) none rest = none
both_digits none low rest = none

unfoldable pub decode_hex : Bytes → Option Bytes
unfolding hex_value
decode_hex [] = some []
decode_hex (a ∷ []) = none
decode_hex (a ∷ b ∷ text) = both_digits (hex_value a) (hex_value b) (decode_hex text)

decode_hex_runs : decode_hex (bytes "00Ff3a") ≡ some (0 ∷ 255 ∷ 58 ∷ [])
unfolding decode_hex
decode_hex_runs = refl

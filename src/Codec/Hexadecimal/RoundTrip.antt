-- ===== src/Codec/Hexadecimal/RoundTrip.antt =====
-- encoding/hex: what was encoded is decoded.
use agent_sandbox_platform.Base.{
  ℕ, ◌+◌, ◌*◌, ◌/◌, ◌%◌, ◌<◌, ◌≡◌, refl, ap, some, [], ◌∷◌, Bytes, All, arith,
}
use agent_sandbox_platform.Codec.Hexadecimal.{hex_digit, hex_value, encode_hex, decode_hex}

hex_value-hex_digit : (v : ℕ) → v < 16 → hex_value (hex_digit v) ≡ some v
unfolding hex_digit hex_value
hex_value-hex_digit v h = ground (arith, h)

digits_of_byte : (b : ℕ) → b / 16 * 16 + b % 16 ≡ b
digits_of_byte b = omega arith

pub decode_hex-encode_hex : (s : Bytes) → All (λ b. b < 256) s → decode_hex (encode_hex s) ≡ some s
unfolding decode_hex encode_hex
decode_hex-encode_hex [] h = refl
decode_hex-encode_hex (b ∷ s) h =
    rw
      (
        hex_value-hex_digit (b / 16) (omega (arith, h.0)),
        hex_value-hex_digit (b % 16) (omega arith),
        decode_hex-encode_hex s h.1,
      )
      (ap (λ c. some (c ∷ s)) (digits_of_byte b))

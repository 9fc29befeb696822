-- ===== src/Codec/Base64/RoundTrip.antt =====
-- What encoding/base64 encodes it decodes again.
use agent_sandbox_platform.Base.{
  ℕ, ◌+◌, ◌*◌, ◌/◌, ◌%◌, ◌<◌, ◌≡◌, refl, false, ◌||◌, List, [], ◌∷◌, map, some, arith, Bytes,
  length, All, eqb,
}
use agent_sandbox_platform.Base.Text.Splitting.{Lacks}
use agent_sandbox_platform.Codec.Base64.{
  url_char, url_value, encode, decode, decode_strict, without_newlines, values, regroup,
}

abbrev pub IsByte : ℕ → Type 0
IsByte b = b < 256

-- The six-bit groups that the characters of an encoding stand for.
sextets : Bytes → List ℕ
sextets [] = []
sextets (a ∷ []) = (a / 4) ∷ (a % 4 * 16) ∷ []
sextets (a ∷ b ∷ []) = (a / 4) ∷ (a % 4 * 16 + b / 16) ∷ (b % 16 * 4) ∷ []
sextets (a ∷ b ∷ c ∷ rest) =
    (a / 4) ∷ (a % 4 * 16 + b / 16) ∷ (b % 16 * 4 + c / 64) ∷ (c % 64) ∷ sextets rest

encode-sextets : (bs : Bytes) → encode bs ≡ map url_char (sextets bs)
unfolding encode sextets
encode-sextets [] = refl
encode-sextets (a ∷ []) = refl
encode-sextets (a ∷ b ∷ []) = refl
encode-sextets (a ∷ b ∷ c ∷ rest) = cc (encode-sextets rest)

sextets_small : (bs : Bytes) → All IsByte bs → All (λ v. v < 64) (sextets bs)
unfolding sextets
sextets_small [] h = tt
sextets_small (a ∷ []) h = omega arith
sextets_small (a ∷ b ∷ []) h = omega arith
sextets_small (a ∷ b ∷ c ∷ rest) h =
    (omega arith, (omega arith, (omega arith, (omega arith, sextets_small rest h.1.1.1))))

regroup-sextets : (bs : Bytes) → All IsByte bs → regroup (sextets bs) ≡ some bs
unfolding regroup sextets
regroup-sextets [] h = refl
regroup-sextets (a ∷ []) h = ground arith
regroup-sextets (a ∷ b ∷ []) h = ground arith
regroup-sextets (a ∷ b ∷ c ∷ rest) h = ground (arith, regroup-sextets rest h.1.1.1)

url_value-url_char : (v : ℕ) → v < 64 → url_value (url_char v) ≡ some v
unfolding url_value url_char
url_value-url_char v h = ground arith

url_char_visible : (v : ℕ) → (eqb (url_char v) 10 || eqb (url_char v) 13) ≡ false
unfolding url_char
url_char_visible v = ground arith

without_newlines-map : (vs : List ℕ) → without_newlines (map url_char vs) ≡ map url_char vs
unfolding without_newlines
without_newlines-map [] = refl
without_newlines-map (v ∷ vs) = ground (arith, url_char_visible v, without_newlines-map vs)

values-map : (vs : List ℕ) → All (λ v. v < 64) vs → values (map url_char vs) ≡ some vs
unfolding values
values-map [] h = refl
values-map (v ∷ vs) h = ground (arith, url_value-url_char v h.0, values-map vs h.1)

-- Decoding gives back every sequence of bytes that was encoded.
pub decode-encode : (bs : Bytes) → All IsByte bs → decode (encode bs) ≡ some bs
unfolding decode
decode-encode bs h =
    rw
      (
        encode-sextets bs,
        without_newlines-map (sextets bs),
        values-map (sextets bs) (sextets_small bs h),
        decode,
      )
      (regroup-sextets bs h)

pub length-encode : (bs : Bytes) → length (encode bs) ≡ (length bs * 4 + 2) / 3
unfolding encode
length-encode [] = refl
length-encode (a ∷ []) = refl
length-encode (a ∷ b ∷ []) = refl
length-encode (a ∷ b ∷ c ∷ rest) = omega (arith, length-encode rest)

url_char_dotless : (v : ℕ) → eqb (url_char v) b'.' ≡ false
unfolding url_char
url_char_dotless v = ground arith

dotless_map : (vs : List ℕ) → Lacks b'.' (map url_char vs)
dotless_map [] = refl
dotless_map (v ∷ vs) = ground (arith, url_char_dotless v, dotless_map vs)

pub encode-Lacks : (bs : Bytes) → Lacks b'.' (encode bs)
encode-Lacks bs = rw (encode-sextets bs) (dotless_map (sextets bs))

without_newlines-encode : (bs : Bytes) → without_newlines (encode bs) ≡ encode bs
without_newlines-encode bs = rw (encode-sextets bs) (without_newlines-map (sextets bs))

-- The strict decoder gives back every sequence of bytes that was encoded.
pub decode_strict-encode : (bs : Bytes) → All IsByte bs → decode_strict (encode bs) ≡ some bs
unfolding decode_strict
decode_strict-encode bs h = ground (arith, decode-encode bs h, without_newlines-encode bs)

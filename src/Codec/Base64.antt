-- ===== src/Codec/Base64.antt =====
-- encoding/base64: `RawURLEncoding`, without padding, as Go reads and writes it.
pub mod RoundTrip
use agent_sandbox_platform.Base.{
  ℕ, ◌+◌, ◌-◌, ◌*◌, ◌/◌, ◌%◌, ◌≡◌, refl, ◌&&◌, ◌||◌, List, [], ◌∷◌, Option, none, some, Bytes, ◌==◌,
  bytes_eq, ltb, leb, eqb, if◌then◌else◌,
}
use agent_sandbox_platform.Base.Text.{bytes}

-- The character of a value below 64.
url_char : ℕ → ℕ
url_char v =
    if ltb v 26
    then v + 65
    else if ltb v 52
    then v + 71
    else if ltb v 62
    then v - 52 + 48
    else if eqb v 62
    then b'-'
    else b'_'

url_value : ℕ → Option ℕ
url_value c =
    if leb b'A' c && leb c b'Z'
    then some (c - 65)
    else if leb b'a' c && leb c b'z'
    then some (c - 71)
    else if leb b'0' c && leb c b'9'
    then some (c - 48 + 52)
    else if eqb c b'-'
    then some 62
    else if eqb c b'_'
    then some 63
    else none

-- `RawURLEncoding.EncodeToString`
unfoldable pub encode : Bytes → Bytes
unfolding url_char
encode [] = []
encode (a ∷ []) = url_char (a / 4) ∷ url_char (a % 4 * 16) ∷ []
encode (a ∷ b ∷ []) = url_char (a / 4) ∷ url_char (a % 4 * 16 + b / 16) ∷ url_char (b % 16 * 4) ∷ []
encode (a ∷ b ∷ c ∷ rest) =
    url_char (a / 4)
    ∷ url_char (a % 4 * 16 + b / 16)
    ∷ url_char (b % 16 * 4 + c / 64)
    ∷ url_char (c % 64)
    ∷ encode rest

-- The decoder skips carriage returns and line feeds wherever they stand.
without_newlines : Bytes → Bytes
without_newlines [] = []
without_newlines (c ∷ s) =
    let rest = without_newlines s in if eqb c 10 || eqb c 13 then rest else c ∷ rest

values : Bytes → Option (List ℕ)
unfolding url_value
values [] = some []
values (c ∷ s) = elim (url_value c) [
  | none ↦ none
  | some v ↦ elim (values s) [ none ↦ none | some vs ↦ some (v ∷ vs) ]
]

-- A last group of two or three characters may carry bits that no byte takes: they are dropped.
regroup : List ℕ → Option Bytes
regroup [] = some []
regroup (v ∷ []) = none
regroup (v ∷ w ∷ []) = some ((v * 4 + w / 16) ∷ [])
regroup (v ∷ w ∷ x ∷ []) = some ((v * 4 + w / 16) ∷ (w % 16 * 16 + x / 4) ∷ [])
regroup (v ∷ w ∷ x ∷ y ∷ rest) = elim (regroup rest) [
  | none ↦ none
  | some decoded ↦ some ((v * 4 + w / 16) ∷ (w % 16 * 16 + x / 4) ∷ (x % 4 * 64 + y) ∷ decoded)
]

-- `RawURLEncoding.DecodeString`; `none` is its error.
unfoldable pub decode : Bytes → Option Bytes
unfolding without_newlines values regroup
decode s = elim (values (without_newlines s)) [ none ↦ none | some vs ↦ regroup vs ]

decode_runs : decode (bytes "aGVsbG8") ≡ some (bytes "hello")
unfolding decode
decode_runs = refl

encode_runs : encode (bytes "hello") ≡ bytes "aGVsbG8"
unfolding encode
encode_runs = refl

-- `RawURLEncoding.Strict().DecodeString`: in the last group the bits that no byte takes are zero, as
-- in what the encoder writes. Newlines are skipped all the same.
unfoldable pub decode_strict : Bytes → Option Bytes
unfolding without_newlines
decode_strict s = elim (decode s) [
  | none ↦ none
  | some decoded ↦ if encode decoded == without_newlines s then some decoded else none
]

decode_strict_runs : decode_strict (bytes "aGVsbG9") ≡ none
unfolding decode_strict decode without_newlines bytes_eq encode
decode_strict_runs = refl

-- The character of a value below 64 in `StdEncoding`.
std_char : ℕ → ℕ
unfolding url_char
std_char v = if eqb v 62 then b'+' else if eqb v 63 then b'/' else url_char v

-- `StdEncoding.EncodeToString`, which fills the last group with `=`.
unfoldable pub encode_std : Bytes → Bytes
unfolding std_char
encode_std [] = []
encode_std (a ∷ []) = std_char (a / 4) ∷ std_char (a % 4 * 16) ∷ b'=' ∷ b'=' ∷ []
encode_std (a ∷ b ∷ []) =
    std_char (a / 4) ∷ std_char (a % 4 * 16 + b / 16) ∷ std_char (b % 16 * 4) ∷ b'=' ∷ []
encode_std (a ∷ b ∷ c ∷ rest) =
    std_char (a / 4)
    ∷ std_char (a % 4 * 16 + b / 16)
    ∷ std_char (b % 16 * 4 + c / 64)
    ∷ std_char (c % 64)
    ∷ encode_std rest

encode_std_runs : encode_std (bytes "hi?>") ≡ bytes "aGk/Pg=="
unfolding encode_std
encode_std_runs = refl

-- ===== src/ControlPlane/Tokens.antt =====
-- apps/control-plane-go/internal/auth/auth.go: the subject tokens that callers present. Times are
-- nanoseconds since 1970.
pub mod Authenticity
use agent_sandbox_platform.Base.{
  ℕ, ◌+◌, ◌/◌, Bool, true, false, not, ◌&&◌, ◌||◌, Option, none, some, List, [], ◌∷◌, ◌++◌, Bytes,
  ◌==◌, bytes_eq, ltb, leb, length, if◌then◌else◌,
}
use agent_sandbox_platform.Base.Int.{ℤ, pos, leb_ℤ, ltb_ℤ}
use agent_sandbox_platform.Base.Result.{Result, ok, err}
use agent_sandbox_platform.Base.Text.{bytes, split, trim_space}
use agent_sandbox_platform.Codec.Base64.{encode, decode}
use agent_sandbox_platform.ControlPlane.Lease.{Scope, Error, typed}

pub record Claims : Type 0 where
  pub consumer_id : Bytes
  pub subject_id : Bytes
  pub expires_at : ℤ

-- What is called of other packages: HMAC-SHA256 of a key and a message, and encoding/json on claims.
pub record Cryptography : Type 0 where
  pub hmac_sha256 : Bytes → Bytes → Bytes
  pub unmarshal_claims : Bytes → Option Claims

abbrev pub unauthorized_token : Error
unauthorized_token = typed 401 "UNAUTHORIZED" "Invalid or expired subject token"

-- `validIdentity`
unfoldable pub valid_identity : Bytes → Bool
valid_identity value =
    ltb 0 (length value) && leb (length value) 200 && not (trim_space value == [])

-- `Time.Unix`
abbrev pub unix : ℕ → ℕ
unix time = time / 1000000000

-- The parts of a token after its version.
unfoldable pub token_parts : List Bytes → Option (Bytes × Bytes)
token_parts [] = none
token_parts (a ∷ []) = none
token_parts (a ∷ b ∷ []) = none
token_parts (version ∷ payload ∷ signed ∷ []) =
    if version == bytes "v1" then some (payload, signed) else none
token_parts (a ∷ b ∷ c ∷ d ∷ rest) = none

-- `!ok || secret == ""`
unfoldable pub known_secret : Option Bytes → Option Bytes
known_secret none = none
known_secret (some secret) = if secret == [] then none else some secret

module _ (cryptography : Cryptography) where
  unfoldable pub signature : Bytes → Bytes → Bytes
  signature value secret = encode (cryptography.hmac_sha256 secret value)

  -- The claims in a payload whose identities are valid.
  unfoldable pub read_claims : Bytes → Option Claims
  read_claims payload = elim (decode payload) [
    | none ↦ none
    | some json ↦ elim (cryptography.unmarshal_claims json) [
      | none ↦ none
      | some claims ↦
          if not (valid_identity claims.consumer_id) || not (valid_identity claims.subject_id)
          then none
          else some claims
    ]
  ]

  unfoldable pub verify_claims :
      (Bytes → Option Bytes) → ℕ → ℕ → Bytes → Bytes → Claims → Result Error Scope
  verify_claims resolve now max_ttl payload signed claims =
      if leb_ℤ claims.expires_at (pos (unix now))
        || ltb_ℤ (pos (unix (now + max_ttl))) claims.expires_at
      then err unauthorized_token
      else elim (known_secret (resolve claims.consumer_id)) [
        | none ↦ err unauthorized_token
        | some secret ↦
            if not (signed == signature (bytes "v1" ++ bytes "." ++ payload) secret)
            then err unauthorized_token
            else ok (record { consumer_id = claims.consumer_id; subject_id = claims.subject_id })
      ]

  -- `VerifySubjectToken`
  unfoldable pub verify_subject_token : Bytes → (Bytes → Option Bytes) → ℕ → ℕ → Result Error Scope
  verify_subject_token token resolve now max_ttl = elim (token_parts (split b'.' token)) [
    | none ↦ err unauthorized_token
    | some (payload, signed) ↦ elim (read_claims payload) [
      | none ↦ err unauthorized_token
      | some claims ↦ verify_claims resolve now max_ttl payload signed claims
    ]
  ]

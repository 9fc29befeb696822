-- ===== src/ControlPlane/Cursors.antt =====
-- apps/control-plane-go/internal/backend/kubernetes/identity.go and cursor.go: the keyed digests of
-- scopes and pools, and the sealed cursors of lease lists.
pub mod Sealing
use agent_sandbox_platform.Base.{
  ℕ, ◌+◌, ◌*◌, Bool, true, false, not, ◌&&◌, ◌||◌, Option, none, some, List, [], ◌∷◌, ◌++◌, Bytes,
  ◌==◌, bytes_eq, nat_eq, ltb, leb, length, take, drop, if◌then◌else◌,
}
use agent_sandbox_platform.Base.Int.{ℤ, pos, negsuc, leb_ℤ}
use agent_sandbox_platform.Base.Result.{Result, ok, err}
use agent_sandbox_platform.Base.Text.{bytes}
use agent_sandbox_platform.Codec.Base64.{encode, decode_strict}
use agent_sandbox_platform.Codec.Hexadecimal.{encode_hex}
use agent_sandbox_platform.ControlPlane.Lease.{Scope, Error, typed}

pub record ListCursorPayload : Type 0 where
  pub version : ℤ
  pub scope_digest : Bytes
  pub pool_digest : Bytes
  pub limit : ℤ
  pub as_of_unix_nano : ℤ
  pub continue : Bytes

-- What is called of other packages: HMAC-SHA256 of a key and a message, encoding/json on strings and
-- on payloads, and AES-GCM of a key: the sizes of its nonce and its tag, `Seal` of a nonce, a text and
-- additional data, and `Open`, which is `none` for what was not sealed.
pub record Packages : Type 0 where
  pub hmac_sha256 : Bytes → Bytes → Bytes
  pub marshal_strings : List Bytes → Bytes
  pub marshal_payload : ListCursorPayload → Bytes
  pub unmarshal_payload : Bytes → Option ListCursorPayload
  pub nonce_size : ℕ
  pub overhead : ℕ
  pub seal : Bytes → Bytes → Bytes → Bytes → Bytes
  pub unseal : Bytes → Bytes → Bytes → Bytes → Option Bytes

abbrev pub list_cursor_aad : Bytes
list_cursor_aad = bytes "agent-sandbox-platform/lease-list-cursor/v1"

abbrev pub max_cursor_bytes : ℕ
max_cursor_bytes = 8 * 1024

abbrev pub invalid_cursor : Error
invalid_cursor = typed 400 "INVALID_CURSOR" "Invalid list cursor"

-- `!=` on Go integers.
abbrev pub eqb_ℤ : ℤ → ℤ → Bool
eqb_ℤ (pos a) (pos b) = a == b
eqb_ℤ (pos a) (negsuc b) = false
eqb_ℤ (negsuc a) (pos b) = false
eqb_ℤ (negsuc a) (negsuc b) = a == b

module _ (packages : Packages) (secret : Bytes) where
  -- `metadataIdentity.digest`
  unfoldable pub digest : List Bytes → Bytes
  digest parts = take 40 (encode_hex (packages.hmac_sha256 secret (packages.marshal_strings parts)))

  unfoldable pub consumer_hash : Scope → Bytes
  consumer_hash scope = digest (bytes "consumer" ∷ scope.consumer_id ∷ [])

  unfoldable pub scope_hash : Scope → Bytes
  scope_hash scope = digest (bytes "scope" ∷ scope.consumer_id ∷ scope.subject_id ∷ [])

  unfoldable pub idempotency_hash : Scope → Bytes → Bytes
  idempotency_hash scope key =
      digest (bytes "idempotency" ∷ scope.consumer_id ∷ scope.subject_id ∷ key ∷ [])

  unfoldable pub pool_hash : Bytes → Bytes
  pool_hash pool =
      idempotency_hash (record { consumer_id = bytes "pool"; subject_id = bytes "pool" }) pool

  unfoldable pub pool_digest : Bytes → Bytes
  pool_digest pool = if pool == [] then bytes "none" else pool_hash pool

  -- The key of the cipher that `newListCursorCodec` makes.
  abbrev pub cursor_key : Bytes
  cursor_key = packages.hmac_sha256 secret (bytes "lease-list-cursor/v1")

  abbrev pub cursor_payload : Scope → Bytes → ℤ → ℤ → Bytes → ListCursorPayload
  cursor_payload scope pool limit as_of continuation = record {
    version = pos 1;
    scope_digest = scope_hash scope;
    pool_digest = pool_digest pool;
    limit = limit;
    as_of_unix_nano = as_of;
    continue = continuation;
  }

  -- `encode`, with the nonce that the random reader gives; `Seal` appends to the nonce.
  unfoldable pub encode_cursor : Bytes → Scope → Bytes → ℤ → ℤ → Bytes → Bytes
  encode_cursor nonce scope pool limit as_of continuation = encode (
      nonce
      ++ packages.seal cursor_key nonce
          (packages.marshal_payload (cursor_payload scope pool limit as_of continuation))
          list_cursor_aad)

  -- The conditions on what a cursor says.
  unfoldable pub payload_fits : Scope → Bytes → ℤ → ListCursorPayload → Bool
  payload_fits scope pool limit payload =
      eqb_ℤ payload.version (pos 1)
      && payload.scope_digest == scope_hash scope
      && payload.pool_digest == pool_digest pool
      && eqb_ℤ payload.limit limit
      && not (leb_ℤ payload.as_of_unix_nano (pos 0))
      && not (payload.continue == [])

  -- What a sealed text says, if it was sealed with the key.
  unfoldable pub unseal_payload : Bytes → Option ListCursorPayload
  unseal_payload sealed =
      if ltb (length sealed) (packages.nonce_size + packages.overhead)
      then none
      else elim (packages.unseal cursor_key (take packages.nonce_size sealed)
          (drop packages.nonce_size sealed) list_cursor_aad) [
            | none ↦ none
            | some plaintext ↦ packages.unmarshal_payload plaintext
          ]

  -- `decode`
  unfoldable pub decode_cursor : Bytes → Scope → Bytes → ℤ → Result Error ListCursorPayload
  decode_cursor value scope pool limit =
      if value == [] || ltb max_cursor_bytes (length value)
      then err invalid_cursor
      else elim (decode_strict value) [
        | none ↦ err invalid_cursor
        | some sealed ↦ elim (unseal_payload sealed) [
          | none ↦ err invalid_cursor
          | some payload ↦
              if payload_fits scope pool limit payload then ok payload else err invalid_cursor
        ]
      ]

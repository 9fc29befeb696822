-- ===== src/ControlPlane/Examples/Sealed.antt =====
-- apps/control-plane-go: the theorems on tokens and cursors at concrete ones, with functions in place
-- of the other packages.
use agent_sandbox_platform.Base.{
  ℕ, ◌*◌, ◌≡◌, refl, [], ◌∷◌, Bytes, ◌==◌, bytes_eq, Option, none, some, arith, if◌then◌else◌,
}
use agent_sandbox_platform.Base.Int.{pos}
use agent_sandbox_platform.Base.Result.{ok}
use agent_sandbox_platform.Base.Text.{bytes, trim_space}
use agent_sandbox_platform.Codec.Base64.{encode, decode}
use agent_sandbox_platform.Codec.Hexadecimal.{encode_hex}
use agent_sandbox_platform.ControlPlane.Lease.{Scope}
use agent_sandbox_platform.ControlPlane.Tokens.{
  Cryptography, verify_subject_token, read_claims, valid_identity,
}
use agent_sandbox_platform.ControlPlane.Tokens.Authenticity.{
  IsAuthentic, token_of, verify_subject_token-IsAuthentic, verify_subject_token-token_of,
}
use agent_sandbox_platform.ControlPlane.Cursors.{
  Packages, cursor_payload, decode_cursor, encode_cursor, scope_hash, pool_digest, digest,
}
use agent_sandbox_platform.ControlPlane.Cursors.Sealing.{
  IsSealing, decode_cursor-bound, decode_cursor-encode_cursor,
}

abbrev alice : Scope
alice = record { consumer_id = bytes "shop"; subject_id = bytes "alice" }

abbrev cryptography : Cryptography
cryptography = record {
  hmac_sha256 = λ key message. 1 ∷ key;
  unmarshal_claims = λ json.
      if json == bytes "alice"
      then some
          (record { consumer_id = bytes "shop"; subject_id = bytes "alice"; expires_at = pos 1000 })
      else none;
}

abbrev resolve : Bytes → Option Bytes
resolve consumer_id = some (bytes "key")

abbrev seconds : ℕ → ℕ
seconds n = n * 1000000000

alice-IsAuthentic :
    IsAuthentic cryptography resolve
      (seconds 500)
      (seconds 900)
      (encode (bytes "alice"))
      (bytes "key")
      alice
unfolding encode read_claims decode valid_identity trim_space bytes_eq
alice-IsAuthentic = record {
  expires_at = pos 1000;
  said = refl;
  known = refl;
  shared = λ e. ground (arith, e);
  alive = refl;
  near = refl;
}

abbrev token : Bytes
token =
    token_of cryptography resolve (seconds 500) (seconds 900) (encode (bytes "alice")) (bytes "key")

verify_subject_token-token_of_example :
    verify_subject_token cryptography token resolve (seconds 500) (seconds 900) ≡ ok alice
verify_subject_token-token_of_example =
    verify_subject_token-token_of cryptography resolve (seconds 500) (seconds 900) (bytes "alice")
      (bytes "key") alice alice-IsAuthentic

accepted : verify_subject_token cryptography token resolve (seconds 500) (seconds 900) ≡ ok alice
accepted =
    verify_subject_token-token_of cryptography resolve (seconds 500) (seconds 900) (bytes "alice")
      (bytes "key") alice alice-IsAuthentic

verify_subject_token-IsAuthentic_example :
    (payload secret : Bytes) × IsAuthentic cryptography resolve
      (seconds 500)
      (seconds 900)
      payload
      secret
      alice
    × (token ≡ token_of cryptography resolve (seconds 500) (seconds 900) payload secret)
verify_subject_token-IsAuthentic_example =
    verify_subject_token-IsAuthentic cryptography resolve (seconds 500) (seconds 900) token alice
      accepted

-- A cipher that sets one byte in front.
abbrev open_sealed : Bytes → Bytes → Bytes → Bytes → Option Bytes
open_sealed key nonce [] aad = none
open_sealed key nonce (tag ∷ text) aad = some text

abbrev packages : Packages
packages = record {
  hmac_sha256 = λ key message. 1 ∷ [];
  marshal_strings = λ parts. [];
  marshal_payload = λ payload. payload.continue;
  unmarshal_payload = λ text. some (record {
    version = pos 1;
    scope_digest = bytes "01";
    pool_digest = bytes "none";
    limit = pos 50;
    as_of_unix_nano = pos 7;
    continue = text;
  });
  nonce_size = 1;
  overhead = 1;
  seal = λ key nonce text aad. 9 ∷ text;
  unseal = open_sealed;
}

packages-IsSealing : IsSealing packages
packages-IsSealing = record {
  nonempty = omega arith;
  length-seal = λ key nonce text aad. omega arith;
  unseal-seal = λ key nonce text aad. refl;
}

abbrev cursor : Bytes
cursor = encode_cursor packages [] (5 ∷ []) alice [] (pos 50) (pos 7) (bytes "next")

decode_cursor-encode_cursor_example :
    decode_cursor packages [] cursor alice [] (pos 50)
    ≡ ok (cursor_payload packages [] alice [] (pos 50) (pos 7) (bytes "next"))
unfolding encode_cursor encode scope_hash pool_digest digest encode_hex bytes_eq
decode_cursor-encode_cursor_example =
    decode_cursor-encode_cursor packages [] (5 ∷ []) alice [] (pos 50) (pos 7) (bytes "next")
      packages-IsSealing refl (omega arith) refl refl (λ e. ground (arith, e)) (omega arith)

decoded :
    decode_cursor packages [] cursor alice [] (pos 50)
    ≡ ok (cursor_payload packages [] alice [] (pos 50) (pos 7) (bytes "next"))
unfolding encode_cursor encode scope_hash pool_digest digest encode_hex bytes_eq
decoded =
    decode_cursor-encode_cursor packages [] (5 ∷ []) alice [] (pos 50) (pos 7) (bytes "next")
      packages-IsSealing refl (omega arith) refl refl (λ e. ground (arith, e)) (omega arith)

decode_cursor-bound_example :
    (scope_hash packages [] alice ≡ scope_hash packages [] alice)
    × (pool_digest packages [] [] ≡ pool_digest packages [] [])
    × (pos 50 ≡ pos 50)
    × (cursor_payload packages [] alice [] (pos 50) (pos 7) (bytes "next")
        ≡ cursor_payload packages [] alice [] (pos 50) (pos 7) (bytes "next"))
decode_cursor-bound_example =
    decode_cursor-bound packages [] cursor alice alice [] [] (pos 50) (pos 50)
      (cursor_payload packages [] alice [] (pos 50) (pos 7) (bytes "next"))
      (cursor_payload packages [] alice [] (pos 50) (pos 7) (bytes "next")) decoded decoded

-- ===== src/Sandbox/Helper/Arguments.antt =====
-- images/runtime/file-transfer/main.go and the control plane: the helper reads from its arguments what
-- the control plane writes into its command.
use agent_sandbox_platform.Base.{
  ℕ, ◌<◌, false, Bytes, bytes_eq, drop, length, All, ◌≡◌, refl, ap, ◌∙◌, arith,
}
use agent_sandbox_platform.Base.Int.{ℤ, pos, negsuc, ltb_ℤ, magnitude}
use agent_sandbox_platform.Base.Result.{ok}
use agent_sandbox_platform.Codec.Decimal.{format_decimal, parse_int64}
use agent_sandbox_platform.Codec.Decimal.RoundTrip.{parse_int64-format_decimal}
use agent_sandbox_platform.Codec.Hexadecimal.{encode_hex, decode_hex}
use agent_sandbox_platform.Codec.Hexadecimal.RoundTrip.{decode_hex-encode_hex}
use agent_sandbox_platform.ControlPlane.Streams.{
  StreamWriteRequest, max_file_transfer_bytes, download_command, upload_command,
}
use agent_sandbox_platform.Sandbox.Helper.{
  downloads, uploads, max_bytes, digest_argument, size_argument, read_arguments,
}

digest_argument-encode_hex :
    (path : Bytes) (size : ℤ) (digest : Bytes)
    → All (λ b. b < 256) digest
    → length digest ≡ 32
    → digest_argument path size (decode_hex (encode_hex digest)) ≡ ok (uploads path size digest)
digest_argument-encode_hex path size digest h n =
    ap (digest_argument path size) (decode_hex-encode_hex digest h) ∙ ground (arith, n)

size_argument-format_decimal :
    (path : Bytes) (n : ℕ) (digest : Bytes)
    → ltb_ℤ max_bytes (pos n) ≡ false
    → size_argument path (parse_int64 (format_decimal n)) digest
      ≡ digest_argument path (pos n) (decode_hex digest)
size_argument-format_decimal path n digest h =
    ap (λ size. size_argument path size digest) (parse_int64-format_decimal n (ground (arith, h)))
    ∙ ground (arith, h)

size_argument-upload :
    (path : Bytes) (size : ℤ) (digest : Bytes)
    → ltb_ℤ size (pos 0) ≡ false
    → ltb_ℤ max_bytes size ≡ false
    → All (λ b. b < 256) digest
    → length digest ≡ 32
    → size_argument path (parse_int64 (format_decimal (magnitude size))) (encode_hex digest)
      ≡ ok (uploads path size digest)
size_argument-upload path (pos n) digest low high h k =
    size_argument-format_decimal path n (encode_hex digest) high
    ∙ digest_argument-encode_hex path (pos n) digest h k
size_argument-upload path (negsuc n) digest low high h k = absurd (ground (arith, low))

-- For a size that `WriteFileStream` accepts and a SHA-256 digest, the arguments of its command tell the
-- helper the same path, size and digest; those of `OpenFile`'s command the same path.
pub read_arguments-commands :
    (path : Bytes) (request : StreamWriteRequest)
    → ltb_ℤ request.size_bytes (pos 0) ≡ false
    → ltb_ℤ max_file_transfer_bytes request.size_bytes ≡ false
    → All (λ b. b < 256) request.sha256
    → length request.sha256 ≡ 32
    → (read_arguments (drop 1 (upload_command path request))
        ≡ ok (uploads path request.size_bytes request.sha256))
      × (read_arguments (drop 1 (download_command path)) ≡ ok (downloads path))
unfolding read_arguments upload_command download_command bytes_eq
read_arguments-commands path request low high h k =
    (size_argument-upload path request.size_bytes request.sha256 low high h k, refl)

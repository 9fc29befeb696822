-- ===== src/ControlPlane/Cursors/Sealing.antt =====
-- apps/control-plane-go/internal/backend/kubernetes/cursor.go: a cursor gives back what it was made
-- of, and only to the list that it was made for.
use agent_sandbox_platform.Base.{
  ◌+◌, ◌<◌, ◌≤◌, true, false, Option, none, some, [], ◌++◌, Bytes, bytes_eq, nat_eq, ◌≡◌, ◌≢◌, ◌∙◌,
  refl, arith, All, ltb, length, length-append,
}
use agent_sandbox_platform.Base.Int.{ℤ, pos, leb_ℤ}
use agent_sandbox_platform.Base.Result.{ok}
use agent_sandbox_platform.Base.Slices.{take-prefix, drop-prefix}
use agent_sandbox_platform.Codec.Base64.{encode, decode_strict}
use agent_sandbox_platform.Codec.Base64.RoundTrip.{IsByte, decode_strict-encode, length-encode}
use agent_sandbox_platform.ControlPlane.Lease.{Scope}
use agent_sandbox_platform.ControlPlane.Cursors.{
  ListCursorPayload, Packages, scope_hash, pool_digest, cursor_key, cursor_payload, encode_cursor,
  decode_cursor, payload_fits, unseal_payload, list_cursor_aad, max_cursor_bytes, eqb_ℤ,
}

-- What AES-GCM promises: a nonce is not empty, sealing adds a tag, and what was sealed is opened with
-- the same key, nonce and additional data.
pub record IsSealing (packages : Packages) : Type 0 where
  pub nonempty : 0 < packages.nonce_size
  pub length-seal :
      (key nonce text aad : Bytes)
      → length (packages.seal key nonce text aad) ≡ length text + packages.overhead
  pub unseal-seal :
      (key nonce text aad : Bytes)
      → packages.unseal key nonce (packages.seal key nonce text aad) aad ≡ some text

eqb_ℤ_refl : (a : ℤ) → eqb_ℤ a a ≡ true
eqb_ℤ_refl (ℤ.pos n) = ground arith
eqb_ℤ_refl (ℤ.negsuc n) = ground arith

eqb_ℤ-eq : (a b : ℤ) → eqb_ℤ a b ≡ true → a ≡ b
eqb_ℤ-eq (ℤ.pos n) (ℤ.pos m) h = ground (arith, h)
eqb_ℤ-eq (ℤ.pos n) (ℤ.negsuc m) h = ground (arith, h)
eqb_ℤ-eq (ℤ.negsuc n) (ℤ.pos m) h = ground (arith, h)
eqb_ℤ-eq (ℤ.negsuc n) (ℤ.negsuc m) h = ground (arith, h)

module _ (packages : Packages) (secret : Bytes) where
  payload_fits-cursor_payload :
      (scope : Scope) (pool : Bytes) (limit as_of : ℤ) (continuation : Bytes)
      → leb_ℤ as_of (pos 0) ≡ false
      → continuation ≢ []
      → payload_fits packages secret scope pool limit
          (cursor_payload packages secret scope pool limit as_of continuation)
        ≡ true
  unfolding payload_fits
  payload_fits-cursor_payload scope pool limit as_of continuation h n =
      ground (arith, h, n, eqb_ℤ_refl limit)

  unseal_payload-append :
      (nonce sealed text : Bytes)
      → length nonce ≡ packages.nonce_size
      → packages.overhead ≤ length sealed
      → packages.unseal (cursor_key packages secret) nonce sealed list_cursor_aad ≡ some text
      → unseal_payload packages secret (nonce ++ sealed) ≡ packages.unmarshal_payload text
  unfolding unseal_payload
  unseal_payload-append nonce sealed text sized long opened =
      let enough : ltb (length (nonce ++ sealed)) (packages.nonce_size + packages.overhead)
          ≡ false =
        ground (arith, length-append nonce sealed, sized, long) in
      rw (
        unseal_payload,
        enough,
        take-prefix nonce sealed packages.nonce_size sized,
        drop-prefix nonce sealed packages.nonce_size sized,
        opened,
      )

  -- The nonce and the sealed text that a cursor encodes.
  abbrev pub sealed_cursor : Bytes → Scope → Bytes → ℤ → ℤ → Bytes → Bytes
  sealed_cursor nonce scope pool limit as_of continuation =
      nonce
      ++ packages.seal (cursor_key packages secret) nonce
          (packages.marshal_payload
            (cursor_payload packages secret scope pool limit as_of continuation))
          list_cursor_aad

  -- What a cursor says, if it was sealed with the key.
  cursor_contents : Bytes → Option ListCursorPayload
  cursor_contents value = elim (decode_strict value) [
    | none ↦ none
    | some sealed ↦ unseal_payload packages secret sealed
  ]

  decode_cursor-contents :
      (value : Bytes) (scope : Scope) (pool : Bytes) (limit : ℤ) (payload : ListCursorPayload)
      → decode_cursor packages secret value scope pool limit ≡ ok payload
      → (cursor_contents value ≡ some payload)
        × (payload_fits packages secret scope pool limit payload ≡ true)
  unfolding decode_cursor cursor_contents
  decode_cursor-contents value scope pool limit payload h = ground (arith, h)

  payload_fits-digests :
      (scope : Scope) (pool : Bytes) (limit : ℤ) (payload : ListCursorPayload)
      → payload_fits packages secret scope pool limit payload ≡ true
      → (payload.scope_digest ≡ scope_hash packages secret scope)
        × (payload.pool_digest ≡ pool_digest packages secret pool)
        × (payload.limit ≡ limit)
  unfolding payload_fits
  payload_fits-digests scope pool limit payload h =
      (ground (arith, h), ground (arith, h), eqb_ℤ-eq payload.limit limit (ground (arith, h)))

  -- Two lists that one cursor is accepted for have the same digests of scope and pool and the same
  -- limit, and it gives them the same place to go on from.
  pub decode_cursor-bound :
      (value : Bytes) (scope other_scope : Scope) (pool other_pool : Bytes) (limit other_limit : ℤ)
      (payload other_payload : ListCursorPayload)
      → decode_cursor packages secret value scope pool limit ≡ ok payload
      → decode_cursor packages secret value other_scope other_pool other_limit ≡ ok other_payload
      → (scope_hash packages secret scope ≡ scope_hash packages secret other_scope)
        × (pool_digest packages secret pool ≡ pool_digest packages secret other_pool)
        × (limit ≡ other_limit)
        × (payload ≡ other_payload)
  decode_cursor-bound value scope other_scope pool other_pool limit other_limit payload other h g =
      let (said, fits) = decode_cursor-contents value scope pool limit payload h in
      let (also, fits_too) =
        decode_cursor-contents value other_scope other_pool other_limit other g in
      let same : payload ≡ other = ground (arith, said, also) in
      let (a, b, c) = payload_fits-digests scope pool limit payload fits in
      let (d, e, f) = payload_fits-digests other_scope other_pool other_limit other fits_too in
      (cc (a, d, same), cc (b, e, same), cc (c, f, same), same)

  decode_cursor-accepts :
      (value sealed : Bytes) (scope : Scope) (pool : Bytes) (limit : ℤ)
      (payload : ListCursorPayload)
      → value ≢ []
      → ltb max_cursor_bytes (length value) ≡ false
      → decode_strict value ≡ some sealed
      → unseal_payload packages secret sealed ≡ some payload
      → payload_fits packages secret scope pool limit payload ≡ true
      → decode_cursor packages secret value scope pool limit ≡ ok payload
  unfolding decode_cursor
  decode_cursor-accepts value sealed scope pool limit payload more short decoded opened fits =
      ground (arith, more, short, decoded, opened, fits)

  encode_nonempty : (s : Bytes) → 0 < length s → encode s ≢ []
  encode_nonempty s h e =
      let none_left : length (encode s) ≡ 0 = rw e refl in
      omega (arith, h, length-encode s, none_left)

  -- A cursor is decoded to what it was made of, for the same scope, pool and limit, when its time is
  -- positive, there is a place to go on from, it is not longer than a cursor may be, and JSON can
  -- carry what it says.
  pub decode_cursor-encode_cursor :
      (nonce : Bytes) (scope : Scope) (pool : Bytes) (limit as_of : ℤ) (continuation : Bytes)
      → IsSealing packages
      → length nonce ≡ packages.nonce_size
      → All IsByte (sealed_cursor nonce scope pool limit as_of continuation)
      → packages.unmarshal_payload (
          packages.marshal_payload
            (cursor_payload packages secret scope pool limit as_of continuation))
        ≡ some (cursor_payload packages secret scope pool limit as_of continuation)
      → leb_ℤ as_of (pos 0) ≡ false
      → continuation ≢ []
      → length (encode_cursor packages secret nonce scope pool limit as_of continuation)
        ≤ max_cursor_bytes
      → decode_cursor packages secret
          (encode_cursor packages secret nonce scope pool limit as_of continuation)
          scope
          pool
          limit
        ≡ ok (cursor_payload packages secret scope pool limit as_of continuation)
  unfolding encode_cursor
  decode_cursor-encode_cursor nonce scope pool limit as_of continuation sealing sized all_bytes json
        positive more short =
      let payload = cursor_payload packages secret scope pool limit as_of continuation in
      let text = packages.marshal_payload payload in
      let key = cursor_key packages secret in
      let body = packages.seal key nonce text list_cursor_aad in
      decode_cursor-accepts (encode (nonce ++ body)) (nonce ++ body) scope pool limit payload
        (encode_nonempty (nonce ++ body)
          (omega (arith, length-append nonce body, sized, sealing.nonempty)))
        (ground (arith, short)) (decode_strict-encode (nonce ++ body) all_bytes)
        (unseal_payload-append nonce body text sized
            (omega (arith, sealing.length-seal key nonce text list_cursor_aad))
            (sealing.unseal-seal key nonce text list_cursor_aad)
          ∙ json)
        (payload_fits-cursor_payload scope pool limit as_of continuation positive more)

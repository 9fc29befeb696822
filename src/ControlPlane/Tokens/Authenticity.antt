-- ===== src/ControlPlane/Tokens/Authenticity.antt =====
-- apps/control-plane-go/internal/auth/auth.go: exactly the tokens that are signed with the consumer's
-- secret and expire in time are accepted.
use agent_sandbox_platform.Base.{
  ℕ, ◌+◌, false, ◌||◌, Option, none, some, List, [], ◌∷◌, ◌++◌, Bytes, ◌==◌, bytes_eq, ◌≡◌, ◌≢◌,
  ◌∙◌, refl, sym, ap, arith, Option-cases, Bool-cases, inl, inr,
}
use agent_sandbox_platform.Base.Int.{ℤ, pos, leb_ℤ, ltb_ℤ}
use agent_sandbox_platform.Base.Result.{ok}
use agent_sandbox_platform.Base.Text.{bytes, split, join}
use agent_sandbox_platform.Base.Text.Splitting.{join-split, split-join, Lacks}
use agent_sandbox_platform.Codec.Base64.{encode}
use agent_sandbox_platform.Codec.Base64.RoundTrip.{encode-Lacks}
use agent_sandbox_platform.ControlPlane.Lease.{Scope}
use agent_sandbox_platform.ControlPlane.Tokens.{
  Claims, Cryptography, signature, read_claims, known_secret, verify_claims, verify_subject_token,
  token_parts, unix,
}

three_parts :
    (parts : List Bytes) (payload signed : Bytes)
    → token_parts parts ≡ some (payload, signed)
    → parts ≡ bytes "v1" ∷ payload ∷ signed ∷ []
unfolding token_parts
three_parts [] p s h = ground (arith, h)
three_parts (a ∷ []) p s h = ground (arith, h)
three_parts (a ∷ b ∷ []) p s h = ground (arith, h)
three_parts (a ∷ b ∷ c ∷ []) p s h = ground (arith, h)
three_parts (a ∷ b ∷ c ∷ d ∷ rest) p s h = ground (arith, h)

token_parts-form :
    (token payload signed : Bytes)
    → token_parts (split b'.' token) ≡ some (payload, signed)
    → token ≡ join (bytes ".") (bytes "v1" ∷ payload ∷ signed ∷ [])
token_parts-form token payload signed h =
    sym (join-split b'.' token)
    ∙ ap (join (bytes ".")) (three_parts (split b'.' token) payload signed h)

known_secret-form :
    (secret : Bytes) (found : Option Bytes)
    → known_secret found ≡ some secret
    → (found ≡ some secret) × (secret ≢ [])
unfolding known_secret
known_secret-form secret none h = ground (arith, h)
known_secret-form secret (some s) h = ground (arith, h)

module _ (cryptography : Cryptography) (resolve : Bytes → Option Bytes) (now max_ttl : ℕ) where
  -- The token with a payload that is signed by a secret.
  abbrev pub token_of : Bytes → Bytes → Bytes
  token_of payload secret =
      join (bytes ".")
        (bytes "v1" ∷ payload ∷ signature cryptography (bytes "v1." ++ payload) secret ∷ [])

  -- A payload says that the bearer is the subject of a scope, until a time that has not come and is
  -- not further than the longest life of a token.
  pub record IsAuthentic (payload secret : Bytes) (scope : Scope) : Type 0 where
    pub expires_at : ℤ
    pub said :
        read_claims cryptography payload
        ≡ some (record {
          consumer_id = scope.consumer_id;
          subject_id = scope.subject_id;
          expires_at = expires_at;
        })
    pub known : resolve scope.consumer_id ≡ some secret
    pub shared : secret ≢ []
    pub alive : leb_ℤ expires_at (pos (unix now)) ≡ false
    pub near : ltb_ℤ (pos (unix (now + max_ttl))) expires_at ≡ false

  authentic :
      (payload secret : Bytes) (claims : Claims) (scope : Scope)
      → read_claims cryptography payload ≡ some claims
      → claims.consumer_id ≡ scope.consumer_id
      → claims.subject_id ≡ scope.subject_id
      → (resolve claims.consumer_id ≡ some secret) × (secret ≢ [])
      → leb_ℤ claims.expires_at (pos (unix now)) ≡ false
      → ltb_ℤ (pos (unix (now + max_ttl))) claims.expires_at ≡ false
      → IsAuthentic payload secret scope
  authentic payload secret claims scope said c d known alive near = record {
    expires_at = claims.expires_at;
    said = rw (sym c, sym d) said;
    known = rw (sym c) known.0;
    shared = known.1;
    alive = alive;
    near = near;
  }

  verify_claims-form :
      (payload signed : Bytes) (claims : Claims) (scope : Scope)
      → read_claims cryptography payload ≡ some claims
      → verify_claims cryptography resolve now max_ttl payload signed claims ≡ ok scope
      → (secret : Bytes) × IsAuthentic payload secret scope
        × (signed ≡ signature cryptography (bytes "v1." ++ payload) secret)
  unfolding verify_claims
  verify_claims-form payload signed claims scope said h =
      elim (Bool-cases (
        leb_ℤ claims.expires_at (pos (unix now))
        || ltb_ℤ (pos (unix (now + max_ttl))) claims.expires_at)) [
          | inl e ↦ absurd (ground (arith, h, e))
          | inr e ↦ elim (Option-cases (known_secret (resolve claims.consumer_id))) [
            | inl f ↦ absurd (ground (arith, h, e, f))
            | inr (secret, f) ↦
                elim (Bool-cases
                  (signed == signature cryptography (bytes "v1." ++ payload) secret)) [
                    | inl g ↦ (
                      secret,
                      authentic payload secret claims scope said (ground (arith, h, e, f, g))
                          (ground (arith, h, e, f, g))
                          (known_secret-form secret (resolve claims.consumer_id) f)
                          (ground (arith, e)) (ground (arith, e)),
                      ground (arith, g),
                    )
                    | inr g ↦ absurd (ground (arith, h, e, f, g))
                  ]
          ]
        ]

  -- A token that is accepted has three parts, `v1`, a payload and the payload's signature by the
  -- consumer's secret, which is known and not empty; and the payload says that the bearer is the
  -- subject of the scope that is returned, both names valid, until a time that has not come and is not
  -- further away than the longest life of a token.
  pub verify_subject_token-IsAuthentic :
      (token : Bytes) (scope : Scope)
      → verify_subject_token cryptography token resolve now max_ttl ≡ ok scope
      → (payload secret : Bytes) × IsAuthentic payload secret scope
        × (token ≡ token_of payload secret)
  unfolding verify_subject_token
  verify_subject_token-IsAuthentic token scope h =
      elim (Option-cases (token_parts (split b'.' token))) [
        | inl e ↦ absurd (ground (arith, h, e))
        | inr ((payload, signed), e) ↦ elim (Option-cases (read_claims cryptography payload)) [
          | inl f ↦ absurd (ground (arith, h, e, f))
          | inr (claims, f) ↦
              let (secret, authentic, signs) =
                verify_claims-form payload signed claims scope f (ground (arith, h, e, f)) in
              (payload, secret, authentic, rw (sym signs) (token_parts-form token payload signed e))
        ]
      ]

  signature-Lacks : (value secret : Bytes) → Lacks b'.' (signature cryptography value secret)
  unfolding signature
  signature-Lacks value secret = encode-Lacks (cryptography.hmac_sha256 secret value)

  -- A token that is made of valid claims, encoded and signed by the consumer's secret, is accepted as
  -- the scope that the claims name.
  pub verify_subject_token-token_of :
      (json secret : Bytes) (scope : Scope)
      → IsAuthentic (encode json) secret scope
      → verify_subject_token cryptography (token_of (encode json) secret) resolve now max_ttl
        ≡ ok scope
  unfolding verify_subject_token verify_claims known_secret token_parts bytes_eq
  verify_subject_token-token_of json secret scope h =
      let dotless = signature-Lacks (bytes "v1." ++ encode json) secret in
      let parts =
        split-join b'.' (bytes "v1")
          (encode json ∷ signature cryptography (bytes "v1." ++ encode json) secret ∷ [])
          (refl, (encode-Lacks json, (dotless, tt))) in
      rw (verify_subject_token, parts, token_parts, h.said, verify_claims, h.alive, h.near, h.known)
        (ground (arith, h.shared))

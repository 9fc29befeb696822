-- ===== src/Codec/BigEndian.antt =====
-- encoding/binary: unsigned integers as their bytes, the highest first, in front of a text.
use agent_sandbox_platform.Base.{
  ℕ, ◌+◌, ◌*◌, ◌/◌, ◌%◌, ◌^◌, ◌<◌, ◌≡◌, refl, ◌∙◌, sym, ap, [], ◌∷◌, ◌++◌, Bytes, length, take,
  arith,
}

-- `PutUint64` and `PutUint32` are those of width 8 and 4.
unfoldable pub put_uint : ℕ → ℕ → Bytes → Bytes
put_uint ℕ.zero v rest = rest
put_uint (ℕ.suc w) v rest = put_uint w (v / 256) (v % 256 ∷ rest)

-- `Uint64` and `Uint32` of the first bytes, which are there, and what follows them.
unfoldable pub take_uint : ℕ → ℕ → Bytes → ℕ × Bytes
take_uint ℕ.zero acc s = (acc, s)
take_uint (ℕ.suc w) acc [] = (acc, [])
take_uint (ℕ.suc w) acc (c ∷ s) = take_uint w (acc * 256 + c) s

pub length-put_uint : (w v : ℕ) (rest : Bytes) → length (put_uint w v rest) ≡ w + length rest
unfolding put_uint
length-put_uint ℕ.zero v rest = omega arith
length-put_uint (ℕ.suc w) v rest = omega (arith, length-put_uint w (v / 256) (v % 256 ∷ rest))

pub take-put_uint :
    (w k v : ℕ) (rest : Bytes) → take (w + k) (put_uint w v rest) ≡ put_uint w v (take k rest)
unfolding put_uint
take-put_uint ℕ.zero k v rest = let e : ℕ.zero + k ≡ k = omega arith in rw e refl
take-put_uint (ℕ.suc w) k v rest =
    let e : ℕ.suc w + k ≡ w + ℕ.suc k = omega arith in
    rw e (take-put_uint w (ℕ.suc k) (v / 256) (v % 256 ∷ rest))

take_uint-put_uint_from :
    (w n v : ℕ) (rest : Bytes)
    → v < 256 ^ w
    → take_uint (w + n) 0 (put_uint w v rest) ≡ take_uint n v rest
unfolding put_uint take_uint
take_uint-put_uint_from ℕ.zero n v rest h =
    let e : ℕ.zero + n ≡ n = omega arith in let z : v ≡ 0 = omega (arith, h) in rw (e, z) refl
take_uint-put_uint_from (ℕ.suc w) n v rest h =
    let e : ℕ.suc w + n ≡ w + ℕ.suc n = omega arith in
    let below : v / 256 < 256 ^ w = omega (arith, h) in
    let whole : v / 256 * 256 + v % 256 ≡ v = omega arith in
    rw (e, take_uint-put_uint_from w (ℕ.suc n) (v / 256) (v % 256 ∷ rest) below, whole) refl

-- What was put is taken back.
pub take_uint-put_uint :
    (w v : ℕ) (rest : Bytes) → v < 256 ^ w → take_uint w 0 (put_uint w v rest) ≡ (v, rest)
unfolding take_uint
take_uint-put_uint w v rest h =
    let e : w + 0 ≡ w = omega arith in
    ap (λ n. take_uint n 0 (put_uint w v rest)) (sym e) ∙ take_uint-put_uint_from w 0 v rest h

pub put_uint-append : (w v : ℕ) (s t : Bytes) → put_uint w v s ++ t ≡ put_uint w v (s ++ t)
unfolding put_uint
put_uint-append ℕ.zero v s t = refl
put_uint-append (ℕ.suc w) v s t = put_uint-append w (v / 256) (v % 256 ∷ s) t

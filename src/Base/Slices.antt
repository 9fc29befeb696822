-- ===== src/Base/Slices.antt =====
-- The two parts of a text that one text followed by another makes.
use agent_sandbox_platform.Base.{ℕ, ◌≡◌, ap, [], ◌∷◌, ◌++◌, Bytes, length, take, drop, arith}

pub take-prefix : (p s : Bytes) (n : ℕ) → length p ≡ n → take n (p ++ s) ≡ p
take-prefix [] s n h = ground (arith, h)
take-prefix (c ∷ p) s ℕ.zero h = absurd (omega (arith, h))
take-prefix (c ∷ p) s (ℕ.suc n) h = ap (◌∷◌ c) (take-prefix p s n (omega (arith, h)))

pub drop-prefix : (p s : Bytes) (n : ℕ) → length p ≡ n → drop n (p ++ s) ≡ s
drop-prefix [] s n h = ground (arith, h)
drop-prefix (c ∷ p) s ℕ.zero h = absurd (omega (arith, h))
drop-prefix (c ∷ p) s (ℕ.suc n) h = drop-prefix p s n (omega (arith, h))

-- ===== src/Base/Text/Trimming.antt =====
-- Trimming a text brings no byte into it.
use mathlib.Core.Path.{◌≡◌, refl}
use mathlib.Core.Bool.{Bool, false}
use mathlib.Core.List.{[], ◌∷◌, reverse, reverse_aux}
use native.Mathlib.Omega.{arith}
use Prim.Native.Nat.{ℕ, zero, suc}
use agent_sandbox_platform.Base.Equality.{Bytes}
use agent_sandbox_platform.Base.Lists.{any, drop, length}
use agent_sandbox_platform.Base.Text.{drop_spaces, space_width, space_width_back, trim_space}

any-reverse_aux :
    (p : ℕ → Bool) (s t : Bytes)
    → any p s ≡ false
    → any p t ≡ false
    → any p (reverse_aux s t) ≡ false
any-reverse_aux p [] t h k = k
any-reverse_aux p (c ∷ s) t h k =
    any-reverse_aux p s (c ∷ t) (ground (arith, h)) (ground (arith, h, k))

any-reverse : (p : ℕ → Bool) (s : Bytes) → any p s ≡ false → any p (reverse s) ≡ false
any-reverse p s h = any-reverse_aux p s [] h refl

any-drop : (p : ℕ → Bool) (n : ℕ) (s : Bytes) → any p s ≡ false → any p (drop n s) ≡ false
any-drop p zero s h = h
any-drop p (suc n) [] h = refl
any-drop p (suc n) (c ∷ s) h = any-drop p n s (ground (arith, h))

any-drop_spaces :
    (p : ℕ → Bool) (width : Bytes → ℕ) (fuel : ℕ) (s : Bytes)
    → any p s ≡ false
    → any p (drop_spaces width fuel s) ≡ false
unfolding drop_spaces
any-drop_spaces p width zero s h = h
any-drop_spaces p width (suc fuel) s h =
    ground (arith, h, any-drop_spaces p width fuel (drop (width s) s) (any-drop p (width s) s h))

-- A byte that is not in a text is not in what is left of it.
pub any-trim_space : (p : ℕ → Bool) (s : Bytes) → any p s ≡ false → any p (trim_space s) ≡ false
unfolding trim_space
any-trim_space p s h =
    let left = drop_spaces space_width (length s) s in
    any-reverse p (drop_spaces space_width_back (length left) (reverse left)) (
      any-drop_spaces p space_width_back (length left) (reverse left)
        (any-reverse p left (any-drop_spaces p space_width (length s) s h)))

-- ===== src/Codec/Decimal/RoundTrip.antt =====
-- strconv: a number that was printed is read back.
use agent_sandbox_platform.Base.{
  ℕ, zero, suc, ◌+◌, ◌*◌, ◌/◌, ◌%◌, ◌^◌, ◌<◌, ◌≡◌, refl, sym, ap, ◌∙◌, some, [], ◌∷◌, ◌++◌, Bytes,
  ltb, leb, eqb, ◌-◌, ◌&&◌, true, false, arith, Bool-cases, inl, inr,
}
use agent_sandbox_platform.Base.Int.{pos}
use agent_sandbox_platform.Codec.Decimal.{
  digits, format_decimal, digits_from, unsigned, parse_int64,
}

digits_from-append :
    (acc v d : ℕ) (s : Bytes)
    → d < 10
    → digits_from acc s ≡ some v
    → digits_from acc (s ++ ((d + 48) ∷ [])) ≡ some (v * 10 + d)
unfolding digits_from
digits_from-append acc v d [] h e = ground (arith, h, e)
digits_from-append acc v d (c ∷ s) h e = elim (Bool-cases (leb 48 c && leb c 57)) [
  | inl k ↦ rw k (digits_from-append (acc * 10 + (c - 48)) v d s h (ground (arith, e, k)))
  | inr k ↦ absurd (ground (arith, e, k))
]

digits_from-digits : (fuel n : ℕ) → n < fuel → digits_from 0 (digits fuel n) ≡ some n
unfolding digits
digits_from-digits zero n h = absurd (omega (arith, h))
digits_from-digits (suc fuel) n h = elim (Bool-cases (ltb n 10)) [
  | inl e ↦ rw (digits, e) (unfold digits_from in ground (arith, e))
  | inr e ↦
      rw (digits, e)
        (digits_from-append 0 (n / 10) (n % 10) (digits fuel (n / 10)) (omega arith)
            (digits_from-digits fuel (n / 10) (ground (arith, e, h)))
          ∙ ap some (omega arith))
]

digits-first :
    (fuel n : ℕ) → n < fuel → (c : ℕ) × (s : Bytes) × (digits fuel n ≡ c ∷ s) × (leb 48 c ≡ true)
unfolding digits
digits-first zero n h = absurd (omega (arith, h))
digits-first (suc fuel) n h = elim (Bool-cases (ltb n 10)) [
  | inl e ↦ rw (digits, e) (n + 48, [], refl, ground arith)
  | inr e ↦
      let (c, s, first, k) = digits-first fuel (n / 10) (ground (arith, e, h)) in
      rw (digits, e) (c, s ++ ((n % 10 + 48) ∷ []), ap (λ t. t ++ ((n % 10 + 48) ∷ [])) first, k)
]

parse_int64-digits :
    (c : ℕ) (s : Bytes) (n : ℕ)
    → leb 48 c ≡ true
    → digits_from 0 (c ∷ s) ≡ some n
    → n < 2 ^ 63
    → parse_int64 (c ∷ s) ≡ some (pos n)
unfolding parse_int64 unsigned
parse_int64-digits c s n k e h =
    let minus : eqb c b'-' ≡ false = ground (arith, k) in
    let plus : eqb c b'+' ≡ false = ground (arith, k) in
    let fits : leb n (2 ^ 63 - 1) ≡ true = ground (arith, h) in rw (minus, plus, e, fits) refl

pub parse_int64-format_decimal :
    (n : ℕ) → n < 2 ^ 63 → parse_int64 (format_decimal n) ≡ some (pos n)
unfolding format_decimal
parse_int64-format_decimal n h =
    let (c, s, first, k) = digits-first (suc n) n (omega arith) in
    let read : digits_from 0 (c ∷ s) ≡ some n =
      ap (digits_from 0) (sym first) ∙ digits_from-digits (suc n) n (omega arith) in
    ap parse_int64 first ∙ parse_int64-digits c s n k read h

-- ===== src/ControlPlane/Buffers.antt =====
-- apps/control-plane-go/internal/backend/kubernetes: the output buffers that keep the first bytes of
-- a command's output and remember whether there were more. `limitedBuffer` (exec.go) has the fixed
-- limit of 10 MiB, `boundedBuffer` (transfer.go) one of its own.
use agent_sandbox_platform.Base.{
  ℕ, ◌-◌, ◌*◌, ◌≤◌, ◌≡◌, refl, Bool, true, false, List, [], ◌∷◌, ◌++◌, Bytes, ltb, if◌then◌else◌,
  length, take, min, arith, length-append, length-take, ◌∙◌, ap, sym,
}
use mathlib.Core.List.{append_assoc, append-nil}

pub record Buffer : Type 0 where
  pub value : Bytes
  pub limit : ℕ
  pub exceeded : Bool

abbrev pub max_command_output : ℕ
max_command_output = 10 * 1024 * 1024

unfoldable pub empty : ℕ → Buffer
empty limit = record { value = []; limit = limit; exceeded = false }

-- `Write`, which always reports the whole length as written. The buffer never holds more than its
-- limit, so the subtraction is Go's.
unfoldable pub write : Bytes → Buffer → Buffer
write chunk b =
    let available = b.limit - length b.value in
    record b {
      value =
          if ltb 0 available then b.value ++ take (min available (length chunk)) chunk else b.value;
      exceeded = if ltb available (length chunk) then true else b.exceeded;
    }

unfoldable pub write_all : List Bytes → Buffer → Buffer
unfolding write
write_all [] b = b
write_all (chunk ∷ chunks) b = write_all chunks (write chunk b)

abbrev pub concat : List Bytes → Bytes
concat [] = []
concat (chunk ∷ chunks) = chunk ++ concat chunks

-- What a buffer holds after it was given a text.
record Holds (n : ℕ) (given : Bytes) (b : Buffer) : Type 0 where
  limited : b.limit ≡ n
  kept : b.value ≡ take n given
  told : b.exceeded ≡ ltb n (length given)

take_none : (n : ℕ) → ◌≡◌ {A = Bytes} [] (take n [])
take_none ℕ.zero = refl
take_none (ℕ.suc n) = refl

ltb_zero : (n : ℕ) → false ≡ ltb n 0
ltb_zero n = ground arith

take_all : (n : ℕ) (s : Bytes) → length s ≤ n → take n s ≡ s
take_all ℕ.zero [] h = refl
take_all ℕ.zero (c ∷ s) h = absurd (omega arith)
take_all (ℕ.suc n) [] h = refl
take_all (ℕ.suc n) (c ∷ s) h = ap (◌∷◌ c) (take_all n s (omega arith))

take-append : (n : ℕ) (s t : Bytes) → take n (s ++ t) ≡ take n s ++ take (n - length s) t
take-append ℕ.zero s t = ground arith
take-append (ℕ.suc n) [] t = ground arith
take-append (ℕ.suc n) (c ∷ s) t = ground (arith, take-append n s t)

take-min : (n : ℕ) (s : Bytes) → take (min n (length s)) s ≡ take n s
take-min ℕ.zero s = ground arith
take-min (ℕ.suc n) [] = ground arith
take-min (ℕ.suc n) (c ∷ s) = ground (arith, take-min n s)

-- What is kept of a text is extended by as much of the next chunk as there is room for.
take-write :
    (n : ℕ) (given chunk : Bytes)
    → take n given ++ take (min (n - length (take n given)) (length chunk)) chunk
      ≡ take n (given ++ chunk)
take-write n given chunk =
    let room : n - min n (length given) ≡ n - length given = omega arith in
    rw (
      take-min (n - length (take n given)) chunk,
      take-append n given chunk,
      length-take n given,
      room,
    )

grow :
    (room : ℕ) (v chunk : Bytes)
    → (if ltb 0 room then v ++ take (min room (length chunk)) chunk else v)
      ≡ v ++ take (min room (length chunk)) chunk
grow ℕ.zero v chunk =
    let none_fit : min 0 (length chunk) ≡ 0 = omega arith in rw (none_fit, append-nil v)
grow (ℕ.suc room) v chunk = ground arith

limit-write : (chunk : Bytes) (b : Buffer) → (write chunk b).limit ≡ b.limit
unfolding write
limit-write chunk b = refl

kept_lem :
    (n : ℕ) (given chunk : Bytes) (b : Buffer)
    → Holds n given b
    → (write chunk b).value ≡ take n (given ++ chunk)
unfolding write
kept_lem n given chunk b h =
    rw (grow (b.limit - length b.value) b.value chunk, h.kept, h.limited, take-write n given chunk)

told_lem :
    (n : ℕ) (given chunk : Bytes) (b : Buffer)
    → Holds n given b
    → (write chunk b).exceeded ≡ ltb n (length (given ++ chunk))
unfolding write
told_lem n given chunk b h =
    rw (h.limited, h.kept, h.told, length-append given chunk) (ground (arith, length-take n given))

-- Writing keeps the first bytes of everything that was written.
write-Holds :
    (n : ℕ) (given chunk : Bytes) (b : Buffer)
    → Holds n given b
    → Holds n (given ++ chunk) (write chunk b)
write-Holds n given chunk b h = record {
  limited = limit-write chunk b ∙ h.limited;
  kept = kept_lem n given chunk b h;
  told = told_lem n given chunk b h;
}

write_all-Holds :
    (n : ℕ) (given : Bytes) (chunks : List Bytes) (b : Buffer)
    → Holds n given b
    → Holds n (given ++ concat chunks) (write_all chunks b)
unfolding write_all
write_all-Holds n given [] b h = rw (append-nil given) h
write_all-Holds n given (chunk ∷ chunks) b h =
    rw (sym (append_assoc given chunk (concat chunks)))
      (write_all-Holds n (given ++ chunk) chunks (write chunk b) (write-Holds n given chunk b h))

-- However a program's output is cut into chunks, a new buffer keeps exactly its first bytes up to the
-- limit, and says that there were more exactly when the output is longer than the limit.
pub write_all-cut :
    (n : ℕ) (chunks : List Bytes)
    → (write_all chunks (empty n)).value ≡ take n (concat chunks)
      × (write_all chunks (empty n)).exceeded ≡ ltb n (length (concat chunks))
unfolding empty
write_all-cut n chunks =
    let held : Holds n (concat chunks) (write_all chunks (empty n)) =
      write_all-Holds n [] chunks (empty n)
        (record { limited = refl; kept = take_none n; told = ltb_zero n }) in
    (held.kept, held.told)

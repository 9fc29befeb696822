-- ===== src/ControlPlane/Commands/Quoting.antt =====
-- A shell reads a quoted value as one word, and as that value.
use agent_sandbox_platform.Base.{
  ℕ, Bool, true, false, ◌||◌, [], ◌∷◌, ◌++◌, Bytes, eqb, Option, none, some, ◌≡◌, refl, inl, inr,
  arith, Bool-cases, if◌then◌else◌, ap, ◌∙◌,
}
use agent_sandbox_platform.Base.Text.{bytes}
use mathlib.Core.List.{append_assoc}
use agent_sandbox_platform.ControlPlane.Commands.{quote, escape_quotes, shell_quote}

abbrev prepend : ℕ → Option (Bytes × Bytes) → Option (Bytes × Bytes)
prepend c none = none
prepend c (some (word, rest)) = some (c ∷ word, rest)

abbrev one_of : ℕ → Bytes → Bool
one_of c [] = false
one_of c (d ∷ s) = eqb c d || one_of c s

-- The bytes other than the space and the two that the reader treats that a POSIX shell does not take
-- for themselves outside quotes, wherever it may give them a meaning: operators, expansions, patterns,
-- comments, assignments, line ends and the end of a string.
abbrev is_special : ℕ → Bool
is_special c = one_of c (bytes "$`\";&|<>()*?[]#~=%{}!^") || one_of c (0 ∷ 9 ∷ 10 ∷ 13 ∷ [])

-- What a POSIX shell reads of a word from inside it, up to the next blank: between single quotes every
-- byte stands for itself, outside a backslash makes the next byte do so, and no other special byte may
-- occur there. The flag says whether a quote is open.
read_rest : Bool → Bytes → Option (Bytes × Bytes)
read_rest true [] = none
read_rest true (c ∷ s) = elim (eqb c quote) [
  | true ↦ read_rest false s
  | false ↦ prepend c (read_rest true s)
]
read_rest false [] = some ([], [])
read_rest false (c ∷ []) =
    if eqb c quote || eqb c b'\\' || is_special c
    then none
    else if eqb c 32
    then some ([], c ∷ [])
    else some (c ∷ [], [])
read_rest false (c ∷ d ∷ s) = elim (eqb c quote) [
  | true ↦ read_rest true (d ∷ s)
  | false ↦ elim (eqb c b'\\') [
    | true ↦ elim (eqb d 10) [ true ↦ none | false ↦ prepend d (read_rest false s) ]
    | false ↦ elim (eqb c 32) [
      | true ↦ some ([], c ∷ d ∷ s)
      | false ↦ elim (is_special c) [ true ↦ none | false ↦ prepend c (read_rest false (d ∷ s)) ]
    ]
  ]
]

-- The word that a text begins with, as a POSIX shell reads it, and what follows it. `none` is a text
-- that does not begin with a plain word: it is empty or begins with a blank, a quote stays open, or an
-- unquoted byte means something other than itself.
pub read_word : Bytes → Option (Bytes × Bytes)
read_word [] = none
read_word (c ∷ s) = if eqb c 32 then none else read_rest false (c ∷ s)

-- The word ends there: nothing follows, or a blank.
abbrev pub EndsWord : Bytes → Type 0
EndsWord [] = Unit
EndsWord (c ∷ s) = c ≡ 32

read_rest-end : (rest : Bytes) → EndsWord rest → read_rest false rest ≡ some ([], rest)
unfolding read_rest
read_rest-end [] h = refl
read_rest-end (c ∷ []) h = ground arith
read_rest-end (c ∷ d ∷ s) h = ground arith

read_rest-open : (s : Bytes) → read_rest false (quote ∷ s) ≡ read_rest true s
unfolding read_rest
read_rest-open [] = refl
read_rest-open (c ∷ s) = refl

read_rest-backslash :
    (s : Bytes) → read_rest false (b'\\' ∷ quote ∷ s) ≡ prepend quote (read_rest false s)
unfolding read_rest
read_rest-backslash s = refl

read_rest-close : (s : Bytes) → read_rest true (quote ∷ s) ≡ read_rest false s
unfolding read_rest
read_rest-close s = refl

read_rest-inside :
    (c : ℕ) (s : Bytes)
    → eqb c quote ≡ false
    → read_rest true (c ∷ s) ≡ prepend c (read_rest true s)
unfolding read_rest
read_rest-inside c s h = rw (h, read_rest)

read_rest-escaped :
    (value rest : Bytes)
    → EndsWord rest
    → read_rest true (escape_quotes value ++ (quote ∷ rest)) ≡ some (value, rest)
unfolding escape_quotes
read_rest-escaped [] rest h = read_rest-close rest ∙ read_rest-end rest h
read_rest-escaped (c ∷ value) rest h =
    let tail = escape_quotes value ++ (quote ∷ rest) in
    let ih : read_rest true tail ≡ some (value, rest) = read_rest-escaped value rest h in
    elim (Bool-cases (eqb c quote)) [
      | inl q ↦ rw q (
          read_rest-close (b'\\' ∷ quote ∷ quote ∷ tail)
          ∙ read_rest-backslash (quote ∷ tail)
          ∙ ap (prepend quote) (read_rest-open tail ∙ ih)
          ∙ ground arith)
      | inr other ↦ rw other (read_rest-inside c tail other ∙ ap (prepend c) ih)
    ]

-- The shell reads a quoted value, whatever bytes it holds and also where it holds none, as one word
-- that is the value, where a blank or the end of the text follows.
pub read_word-quoted :
    (value rest : Bytes)
    → EndsWord rest
    → read_word (shell_quote value ++ rest) ≡ some (value, rest)
unfolding shell_quote read_word
read_word-quoted value rest h =
    rw append_assoc
      (read_rest-open (escape_quotes value ++ (quote ∷ rest)) ∙ read_rest-escaped value rest h)

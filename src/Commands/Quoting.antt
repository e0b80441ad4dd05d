-- ===== src/Commands/Quoting.antt =====
-- include/launch_cpp/safety/command_builder.hpp: what escape_argument writes, read back.
use launch_cpp.Prelude.{
  codes, Bool, Option, none, some, ◌&&◌, append_assoc, inl, inr, ℕ, ◌≡◌, refl, false, ◌||◌, [], ◌∷◌,
  ◌++◌, Str, ◌==◌, if◌then◌else◌, Bool-cases, arith,
}
use launch_cpp.Commands.{
  isspace, dollar, backtick, quote, backslash, needs_quoting, special_char, escape_chars,
  escape_argument, true,
}

-- How a shell reads the next word of a command, where it is simple: what it reads and what follows,
-- or `none` where no word begins, the quotes stay open, a `$` or backtick would be expanded, or one
-- of |&;<>()'*?[#~ stands outside quotes. Inside double quotes a backslash stands for a quote, a
-- backslash, a `$` or a backtick behind it.
abbrev pub contains_byte : ℕ → Str → Bool
contains_byte c [] = false
contains_byte c (d ∷ ds) = d == c || contains_byte c ds

abbrev pub is_expanded : ℕ → Bool
is_expanded c = c == dollar || c == backtick

abbrev pub is_escapable : ℕ → Bool
is_escapable c = c == quote || (c == backslash || is_expanded c)

unfoldable pub is_operator : ℕ → Bool
is_operator c = contains_byte c (codes "|&;<>()'*?[#~")

abbrev pub prepend : ℕ → Option (Str × Str) → Option (Str × Str)
prepend c none = none
prepend c (some (word, rest)) = some (c ∷ word, rest)

unfoldable pub read_quoted : Str → Option (Str × Str)
read_quoted [] = none
read_quoted (c ∷ []) = if c == quote then some ([], []) else none
read_quoted (c ∷ (d ∷ cs)) =
    let rest = read_quoted (d ∷ cs) in
    let after = read_quoted cs in
    if c == quote
    then some ([], d ∷ cs)
    else if is_expanded c
    then none
    else if c == backslash && is_escapable d
    then prepend d after
    else prepend c rest

-- A word without quotes goes up to the next space.
unfoldable pub read_plain : Str → Option (Str × Str)
read_plain [] = some ([], [])
read_plain (c ∷ cs) =
    let rest = read_plain cs in
    if isspace c
    then some ([], c ∷ cs)
    else if is_escapable c || is_operator c
    then none
    else prepend c rest

unfoldable pub read_word : Str → Option (Str × Str)
unfolding read_quoted read_plain
read_word [] = none
read_word (c ∷ cs) =
    if c == quote then read_quoted cs else if isspace c then none else read_plain (c ∷ cs)

-- A byte that the escaping leaves to the shell.
unfoldable pub has_meaning : Str → Bool
has_meaning [] = false
has_meaning (c ∷ cs) = is_expanded c || is_operator c || has_meaning cs

read_quoted-plain :
    (c : ℕ) (s rest : Str) (t : Str)
    → c == quote || (c == backslash || is_expanded c) ≡ false
    → read_quoted (s ++ quote ∷ rest) ≡ some (t, rest)
    → read_quoted (c ∷ (s ++ quote ∷ rest)) ≡ some (c ∷ t, rest)
unfolding read_quoted
read_quoted-plain c [] rest t h e = ground arith
read_quoted-plain c (d ∷ s) rest t h e = ground arith

read_quoted-special :
    (c : ℕ) (s : Str)
    → c == quote || c == backslash ≡ true
    → read_quoted (backslash ∷ (c ∷ s)) ≡ prepend c (read_quoted s)
unfolding read_quoted
read_quoted-special c s h = ground arith

is_plain :
    (c : ℕ)
    → c == quote || c == backslash ≡ false
    → is_expanded c ≡ false
    → c == quote || (c == backslash || is_expanded c) ≡ false
is_plain c h k = ground arith

first_has_none : (c : ℕ) (cs : Str) → has_meaning (c ∷ cs) ≡ false → is_expanded c ≡ false
unfolding has_meaning
first_has_none c cs h = ground arith

others_have_none : (c : ℕ) (cs : Str) → has_meaning (c ∷ cs) ≡ false → has_meaning cs ≡ false
unfolding has_meaning
others_have_none c cs h = ground arith

read_quoted-escape_chars :
    (s rest : Str)
    → has_meaning s ≡ false
    → read_quoted (escape_chars s ++ quote ∷ rest) ≡ some (s, rest)
unfolding escape_chars
read_quoted-escape_chars [] [] h = unfold read_quoted in refl
read_quoted-escape_chars [] (r ∷ rest) h = unfold read_quoted in refl
read_quoted-escape_chars (c ∷ cs) rest h =
    let ih = read_quoted-escape_chars cs rest (others_have_none c cs h) in
    elim (Bool-cases (c == quote || c == backslash)) [
      | inl special ↦
          rw (special, read_quoted-special c (escape_chars cs ++ quote ∷ rest) special, ih) refl
      | inr plain ↦ rw plain (
          read_quoted-plain c (escape_chars cs) rest cs (is_plain c plain (first_has_none c cs h))
            ih)
    ]

read_word-quoted :
    (s rest : Str)
    → has_meaning s ≡ false
    → read_word (quote ∷ (escape_chars s ++ quote ∷ (32 ∷ rest))) ≡ some (s, 32 ∷ rest)
unfolding read_word
read_word-quoted s rest h = read_quoted-escape_chars s (32 ∷ rest) h

read_plain_lem :
    (s rest : Str)
    → needs_quoting s ≡ false
    → has_meaning s ≡ false
    → read_plain (s ++ 32 ∷ rest) ≡ some (s, 32 ∷ rest)
unfolding needs_quoting special_char read_plain has_meaning
read_plain_lem [] rest h k = refl
read_plain_lem (c ∷ cs) rest h k = ground (arith, read_plain_lem cs rest)

read_word-plain :
    (c : ℕ) (cs rest : Str)
    → needs_quoting (c ∷ cs) ≡ false
    → has_meaning (c ∷ cs) ≡ false
    → read_word (c ∷ cs ++ 32 ∷ rest) ≡ some (c ∷ cs, 32 ∷ rest)
unfolding needs_quoting special_char read_word
read_word-plain c cs rest h k = ground (arith, read_plain_lem (c ∷ cs) rest)

-- A nonempty argument without any of $`|&;<>()'*?[#~, escaped and followed by a space and any text,
-- is read by a shell as one word that is the argument, and what follows is left as it is: quotes
-- that are opened are closed, and no quote, backslash or space of the argument ends the word.
pub read_word-escape_argument :
    (c : ℕ) (cs rest : Str)
    → has_meaning (c ∷ cs) ≡ false
    → read_word (escape_argument (c ∷ cs) ++ 32 ∷ rest) ≡ some (c ∷ cs, 32 ∷ rest)
unfolding escape_argument
read_word-escape_argument c cs rest h = elim (Bool-cases (needs_quoting (c ∷ cs))) [
  | inl quoted ↦ rw (quoted, append_assoc) (read_word-quoted (c ∷ cs) rest h)
  | inr plain ↦ rw plain (read_word-plain c cs rest plain h)
]

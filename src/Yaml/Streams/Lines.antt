-- ===== src/Yaml/Streams/Lines.antt =====
-- Reading the lines of a text in src/yaml_parser.cpp one after the other.
use launch_cpp.Prelude.{
  ℕ, zero, suc, ◌+◌, true, false, none, some, [], ◌∷◌, ◌++◌, Str, ◌≡◌, refl, ap, ◌∙◌, length, arith,
}
use launch_cpp.Yaml.Texts.Lengths.{has_byte}
use launch_cpp.Yaml.Streams.{Stream, at, failed, drop, line_of, has_newline, read_line, getline}

line_of-append : (line rest : Str) → has_byte 10 line ≡ false → line_of (line ++ 10 ∷ rest) ≡ line
unfolding line_of has_byte
line_of-append [] rest h = refl
line_of-append (c ∷ line) rest h = ground (arith, line_of-append line rest)

has_newline-append : (line rest : Str) → has_newline (line ++ 10 ∷ rest) ≡ true
unfolding has_newline
has_newline-append [] rest = refl
has_newline-append (c ∷ line) rest = ground (arith, has_newline-append line rest)

drop-nil : (n : ℕ) → drop n [] ≡ []
unfolding drop
drop-nil n = refl

drop-drop : (p n : ℕ) (s : Str) → drop (p + n) s ≡ drop n (drop p s)
unfolding drop
drop-drop p n [] = refl
drop-drop zero n (c ∷ s) = ground arith
drop-drop (suc p) n (c ∷ s) = ground (arith, drop-drop p n s)

pub drop-zero : (s : Str) → drop 0 s ≡ s
unfolding drop
drop-zero [] = refl
drop-zero (c ∷ s) = refl

drop-line : (line rest : Str) → drop (suc (length line)) (line ++ 10 ∷ rest) ≡ rest
unfolding drop
drop-line [] rest = drop-zero rest
drop-line (c ∷ line) rest = drop-line line rest

module _ (content : Str) where
  read_line_lem :
      (p : ℕ) (line rest : Str)
      → has_byte 10 line ≡ false
      → read_line (line ++ 10 ∷ rest) (at p) ≡ (some line, at (p + length line + 1))
  unfolding read_line line_of has_newline has_byte
  read_line_lem p [] rest h = ground arith
  read_line_lem p (c ∷ line) rest h =
      ground (arith, line_of-append (c ∷ line) rest, has_newline-append (c ∷ line) rest)

  -- A line that stands at the position is read, and the stream goes on behind it.
  pub getline-line :
      (p : ℕ) (line rest : Str)
      → has_byte 10 line ≡ false
      → drop p content ≡ line ++ 10 ∷ rest
      → getline content (at p) ≡ (some line, at (p + length line + 1))
  unfolding getline
  getline-line p line rest h e = rw e (read_line_lem p line rest h)

  pub drop-getline :
      (p : ℕ) (line rest : Str)
      → drop p content ≡ line ++ 10 ∷ rest
      → drop (p + length line + 1) content ≡ rest
  drop-getline p line rest e =
      ap (λ n. drop n content) (omega arith)
      ∙ drop-drop p (suc (length line)) content
      ∙ ap (drop (suc (length line))) e
      ∙ drop-line line rest

  pub getline-end :
      (p : ℕ)
      → drop p content ≡ []
      → getline content (at p) ≡ (none, record { position = p; eof = true; fail = true })
  unfolding getline read_line
  getline-end p e = rw e refl

  pub getline-failed : (s : Stream) → s.fail ≡ true → getline content s ≡ (none, failed s)
  unfolding getline
  getline-failed s h = ground arith

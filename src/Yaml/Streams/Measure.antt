-- ===== src/Yaml/Streams/Measure.antt =====
-- How much of the text a stream of src/yaml_parser.cpp has left, and what its calls do to that.
use launch_cpp.Prelude.{
  ℕ, zero, suc, ◌+◌, ◌-◌, ◌≤◌, true, false, ◌||◌, Option, none, some, [], ◌∷◌, Str, ◌≡◌, length,
  if_split, if◌then◌else◌, arith,
}
use launch_cpp.Yaml.Texts.Lengths.{has_byte}
use launch_cpp.Yaml.Streams.{
  Stream, at, drop, line_of, has_newline, read_line, getline, tellg, seekg, seek_back,
}

length-drop : (n : ℕ) (s : Str) → length (drop n s) ≡ length s - n
unfolding drop
length-drop zero [] = omega arith
length-drop (suc n) [] = omega arith
length-drop zero (c ∷ s) = omega arith
length-drop (suc n) (c ∷ s) = omega (arith, length-drop n s)

length-line_of :
    (s : Str)
    → (if has_newline s then length (line_of s) + 1 ≤ length s else length (line_of s) ≡ length s)
unfolding line_of has_newline
length-line_of [] = omega arith
length-line_of (c ∷ s) = ground (arith, length-line_of s)

has_byte-drop : (c n : ℕ) (s : Str) → has_byte c (drop n s) ≡ true → has_byte c s ≡ true
unfolding has_byte drop
has_byte-drop c zero [] h = h
has_byte-drop c (suc n) [] h = h
has_byte-drop c zero (d ∷ s) h = h
has_byte-drop c (suc n) (d ∷ s) h = ground (arith, has_byte-drop c n s)

has_byte-line_of : (c : ℕ) (s : Str) → has_byte c (line_of s) ≡ true → has_byte c s ≡ true
unfolding has_byte line_of
has_byte-line_of c [] h = h
has_byte-line_of c (d ∷ s) h = ground (arith, has_byte-line_of c s)

module _ (content : Str) where
  -- The bytes left and one, for the end; 0 where nothing can be read.
  unfoldable pub measure : Stream → ℕ
  measure s = if s.eof || s.fail then 0 else suc (length content - s.position)

  unfoldable pub pos_measure : Option ℕ → ℕ
  pos_measure none = 0
  pos_measure (some p) = suc (length content - p)

  pub measure-at : measure (at 0) ≡ suc (length content)
  unfolding measure
  measure-at = omega arith

  pub measure-seekg : (pos : Option ℕ) (s : Stream) → measure (seekg pos s) ≤ pos_measure pos
  unfolding measure pos_measure seekg
  measure-seekg none s = ground arith
  measure-seekg (some p) s = ground arith

  pub measure-tellg :
      (s : Stream) → (measure (tellg s).1 ≡ measure s) × (pos_measure (tellg s).0 ≡ measure s)
  unfolding measure pos_measure tellg
  measure-tellg s = ground arith

  -- What a call of `getline` gives: a line takes its bytes and one more off the measure, and going
  -- back by as much adds one at most.
  abbrev pub Read : Stream → Option Str × Stream → Type 0
  Read s (none, s1) = measure s1 ≡ 0
  Read s (some line, s1) =
      (measure s1 + length line + 1 ≤ measure s)
      × (measure (seek_back (length line + 1) s1) ≤ measure s + 1)
      × (has_byte 9 line ≡ true → has_byte 9 content ≡ true)

  read_line-Read :
      (s : Stream) (rest : Str)
      → s.eof ≡ false
      → s.fail ≡ false
      → length rest ≡ length content - s.position
      → (has_byte 9 rest ≡ true → has_byte 9 content ≡ true)
      → Read s (read_line rest s)
  unfolding read_line measure seek_back
  read_line-Read s [] e f h k = omega arith
  read_line-Read s (c ∷ rest) e f h k = (
    ground (arith, length-line_of (c ∷ rest)),
    ground (arith, length-line_of (c ∷ rest)),
    λ t. k (has_byte-line_of 9 (c ∷ rest) t),
  )

  pub getline-Read : (s : Stream) → Read s (getline content s)
  unfolding getline
  getline-Read s =
      if_split (Read s) (s.eof || s.fail) _ _ (λ h. unfold measure in ground arith)
        (λ h.
          read_line-Read s (drop s.position content) (ground arith) (ground arith)
            (length-drop s.position content) (has_byte-drop 9 s.position content))

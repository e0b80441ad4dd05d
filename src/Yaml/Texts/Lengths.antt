-- ===== src/Yaml/Texts/Lengths.antt =====
-- The lengths of what the functions on one line of src/yaml_parser.cpp return.
use launch_cpp.Prelude.{
  ℕ, ◌+◌, ◌*◌, ◌≤◌, ◌<◌, Bool, true, false, ◌||◌, [], ◌∷◌, Str, ◌≡◌, ◌==◌, length, is_some, arith,
}
use launch_cpp.Yaml.Texts.{
  trim, skip_spaces, trim_end, get_indent, is_skipped, begins_with, split_at, tail,
}

unfoldable pub has_byte : ℕ → Str → Bool
has_byte c [] = false
has_byte c (d ∷ s) = d == c || has_byte c s

length-trim_end : (s : Str) → length (trim_end s) ≤ length s
unfolding trim_end
length-trim_end [] = omega arith
length-trim_end (c ∷ s) = ground (arith, length-trim_end s)

length-skip_spaces : (s : Str) → length (skip_spaces s) ≤ length s
unfolding skip_spaces
length-skip_spaces [] = omega arith
length-skip_spaces (c ∷ s) = ground (arith, length-skip_spaces s)

pub length-trim : (s : Str) → length (trim s) ≤ length s
unfolding trim
length-trim s = omega (arith, length-trim_end (skip_spaces s), length-skip_spaces s)

length-is_skipped : (t : Str) → is_skipped t ≡ false → 1 ≤ length t
length-is_skipped [] h = cc
length-is_skipped (c ∷ t) h = omega arith

pub line_length : (line : Str) → is_skipped (trim line) ≡ false → 1 ≤ length line
line_length line h = omega (arith, length-trim line, length-is_skipped (trim line) h)

length-split_at : (c : ℕ) (s : Str) → is_some (split_at c s) ≡ true → 1 ≤ length s
unfolding split_at
length-split_at c [] h = cc
length-split_at c (d ∷ s) h = omega arith

length-tail : (c : ℕ) (t : Str) → begins_with c t ≡ true → length (tail t) + 1 ≤ length t
length-tail c [] h = cc
length-tail c (d ∷ t) h = omega arith

-- A list item with a colon has two bytes at least.
pub item_length :
    (line : Str)
    → begins_with b'-' (trim line) ≡ true
    → is_some (split_at b':' (trim (tail (trim line)))) ≡ true
    → 2 ≤ length line
item_length line h k = omega (
  arith,
  length-trim line,
  length-tail b'-' (trim line) h,
  length-trim (tail (trim line)),
  length-split_at b':' (trim (tail (trim line))) k,
)

-- Without a tab the indent is a number of bytes.
pub get_indent-lt-length :
    (line : Str)
    → has_byte 9 line ≡ false
    → is_skipped (trim line) ≡ false
    → get_indent line < length line
unfolding get_indent has_byte trim
get_indent-lt-length [] h k = cc
get_indent-lt-length (c ∷ line) h k = ground (arith, get_indent-lt-length line)

-- A tab counts for two.
pub get_indent_bound : (line : Str) → get_indent line ≤ 2 * length line
unfolding get_indent
get_indent_bound [] = omega arith
get_indent_bound (c ∷ line) = ground (arith, get_indent_bound line)

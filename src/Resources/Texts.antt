-- ===== src/Resources/Texts.antt =====
-- What src/safety/posix_resource_monitor.cpp does with the texts under /proc: lines, words and
-- numbers as `std::getline` and `operator>>` read them.
use launch_cpp.Prelude.{
  ℕ, ◌+◌, ◌-◌, ◌*◌, ◌%◌, Bool, true, false, ◌&&◌, ◌||◌, Option, none, some, List, [], ◌∷◌, ◌++◌,
  Str, ◌==◌, leb, ltb, is_empty, if◌then◌else◌,
}

-- The range of `uint64_t` and `unsigned long`.
abbrev pub range : ℕ
range = 18446744073709551616

-- The lines of a file; a last line needs no newline.
unfoldable pub lines_from : Str → Str → List Str
lines_from line [] = if is_empty line then [] else line ∷ []
lines_from line (c ∷ s) = if c == 10 then line ∷ lines_from [] s else lines_from (line ++ c ∷ []) s

abbrev pub is_white : ℕ → Bool
is_white c = c == 32 || leb 9 c && leb c 13

unfoldable pub skip_white : Str → Str
skip_white [] = []
skip_white (c ∷ s) = if is_white c then skip_white s else c ∷ s

-- A word, and what follows it.
unfoldable pub word_of : Str → Str × Str
word_of [] = ([], [])
word_of (c ∷ s) = let rest = word_of s in if is_white c then ([], c ∷ s) else (c ∷ rest.0, rest.1)

abbrev filled_word : Str × Str → Option (Str × Str)
filled_word (word, rest) = if is_empty word then none else some (word, rest)

unfoldable pub read_word : Str → Option (Str × Str)
unfolding skip_white word_of
read_word s = filled_word (word_of (skip_white s))

abbrev pub is_digit : ℕ → Bool
is_digit c = leb 48 c && leb c 57

-- The number that the digits continue, and what follows them.
unfoldable pub digits_of : ℕ → Str → ℕ × Str
digits_of n [] = (n, [])
digits_of n (c ∷ s) =
    let rest = digits_of (n * 10 + (c - 48)) s in if is_digit c then rest else (n, c ∷ s)

-- What `operator>>` does with a number: there is none, it is out of range, or it is read.
pub data Number : Type 0 where
  missing too_large : Number
  number : ℕ → Str → Number

abbrev starts_digit : Str → Bool
starts_digit [] = false
starts_digit (c ∷ s) = is_digit c

abbrev pub magnitude : Str → Option (ℕ × Str)
magnitude s = if starts_digit s then some (digits_of 0 s) else none

-- A negative number wraps around.
abbrev unsigned_number : (negative : Bool) → Option (ℕ × Str) → Number
unsigned_number negative none = missing
unsigned_number negative (some parts) =
    if ltb parts.0 range
    then number (if negative then (range - parts.0) % range else parts.0) parts.1
    else too_large

abbrev signed : (Bool → Option (ℕ × Str) → Number) → Str → Number
signed f [] = f false none
signed f (c ∷ s) =
    if c == b'-'
    then f true (magnitude s)
    else if c == b'+'
    then f false (magnitude s)
    else f false (magnitude (c ∷ s))

unfoldable pub read_unsigned : Str → Number
unfolding skip_white digits_of
read_unsigned s = signed unsigned_number (skip_white s)

-- A `long`, of which only the end matters.
abbrev long_number : (negative : Bool) → Option (ℕ × Str) → Number
long_number negative none = missing
long_number negative (some parts) =
    if leb parts.0 (9223372036854775807 + (if negative then 1 else 0))
    then number parts.0 parts.1
    else too_large

unfoldable pub read_long : Str → Number
unfolding skip_white digits_of
read_long s = signed long_number (skip_white s)

-- ===== src/Yaml/Texts.antt =====
-- src/yaml_parser.cpp: the functions of the parser on one line of text.
pub mod Lengths
pub mod Plain
pub mod Heads
pub mod Outer
use launch_cpp.Prelude.{
  ℕ, suc, ◌+◌, Bool, true, false, not, ◌&&◌, ◌||◌, Option, none, some, List, [], ◌∷◌, Str, ◌==◌,
  leb, is_empty, if◌then◌else◌,
}

-- A byte of " \t\r\n".
abbrev pub is_space : ℕ → Bool
is_space c = c == 32 || (c == 9 || (c == 13 || c == 10))

unfoldable pub skip_spaces : Str → Str
skip_spaces [] = []
skip_spaces (c ∷ s) = if is_space c then skip_spaces s else c ∷ s

unfoldable pub trim_end : Str → Str
trim_end [] = []
trim_end (c ∷ s) = let rest = trim_end s in if is_space c && is_empty rest then [] else c ∷ rest

-- From the first byte that is no space to the last one.
unfoldable pub trim : Str → Str
unfolding skip_spaces trim_end
trim s = trim_end (skip_spaces s)

unfoldable pub get_indent : Str → ℕ
get_indent [] = 0
get_indent (c ∷ s) =
    let rest = get_indent s in if c == 32 then suc rest else if c == 9 then rest + 2 else 0

-- Whether a trimmed line is empty or a comment.
abbrev pub is_skipped : Str → Bool
is_skipped [] = true
is_skipped (c ∷ s) = c == b'#'

abbrev pub begins_with : ℕ → Str → Bool
begins_with c [] = false
begins_with c (d ∷ s) = d == c

-- `find(c)`, `substr(0, pos)` and `substr(pos + 1)`.
unfoldable pub split_at : ℕ → Str → Option (Str × Str)
split_at c [] = none
split_at c (d ∷ s) =
    if d == c
    then some ([], s)
    else elim (split_at c s) [ none ↦ none | some parts ↦ some (d ∷ parts.0, parts.1) ]

abbrev pub tail : Str → Str
tail [] = []
tail (c ∷ s) = s

unfoldable pub last_of : ℕ → Str → ℕ
last_of c [] = c
last_of c (d ∷ s) = last_of d s

unfoldable pub drop_last : ℕ → Str → Str
drop_last c [] = []
drop_last c (d ∷ s) = c ∷ drop_last d s

abbrev pub is_quoted : ℕ → ℕ → Bool
is_quoted first last = first == b'"' && last == b'"' || first == 39 && last == 39

unfoldable pub unquote : Str → Str
unfolding last_of drop_last
unquote [] = []
unquote (c ∷ []) = c ∷ []
unquote (c ∷ (d ∷ s)) = if is_quoted c (last_of d s) then drop_last d s else c ∷ (d ∷ s)

abbrev pub is_digit : ℕ → Bool
is_digit c = leb 48 c && leb c 57

unfoldable pub number_tail : (has_dot : Bool) → Str → Bool
number_tail has_dot [] = true
number_tail has_dot (c ∷ s) =
    if c == b'.'
    then (if has_dot then false else number_tail true s)
    else if is_digit c
    then number_tail has_dot s
    else false

unfoldable pub is_number : Str → Bool
unfolding number_tail
is_number [] = true
is_number (c ∷ s) =
    if c == b'-' || c == b'+' then number_tail false s else number_tail false (c ∷ s)

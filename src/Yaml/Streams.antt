-- ===== src/Yaml/Streams.antt =====
-- src/yaml_parser.cpp reads a `std::istringstream`: the text, which stays, with a position and the
-- bits of the state. `getline`, `tellg` and `seekg` are those of the standard library.
pub mod Measure
pub mod Lines
use launch_cpp.Prelude.{
  ℕ, zero, suc, ◌+◌, ◌-◌, Bool, true, false, not, ◌||◌, Option, none, some, List, [], ◌∷◌, Str,
  ◌==◌, leb, length, if◌then◌else◌,
}

pub record Stream : Type 0 where
  pub position : ℕ
  pub eof : Bool
  pub fail : Bool

abbrev pub at : ℕ → Stream
at p = record { position = p; eof = false; fail = false }

abbrev pub failed : Stream → Stream
failed s = record { position = s.position; eof = s.eof; fail = true }

unfoldable pub drop : ℕ → Str → Str
drop n [] = []
drop zero (c ∷ s) = c ∷ s
drop (suc n) (c ∷ s) = drop n s

-- Up to the newline or the end.
unfoldable pub line_of : Str → Str
line_of [] = []
line_of (c ∷ s) = if c == 10 then [] else c ∷ line_of s

unfoldable pub has_newline : Str → Bool
has_newline [] = false
has_newline (c ∷ s) = if c == 10 then true else has_newline s

unfoldable pub read_line : Str → Stream → Option Str × Stream
unfolding line_of has_newline
read_line [] s = (none, record { position = s.position; eof = true; fail = true })
read_line (c ∷ rest) s = (
  some (line_of (c ∷ rest)),
  record {
    position = s.position + length (line_of (c ∷ rest)) + (if has_newline (c ∷ rest) then 1 else 0);
    eof = not (has_newline (c ∷ rest));
    fail = false;
  },
)

-- At the end of the text, or where an earlier call failed, nothing is read and the stream fails.
unfoldable pub getline : Str → Stream → Option Str × Stream
unfolding drop read_line
getline content s =
    if s.eof || s.fail then (none, failed s) else read_line (drop s.position content) s

-- At the end of the text the stream fails, and the position is -1.
unfoldable pub tellg : Stream → Option ℕ × Stream
tellg s = if s.eof || s.fail then (none, failed s) else (some s.position, s)

abbrev pub placed : Option ℕ → Stream → Stream
placed none s = record { position = s.position; eof = false; fail = true }
placed (some p) s = record { position = p; eof = false; fail = false }

-- `seekg(pos)`: it clears the end of the text, and does nothing to a stream that failed.
unfoldable pub seekg : Option ℕ → Stream → Stream
seekg pos s =
    if s.fail then record { position = s.position; eof = false; fail = true } else placed pos s

-- `seekg(-n, std::ios::cur)`.
unfoldable pub seek_back : ℕ → Stream → Stream
seek_back n s =
    if s.fail
    then record { position = s.position; eof = false; fail = true }
    else placed (if leb n s.position then some (s.position - n) else none) s

-- ===== src/Yaml/Parser.antt =====
-- src/yaml_parser.cpp: the parser. Its functions read lines from one stream and step back in it. The
-- counter of lines is written and never read, and is left out.
pub mod Within
pub mod Lists
pub mod Elements
pub mod Ending
pub mod Printing
pub mod Words
pub mod Members
pub mod ReadingBack
use launch_cpp.Prelude.{
  ℕ, zero, suc, ◌+◌, ◌*◌, Bool, true, false, not, ◌&&◌, ◌||◌, Option, none, some, [], ◌∷◌, ◌++◌,
  Str, codes, str_eq, ◌==◌, leb, ltb, length, is_empty, is_some, if◌then◌else◌,
}
use launch_cpp.Errors.{Error, Result, ok, err, error, invalid_argument}
use launch_cpp.Yaml.{
  Floats, YamlValue, null, string, number, boolean, add_array_element, set_object_field,
}
use launch_cpp.Yaml.Texts.{
  trim, get_indent, is_skipped, begins_with, split_at, tail, unquote, is_number,
}
use launch_cpp.Yaml.Streams.{Stream, at, getline, tellg, seekg, seek_back}
use launch_cpp.Yaml.Steps.{Outcome, returns, throws, no_fuel, Parse, ◌>>=◌, with_position}
use launch_cpp.Yaml.Rounds.{
  value_round, dash_item, array_item, array_round, reread, key_value, first_field, field_line,
  fields_round, ahead_round, nested, entry, object_line, object_round,
}

module _ (floats : Floats) where
  module _ (content : Str) where
    unfoldable pub parse_value : ℕ → Stream → Parse (Result (YamlValue floats))
    unfolding value_round
    parse_value zero s = no_fuel
    parse_value (suc f) s = value_round floats (λ s'. parse_value f s') (getline content s)

    unfoldable pub look_ahead : ℕ → Stream → Parse (Option Str)
    unfolding ahead_round
    look_ahead zero s = no_fuel
    look_ahead (suc f) s = ahead_round floats (λ s'. look_ahead f s') (getline content s)

    unfoldable mutual
      unfolding array_round first_field fields_round parse_value

      pub parse_array : ℕ → ℕ → YamlValue floats → Stream → Parse (Result (YamlValue floats))
      parse_array zero base arr s = no_fuel
      parse_array (suc f) base arr s =
          array_round floats (λ arr' s'. parse_array f base arr' s') (parse_value f)
            (λ line s'. parse_element f base line s') base arr (getline content s)

      pub parse_element : ℕ → ℕ → Str → Stream → Parse (YamlValue floats)
      parse_element zero base line s = no_fuel
      parse_element (suc f) base line s =
          first_field floats content (λ indent s'. parse_array f indent (null floats) s')
            (parse_value f) base (split_at b':' (trim (tail (trim line)))) s
          >>= (λ obj s'. with_position (λ pos s2. parse_fields f base pos obj s2) (tellg s'))

      pub parse_fields : ℕ → ℕ → Option ℕ → YamlValue floats → Stream → Parse (YamlValue floats)
      parse_fields zero base pos obj s = no_fuel
      parse_fields (suc f) base pos obj s =
          fields_round floats content (λ pos' obj' s'. parse_fields f base pos' obj' s')
            (λ indent s'. parse_array f indent (null floats) s') (parse_value f) base pos obj
            (getline content s)

    unfoldable pub parse_object :
        ℕ → ℕ → YamlValue floats → Stream → Parse (Result (YamlValue floats))
    unfolding object_round parse_array look_ahead
    parse_object zero base obj s = no_fuel
    parse_object (suc f) base obj s =
        object_round floats (λ obj' s'. parse_object f base obj' s')
          (λ indent s'. parse_array f indent (null floats) s')
          (λ indent s'. parse_object f indent (null floats) s') (look_ahead f) base obj
          (getline content s)

  abbrev pub result_of : Parse (Result (YamlValue floats)) → Outcome (Result (YamlValue floats))
  result_of (returns (r, s)) = returns r
  result_of throws = throws
  result_of no_fuel = no_fuel

  -- Three units of fuel for each byte are enough.
  abbrev pub fuel_for : Str → ℕ
  fuel_for content = 3 * length content + 6

  unfoldable pub parse : Str → Outcome (Result (YamlValue floats))
  unfolding parse_object
  parse content = result_of (parse_object content (fuel_for content) 0 (null floats) (at 0))

  -- `read` gives the bytes of a file, or `none` where it cannot be opened.
  unfoldable pub parse_file : (read : Str → Option Str) → Str → Outcome (Result (YamlValue floats))
  unfolding parse
  parse_file read file_path = elim (read file_path) [
    | none ↦ returns (err (error invalid_argument (codes "Failed to open file: " ++ file_path)))
    | some content ↦ parse content
  ]

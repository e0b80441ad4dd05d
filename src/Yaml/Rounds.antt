-- ===== src/Yaml/Rounds.antt =====
-- src/yaml_parser.cpp: one round of each loop of the parser, on a line that was read. What goes on
-- after the round is an argument.
use launch_cpp.Prelude.{
  ℕ, ◌+◌, Bool, ◌&&◌, Option, none, some, Str, leb, ltb, length, is_empty, is_some, if◌then◌else◌,
}
use launch_cpp.Errors.{Result, ok}
use launch_cpp.Yaml.{Floats, YamlValue, null, add_array_element, set_object_field}
use launch_cpp.Yaml.Texts.{trim, get_indent, is_skipped, begins_with, split_at, tail}
use launch_cpp.Yaml.Streams.{Stream, getline, tellg, seekg, seek_back}
use launch_cpp.Yaml.Scalars.{parse_scalar, store, inline_array, inline_elements}
use launch_cpp.Yaml.Steps.{returns, throws, Parse, ◌>>=◌, checked, with_position}

-- `line_str.substr(base_indent + 2)` is out of range.
abbrev pub is_too_short : ℕ → Str → Bool
is_too_short base line = ltb (length line) (base + 2)

module _ (floats : Floats) where
  unfoldable pub value_round :
      (Stream → Parse (Result (YamlValue floats)))
      → Option Str × Stream
      → Parse (Result (YamlValue floats))
  value_round again (none, s) = returns (ok (null floats), s)
  value_round again (some line, s) =
      if is_skipped (trim line) then again s else returns (parse_scalar floats (trim line), s)

  -- A list item after its dash, on the rest of the line.
  unfoldable pub dash_item :
      (again : YamlValue floats → Stream → Parse (Result (YamlValue floats)))
      (value : Stream → Parse (Result (YamlValue floats)))
      (element : Str → Stream → Parse (YamlValue floats))
      → YamlValue floats
      → Str
      → Str
      → Stream
      → Parse (Result (YamlValue floats))
  dash_item again value element arr line content s =
      if is_empty content
      then value s >>= checked (λ v. again (add_array_element floats v arr))
      else if is_some (split_at b':' content)
      then element line s >>= (λ v. again (add_array_element floats v arr))
      else checked (λ v. again (add_array_element floats v arr)) (parse_scalar floats content) s

  unfoldable pub array_item :
      (again : YamlValue floats → Stream → Parse (Result (YamlValue floats)))
      (value : Stream → Parse (Result (YamlValue floats)))
      (element : Str → Stream → Parse (YamlValue floats))
      → ℕ
      → YamlValue floats
      → Str
      → Stream
      → Parse (Result (YamlValue floats))
  unfolding dash_item
  array_item again value element base arr line s =
      if ltb (get_indent line) base
      then returns (ok arr, seek_back (length line + 1) s)
      else if begins_with b'-' (trim line)
      then dash_item again value element arr line (trim (tail (trim line))) s
      else again arr s

  unfoldable pub array_round :
      (again : YamlValue floats → Stream → Parse (Result (YamlValue floats)))
      (value : Stream → Parse (Result (YamlValue floats)))
      (element : Str → Stream → Parse (YamlValue floats))
      → ℕ
      → YamlValue floats
      → Option Str × Stream
      → Parse (Result (YamlValue floats))
  unfolding array_item
  array_round again value element base arr (none, s) = returns (ok arr, s)
  array_round again value element base arr (some line, s) =
      if is_skipped (trim line) then again arr s else array_item again value element base arr line s

  -- What follows a key with nothing behind its colon: the next line is read, and read again as an
  -- array when it is a list item further in than `indent`, and as one value otherwise.
  unfoldable pub reread :
      (array : ℕ → Stream → Parse (Result (YamlValue floats)))
      (value : Stream → Parse (Result (YamlValue floats)))
      → ℕ
      → Str
      → YamlValue floats
      → Option ℕ
      → Option Str × Stream
      → Parse (YamlValue floats)
  reread array value indent key obj pos (none, s) =
      returns (set_object_field floats key (null floats) obj, s)
  reread array value indent key obj pos (some next, s) =
      (if ltb indent (get_indent next) && begins_with b'-' (trim next)
        then array (get_indent next) (seekg pos s)
        else value (seekg pos s))
      >>= (λ r s'. returns (store floats key r obj, s'))

  unfoldable pub key_value :
      (content : Str) (array : ℕ → Stream → Parse (Result (YamlValue floats)))
      (value : Stream → Parse (Result (YamlValue floats)))
      → ℕ
      → Str × Str
      → YamlValue floats
      → Stream
      → Parse (YamlValue floats)
  unfolding reread
  key_value content array value indent (key, text) obj s =
      if is_empty (trim text)
      then with_position
          (λ pos s'. reread array value indent (trim key) obj pos (getline content s')) (tellg s)
      else returns (store floats (trim key) (parse_scalar floats (trim text)) obj, s)

  unfoldable pub first_field :
      (content : Str) (array : ℕ → Stream → Parse (Result (YamlValue floats)))
      (value : Stream → Parse (Result (YamlValue floats)))
      → ℕ
      → Option (Str × Str)
      → Stream
      → Parse (YamlValue floats)
  unfolding key_value
  first_field content array value base none s = returns (null floats, s)
  first_field content array value base (some parts) s =
      key_value content array value base parts (null floats) s

  -- A further line of an object in a list. A list item ends the object, and the array that is read
  -- there is dropped.
  unfoldable pub field_line :
      (content : Str) (again : Option ℕ → YamlValue floats → Stream → Parse (YamlValue floats))
      (array : ℕ → Stream → Parse (Result (YamlValue floats)))
      (value : Stream → Parse (Result (YamlValue floats)))
      → Option ℕ
      → YamlValue floats
      → Str
      → Stream
      → Option (Str × Str)
      → Parse (YamlValue floats)
  unfolding key_value
  field_line content again array value pos obj line s none =
      if begins_with b'-' (trim line)
      then array (get_indent line) (seekg pos s) >>= (λ r s'. returns (obj, s'))
      else with_position (λ pos' s'. again pos' obj s') (tellg s)
  field_line content again array value pos obj line s (some parts) =
      if begins_with b'-' (trim line)
      then array (get_indent line) (seekg pos s) >>= (λ r s'. returns (obj, s'))
      else key_value content array value (get_indent line) parts obj s
        >>= (λ obj' s'. with_position (λ pos' s2. again pos' obj' s2) (tellg s'))

  unfoldable pub fields_round :
      (content : Str) (again : Option ℕ → YamlValue floats → Stream → Parse (YamlValue floats))
      (array : ℕ → Stream → Parse (Result (YamlValue floats)))
      (value : Stream → Parse (Result (YamlValue floats)))
      → ℕ
      → Option ℕ
      → YamlValue floats
      → Option Str × Stream
      → Parse (YamlValue floats)
  unfolding field_line
  fields_round content again array value base pos obj (none, s) = returns (obj, s)
  fields_round content again array value base pos obj (some line, s) =
      if is_skipped (trim line)
      then with_position (λ pos' s'. again pos' obj s') (tellg s)
      else if leb (get_indent line) base
      then returns (obj, seekg pos s)
      else if is_too_short base line
      then throws
      else field_line content again array value pos obj line s (split_at b':' (trim line))

  -- The next line that is not skipped.
  unfoldable pub ahead_round :
      (Stream → Parse (Option Str)) → Option Str × Stream → Parse (Option Str)
  ahead_round again (none, s) = returns (none, s)
  ahead_round again (some line, s) =
      if is_skipped (trim line) then again s else returns (some line, s)

  unfoldable pub nested :
      (again : YamlValue floats → Stream → Parse (Result (YamlValue floats)))
      (array object : ℕ → Stream → Parse (Result (YamlValue floats)))
      → ℕ
      → Str
      → YamlValue floats
      → Option ℕ
      → Option Str
      → Stream
      → Parse (Result (YamlValue floats))
  nested again array object indent key obj pos none s =
      again (set_object_field floats key (null floats) obj) s
  nested again array object indent key obj pos (some next) s =
      if ltb indent (get_indent next)
      then (if begins_with b'-' (trim next)
          then array (get_indent next) (seekg pos s)
          else object (get_indent next) (seekg pos s))
        >>= checked (λ v. again (set_object_field floats key v obj))
      else again (set_object_field floats key (null floats) obj) (seekg pos s)

  unfoldable pub entry :
      (again : YamlValue floats → Stream → Parse (Result (YamlValue floats)))
      (array object : ℕ → Stream → Parse (Result (YamlValue floats)))
      (ahead : Stream → Parse (Option Str))
      → ℕ
      → Str
      → Str
      → YamlValue floats
      → Stream
      → Parse (Result (YamlValue floats))
  unfolding nested inline_elements
  entry again array object ahead indent key text obj s =
      if is_empty text
      then with_position (λ pos s'. ahead s' >>= nested again array object indent key obj pos)
          (tellg s)
      else if begins_with b'[' text
      then again (set_object_field floats key (inline_array floats (tail text)) obj) s
      else checked (λ v. again (set_object_field floats key v obj)) (parse_scalar floats text) s

  unfoldable pub object_line :
      (again : YamlValue floats → Stream → Parse (Result (YamlValue floats)))
      (array object : ℕ → Stream → Parse (Result (YamlValue floats)))
      (ahead : Stream → Parse (Option Str))
      → ℕ
      → YamlValue floats
      → Stream
      → Option (Str × Str)
      → Parse (Result (YamlValue floats))
  unfolding entry
  object_line again array object ahead indent obj s none = again obj s
  object_line again array object ahead indent obj s (some (key, text)) =
      entry again array object ahead indent (trim key) (trim text) obj s

  -- The line that ends an object is not put back.
  unfoldable pub object_round :
      (again : YamlValue floats → Stream → Parse (Result (YamlValue floats)))
      (array object : ℕ → Stream → Parse (Result (YamlValue floats)))
      (ahead : Stream → Parse (Option Str))
      → ℕ
      → YamlValue floats
      → Option Str × Stream
      → Parse (Result (YamlValue floats))
  unfolding object_line
  object_round again array object ahead base obj (none, s) = returns (ok obj, s)
  object_round again array object ahead base obj (some line, s) =
      if is_skipped (trim line)
      then again obj s
      else if ltb (get_indent line) base && ltb 0 base
      then returns (ok obj, s)
      else object_line again array object ahead (get_indent line) obj s (split_at b':' (trim line))

-- ===== src/Yaml/Scalars.antt =====
-- src/yaml_parser.cpp: values on one line.
use launch_cpp.Prelude.{
  ℕ, zero, suc, Bool, true, false, not, ◌&&◌, ◌||◌, Option, none, some, Str, codes, str_eq, length,
  is_empty, if◌then◌else◌,
}
use launch_cpp.Errors.{Result, ok, err}
use launch_cpp.Yaml.{
  Floats, YamlValue, null, string, number, boolean, add_array_element, set_object_field,
}
use launch_cpp.Yaml.Texts.{trim, split_at, unquote, is_number}

abbrev pub is_true_word : Str → Bool
is_true_word s = str_eq s (codes "true") || (str_eq s (codes "yes") || str_eq s (codes "on"))

abbrev pub is_false_word : Str → Bool
is_false_word s = str_eq s (codes "false") || (str_eq s (codes "no") || str_eq s (codes "off"))

module _ (floats : Floats) where
  open floats use {Double}

  abbrev pub Y : Type 0
  Y = YamlValue floats

  abbrev pub number_or_string : Str → Option Double → Result Y
  number_or_string s (some d) = ok (number floats d)
  number_or_string s none = ok (string floats (unquote s))

  unfoldable pub parse_trimmed : Str → Result Y
  parse_trimmed s =
      if is_true_word s
      then ok (boolean floats true)
      else if is_false_word s
      then ok (boolean floats false)
      else if is_number s && not (is_empty s)
      then number_or_string s (floats.stod s)
      else ok (string floats (unquote s))

  unfoldable pub parse_scalar : Str → Result Y
  unfolding parse_trimmed
  parse_scalar value = parse_trimmed (trim value)

  -- A value that could not be parsed is not stored.
  abbrev pub store : Str → Result Y → Y → Y
  store key (ok v) obj = set_object_field floats key v obj
  store key (err e) obj = obj

  -- The loop over the elements of "[a, b]": up to a comma, or to a bracket where no comma is left.
  abbrev pub add_scalar : Str → Y → Y
  add_scalar elem arr =
      if is_empty elem
      then arr
      else elim (parse_scalar elem) [ ok v ↦ add_array_element floats v arr | err e ↦ arr ]

  abbrev pub cut : Str → Option (Str × Str)
  cut s = elim (split_at b',' s) [ none ↦ split_at b']' s | some parts ↦ some parts ]

  -- Each round takes at least one byte of the text.
  unfoldable pub inline_elements : ℕ → Str → Y → Y
  unfolding parse_scalar
  inline_elements zero s arr = arr
  inline_elements (suc f) s arr = elim (cut s) [
    | none ↦ arr
    | some parts ↦ inline_elements f parts.1 (add_scalar (trim parts.0) arr)
  ]

  abbrev pub inline_array : Str → Y
  inline_array s = inline_elements (length s) s (null floats)

-- ===== src/Yaml/Parser/Lists.antt =====
-- How much of the text the rounds over a list and over its items leave, in src/yaml_parser.cpp.
use launch_cpp.Prelude.{
  ℕ, ◌+◌, ◌≤◌, ◌<◌, true, false, ◌&&◌, Option, none, some, Str, ◌≡◌, ltb, length, is_some, is_empty,
  if_both, if_split, arith,
}
use launch_cpp.Errors.{Result}
use launch_cpp.Yaml.{Floats, null}
use launch_cpp.Yaml.Texts.{trim, get_indent, is_skipped, begins_with, split_at, tail}
use launch_cpp.Yaml.Texts.Lengths.{line_length, item_length}
use launch_cpp.Yaml.Streams.{Stream, getline, tellg, seekg}
use launch_cpp.Yaml.Streams.Measure.{
  measure, pos_measure, measure-seekg, measure-tellg, Read, getline-Read,
}
use launch_cpp.Yaml.Scalars.{Y}
use launch_cpp.Yaml.Steps.{Parse}
use launch_cpp.Yaml.Rounds.{dash_item, array_item, array_round, reread, key_value, first_field}
use launch_cpp.Yaml.Parser.Within.{
  IsOk, parse_scalar-IsOk, Within, Any, Within-mono, bind-Within, checked-Within,
}

module _ (floats : Floats) (content : Str) where
  abbrev pub left : Stream → ℕ
  left s = measure content s

  abbrev pub Gives : {A : Type 0} → (A → Type 0) → ℕ → Parse A → Type 0
  Gives G n m = Within floats content G n m

  -- The parts of a round over a list, from a stream with `n` left.
  module _ (n : ℕ) (again : Y floats → Stream → Parse (Result (Y floats)))
      (value : Stream → Parse (Result (Y floats))) (element : Str → Stream → Parse (Y floats))
      (on_again : (arr : Y floats) (s : Stream) → left s < n → Gives IsOk (n + 1) (again arr s))
      (on_value : (s : Stream) → left s < n → Gives IsOk (left s) (value s))
      (on_element : (line : Str) (s : Stream)
        → left s + 3 ≤ n
        → Gives Any (left s + 2) (element line s)) where
    dash_item-Within :
        (arr : Y floats) (line : Str) (s : Stream)
        → left s + length line + 1 ≤ n
        → 1 ≤ length line
        → begins_with b'-' (trim line) ≡ true
        → Gives IsOk
            (n + 1)
            (dash_item floats again value element arr line (trim (tail (trim line))) s)
    unfolding dash_item
    dash_item-Within arr line s h l d =
        if_both (Gives IsOk (n + 1)) (is_empty (trim (tail (trim line)))) _ _
          (bind-Within floats content IsOk IsOk (left s) (n + 1) _ _ (on_value s (omega arith))
            λ r s' good le.
              checked-Within floats content (n + 1) _ r s' good λ v. on_again _ s' (omega arith))
          (if_split (Gives IsOk (n + 1)) (is_some (split_at b':' (trim (tail (trim line))))) _ _
            (λ c.
              bind-Within floats content Any IsOk (left s + 2) (n + 1) _ _
                (on_element line s (omega (arith, item_length line d c)))
                λ v s' good le. on_again _ s' (omega (arith, item_length line d c)))
            (λ c.
              checked-Within floats content (n + 1) _ _ s
                (parse_scalar-IsOk floats (trim (tail (trim line))))
                λ v. on_again _ s (omega arith)))

    array_item-Within :
        (base : ℕ) (arr : Y floats) (line : Str) (s s0 : Stream)
        → left s0 ≡ n
        → Read content s0 (some line, s)
        → is_skipped (trim line) ≡ false
        → Gives IsOk (n + 1) (array_item floats again value element base arr line s)
    unfolding array_item
    array_item-Within base arr line s s0 e h k =
        if_both (Gives IsOk (n + 1)) (ltb (get_indent line) base) _ _ (tt, omega arith)
          (if_split (Gives IsOk (n + 1)) (begins_with b'-' (trim line)) _ _
            (λ d. dash_item-Within arr line s (omega arith) (line_length line k) d)
            (λ d. on_again arr s (omega arith)))

    pub array_round-Within :
        (base : ℕ) (arr : Y floats) (s0 : Stream) (r : Option Str × Stream)
        → left s0 ≡ n
        → Read content s0 r
        → Gives IsOk (n + 1) (array_round floats again value element base arr r)
    unfolding array_round
    array_round-Within base arr s0 (none, s) e h = (tt, omega arith)
    array_round-Within base arr s0 (some line, s) e h =
        if_split (Gives IsOk (n + 1)) (is_skipped (trim line)) _ _
          (λ k. on_again arr s (omega arith)) (λ k. array_item-Within base arr line s s0 e h k)

  -- What a nested array and a nested value do, from a stream with at most `n` left.
  module _ (n : ℕ) (array : ℕ → Stream → Parse (Result (Y floats)))
      (value : Stream → Parse (Result (Y floats)))
      (on_array : (base : ℕ) (s : Stream) → left s ≤ n → Gives IsOk (left s + 1) (array base s))
      (on_value : (s : Stream) → left s ≤ n → Gives IsOk (left s) (value s)) where
    reread-Within :
        (indent : ℕ) (key : Str) (obj : Y floats) (s0 : Stream) (pos : Option ℕ)
        (r : Option Str × Stream)
        → left s0 ≤ n
        → pos_measure content pos ≤ left s0
        → Read content s0 r
        → Gives Any (left s0 + 1) (reread floats array value indent key obj pos r)
    unfolding reread
    reread-Within indent key obj s0 pos (none, s) m p h = (tt, omega arith)
    reread-Within indent key obj s0 pos (some next, s) m p h =
        bind-Within floats content IsOk Any (left s0 + 1) (left s0 + 1) _ _
          (if_both (Gives IsOk (left s0 + 1))
            (ltb indent (get_indent next) && begins_with b'-' (trim next)) _ _
            (Within-mono floats content IsOk _ _ _ (omega (arith, measure-seekg content pos s)) (
              on_array (get_indent next) (seekg pos s)
                (omega (arith, measure-seekg content pos s))))
            (Within-mono floats content IsOk _ _ _ (omega (arith, measure-seekg content pos s))
              (on_value (seekg pos s) (omega (arith, measure-seekg content pos s)))))
          (λ r s' good le. (tt, le))

    pub key_value-Within :
        (indent : ℕ) (parts : Str × Str) (obj : Y floats) (s : Stream)
        → left s ≤ n
        → Gives Any (left s + 1) (key_value floats content array value indent parts obj s)
    unfolding key_value
    key_value-Within indent (key, text) obj s m =
        if_both (Gives Any (left s + 1)) (is_empty (trim text)) _ _
          (Within-mono floats content Any _ _ _ (omega (arith, measure-tellg content s)) (
            reread-Within indent (trim key) obj (tellg s).1 (tellg s).0
              (getline content (tellg s).1) (omega (arith, measure-tellg content s))
              (omega (arith, measure-tellg content s)) (getline-Read content (tellg s).1)))
          (tt, omega arith)

    pub first_field-Within :
        (base : ℕ) (parts : Option (Str × Str)) (s : Stream)
        → left s ≤ n
        → Gives Any (left s + 1) (first_field floats content array value base parts s)
    unfolding first_field
    first_field-Within base none s m = (tt, omega arith)
    first_field-Within base (some parts) s m = key_value-Within base parts (null floats) s m

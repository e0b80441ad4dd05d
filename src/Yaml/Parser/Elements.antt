-- ===== src/Yaml/Parser/Elements.antt =====
-- The arrays of src/yaml_parser.cpp and the objects in them end on every text.
use launch_cpp.Prelude.{
  ℕ, zero, suc, ◌+◌, ◌*◌, ◌≤◌, ◌<◌, true, false, Option, none, some, Str, ◌≡◌, refl, leb, if_both,
  if_split, Bool-cases, inl, inr, arith,
}
use launch_cpp.Errors.{Result}
use launch_cpp.Yaml.{Floats, null}
use launch_cpp.Yaml.Texts.{trim, get_indent, is_skipped, begins_with, split_at, tail}
use launch_cpp.Yaml.Texts.Lengths.{has_byte, line_length, get_indent-lt-length}
use launch_cpp.Yaml.Streams.{Stream, getline, tellg, seekg}
use launch_cpp.Yaml.Streams.Measure.{pos_measure, measure-seekg, measure-tellg, Read, getline-Read}
use launch_cpp.Yaml.Scalars.{Y}
use launch_cpp.Yaml.Steps.{returns, Parse, ◌>>=◌}
use launch_cpp.Yaml.Rounds.{is_too_short, field_line, fields_round}
use launch_cpp.Yaml.Parser.{parse_value, parse_array, parse_element, parse_fields}
use launch_cpp.Yaml.Parser.Within.{IsOk, Any, Within-mono, bind-Within, parse_value-Within}
use launch_cpp.Yaml.Parser.Lists.{
  left, Gives, array_round-Within, key_value-Within, first_field-Within,
}

-- A line that is too short for its indent has a tab.
too_short-has_byte :
    (base : ℕ) (line : Str)
    → is_skipped (trim line) ≡ false
    → leb (get_indent line) base ≡ false
    → is_too_short base line ≡ true
    → has_byte 9 line ≡ true
too_short-has_byte base line k h t = elim (Bool-cases (has_byte 9 line)) [
  | inl tab ↦ tab
  | inr no_tab ↦ ground (arith, get_indent-lt-length line no_tab k)
]

module _ (floats : Floats) (content : Str) where
  module _ (n : ℕ) (again : Option ℕ → Y floats → Stream → Parse (Y floats))
      (array : ℕ → Stream → Parse (Result (Y floats))) (value : Stream → Parse (Result (Y floats)))
      (on_again : (pos : Option ℕ) (obj : Y floats) (s : Stream)
        → left floats content s < n
        → pos_measure content pos ≤ left floats content s
        → Gives floats content Any (n + 1) (again pos obj s))
      (on_array : (base : ℕ) (s : Stream)
        → left floats content s ≤ n
        → Gives floats content IsOk (left floats content s + 1) (array base s))
      (on_value : (s : Stream)
        → left floats content s ≤ n
        → Gives floats content IsOk (left floats content s) (value s)) where
    from_position-Within :
        (obj : Y floats) (s : Stream)
        → left floats content s < n
        → Gives floats content Any (n + 1) (again (tellg s).0 obj (tellg s).1)
    from_position-Within obj s m =
        on_again (tellg s).0 obj (tellg s).1 (omega (arith, measure-tellg content s))
          (omega (arith, measure-tellg content s))

    array_at-Within :
        (base : ℕ) (obj : Y floats) (pos : Option ℕ) (s : Stream)
        → pos_measure content pos ≤ n
        → Gives floats content Any
            (n + 1)
            (◌>>=◌ (array base (seekg pos s)) (λ r s'. returns (obj, s')))
    array_at-Within base obj pos s p =
        bind-Within floats content IsOk Any (n + 1) (n + 1) _ _
          (Within-mono floats content IsOk _ _ _ (omega (arith, measure-seekg content pos s))
            (on_array base (seekg pos s) (omega (arith, measure-seekg content pos s))))
          (λ r s' good le. (tt, le))

    field_line-Within :
        (pos : Option ℕ) (obj : Y floats) (line : Str) (s : Stream) (parts : Option (Str × Str))
        → left floats content s + 2 ≤ n
        → pos_measure content pos ≤ n
        → Gives floats content Any
            (n + 1)
            (field_line floats content again array value pos obj line s parts)
    unfolding field_line
    field_line-Within pos obj line s none m p =
        if_both (Gives floats content Any (n + 1)) (begins_with b'-' (trim line)) _ _
          (array_at-Within (get_indent line) obj pos s p) (from_position-Within obj s (omega arith))
    field_line-Within pos obj line s (some parts) m p =
        if_both (Gives floats content Any (n + 1)) (begins_with b'-' (trim line)) _ _
          (array_at-Within (get_indent line) obj pos s p)
          (bind-Within floats content Any Any _ (n + 1) _ _
            (key_value-Within floats content n array value on_array on_value (get_indent line) parts
              obj s (omega arith))
            (λ obj' s' good le. from_position-Within obj' s' (omega arith)))

    fields_round-Within :
        (base : ℕ) (pos : Option ℕ) (obj : Y floats) (s0 : Stream) (r : Option Str × Stream)
        → left floats content s0 ≡ n
        → pos_measure content pos ≤ n
        → Read content s0 r
        → Gives floats content Any
            (n + 1)
            (fields_round floats content again array value base pos obj r)
    unfolding fields_round
    fields_round-Within base pos obj s0 (none, s) e p h = (tt, omega arith)
    fields_round-Within base pos obj s0 (some line, s) e p h =
        if_split (Gives floats content Any (n + 1)) (is_skipped (trim line)) _ _
          (λ k. from_position-Within obj s (omega arith))
          (λ k.
            if_split (Gives floats content Any (n + 1)) (leb (get_indent line) base) _ _
              (λ i. (tt, omega (arith, measure-seekg content pos s)))
              (λ i.
                if_split (Gives floats content Any (n + 1)) (is_too_short base line) _ _
                  (λ t. h.2 (too_short-has_byte base line k i t))
                  (λ t.
                    field_line-Within pos obj line s (split_at b':' (trim line))
                      (omega (arith, line_length line k)) p)))

  mutual
    unfolding parse_array

    pub parse_array-Within :
        (f base : ℕ) (arr : Y floats) (s : Stream)
        → 3 * left floats content s + 1 ≤ f
        → Gives floats content IsOk
            (left floats content s + 1)
            (parse_array floats content f base arr s)
    parse_array-Within zero base arr s h = absurd (omega arith)
    parse_array-Within (suc f) base arr s h =
        array_round-Within floats content (left floats content s)
          (λ arr' s'. parse_array floats content f base arr' s') (parse_value floats content f)
          (λ line s'. parse_element floats content f base line s')
          (λ arr' s' lt.
            Within-mono floats content IsOk _ _ _ (omega arith)
              (parse_array-Within f base arr' s' (omega arith)))
          (λ s' lt. parse_value-Within floats content f s' (omega arith))
          (λ line s' lt. parse_element-Within f base line s' (omega arith)) base arr s
          (getline content s) refl (getline-Read content s)

    parse_element-Within :
        (f base : ℕ) (line : Str) (s : Stream)
        → 3 * left floats content s + 6 ≤ f
        → Gives floats content Any
            (left floats content s + 2)
            (parse_element floats content f base line s)
    parse_element-Within zero base line s h = absurd (omega arith)
    parse_element-Within (suc f) base line s h =
        bind-Within floats content Any Any (left floats content s + 1) _ _ _
          (first_field-Within floats content (left floats content s)
            (λ indent s'. parse_array floats content f indent (null floats) s')
            (parse_value floats content f)
            (λ indent s' le. parse_array-Within f indent (null floats) s' (omega arith))
            (λ s' le. parse_value-Within floats content f s' (omega arith)) base
            (split_at b':' (trim (tail (trim line)))) s (omega arith))
          (λ obj s' good le.
            Within-mono floats content Any _ _ _ (omega (arith, measure-tellg content s')) (
              parse_fields-Within f base (tellg s').0 obj (tellg s').1
                (omega (arith, measure-tellg content s'))
                (omega (arith, measure-tellg content s'))))

    parse_fields-Within :
        (f base : ℕ) (pos : Option ℕ) (obj : Y floats) (s : Stream)
        → 3 * left floats content s + 2 ≤ f
        → pos_measure content pos ≤ left floats content s
        → Gives floats content Any
            (left floats content s + 1)
            (parse_fields floats content f base pos obj s)
    parse_fields-Within zero base pos obj s h p = absurd (omega arith)
    parse_fields-Within (suc f) base pos obj s h p =
        fields_round-Within (left floats content s)
          (λ pos' obj' s'. parse_fields floats content f base pos' obj' s')
          (λ indent s'. parse_array floats content f indent (null floats) s')
          (parse_value floats content f)
          (λ pos' obj' s' lt p'.
            Within-mono floats content Any _ _ _ (omega arith)
              (parse_fields-Within f base pos' obj' s' (omega arith) p'))
          (λ indent s' le. parse_array-Within f indent (null floats) s' (omega arith))
          (λ s' le. parse_value-Within floats content f s' (omega arith)) base pos obj s
          (getline content s) refl p (getline-Read content s)

-- ===== src/Yaml/Parser/Ending.antt =====
-- The parser of src/yaml_parser.cpp ends on every text, and reports no error.
use launch_cpp.Prelude.{
  ℕ, zero, suc, ◌+◌, ◌*◌, ◌≤◌, ◌<◌, true, ◌&&◌, Option, none, some, Str, ◌≡◌, refl, ltb, is_empty,
  if_both, if_split, inl, inr, arith, ◌⊎◌,
}
use launch_cpp.Errors.{Result, ok, err}
use launch_cpp.Yaml.{Floats, null}
use launch_cpp.Yaml.Texts.{trim, get_indent, is_skipped, begins_with, split_at}
use launch_cpp.Yaml.Texts.Lengths.{has_byte, line_length}
use launch_cpp.Yaml.Streams.{Stream, at, getline, tellg, seekg}
use launch_cpp.Yaml.Streams.Measure.{
  pos_measure, measure-at, measure-seekg, measure-tellg, Read, getline-Read,
}
use launch_cpp.Yaml.Scalars.{Y}
use launch_cpp.Yaml.Steps.{Outcome, returns, throws, no_fuel, Parse}
use launch_cpp.Yaml.Rounds.{nested, entry, object_line, object_round}
use launch_cpp.Yaml.Parser.{look_ahead, parse_array, parse_object, result_of, fuel_for, parse}
use launch_cpp.Yaml.Parser.Within.{
  IsOk, parse_scalar-IsOk, Any, Within-mono, bind-Within, checked-Within, look_ahead-Within,
}
use launch_cpp.Yaml.Parser.Lists.{left, Gives}
use launch_cpp.Yaml.Parser.Elements.{parse_array-Within}

module _ (floats : Floats) (content : Str) where
  -- The parts of a round over an object, from a stream with `n` left.
  module _ (n : ℕ) (again : Y floats → Stream → Parse (Result (Y floats)))
      (array object : ℕ → Stream → Parse (Result (Y floats))) (ahead : Stream → Parse (Option Str))
      (on_again : (obj : Y floats) (s : Stream)
        → left floats content s < n
        → Gives floats content IsOk n (again obj s))
      (on_array : (base : ℕ) (s : Stream)
        → left floats content s < n
        → Gives floats content IsOk (left floats content s + 1) (array base s))
      (on_object : (base : ℕ) (s : Stream)
        → left floats content s < n
        → Gives floats content IsOk (left floats content s) (object base s))
      (on_ahead : (s : Stream)
        → left floats content s < n
        → Gives floats content Any (left floats content s) (ahead s)) where
    nested-Within :
        (indent : ℕ) (key : Str) (obj : Y floats) (pos : Option ℕ) (next : Option Str) (s : Stream)
        → left floats content s + 2 ≤ n
        → pos_measure content pos + 2 ≤ n
        → Gives floats content IsOk n (nested floats again array object indent key obj pos next s)
    unfolding nested
    nested-Within indent key obj pos none s m p = on_again _ s (omega arith)
    nested-Within indent key obj pos (some next) s m p =
        if_both (Gives floats content IsOk n) (ltb indent (get_indent next)) _ _
          (bind-Within floats content IsOk IsOk (pos_measure content pos + 1) n _ _
            (if_both (Gives floats content IsOk (pos_measure content pos + 1))
              (begins_with b'-' (trim next)) _ _
              (Within-mono floats content IsOk _ _ _ (omega (arith, measure-seekg content pos s)) (
                on_array (get_indent next) (seekg pos s)
                  (omega (arith, measure-seekg content pos s))))
              (Within-mono floats content IsOk _ _ _ (omega (arith, measure-seekg content pos s)) (
                on_object (get_indent next) (seekg pos s)
                  (omega (arith, measure-seekg content pos s)))))
            (λ r s' good le.
              checked-Within floats content n _ r s' good λ v. on_again _ s' (omega arith)))
          (on_again _ (seekg pos s) (omega (arith, measure-seekg content pos s)))

    entry-Within :
        (indent : ℕ) (key text : Str) (obj : Y floats) (s : Stream)
        → left floats content s + 2 ≤ n
        → Gives floats content IsOk n (entry floats again array object ahead indent key text obj s)
    unfolding entry
    entry-Within indent key text obj s m =
        if_both (Gives floats content IsOk n) (is_empty text) _ _
          (bind-Within floats content Any IsOk (left floats content s) n _ _
            (Within-mono floats content Any _ _ _ (omega (arith, measure-tellg content s))
              (on_ahead (tellg s).1 (omega (arith, measure-tellg content s))))
            (λ next s' good le.
              nested-Within indent key obj (tellg s).0 next s' (omega arith)
                (omega (arith, measure-tellg content s))))
          (if_both (Gives floats content IsOk n) (begins_with b'[' text) _ _
            (on_again _ s (omega arith))
            (checked-Within floats content n _ _ s (parse_scalar-IsOk floats text)
              λ v. on_again _ s (omega arith)))

    object_line-Within :
        (indent : ℕ) (obj : Y floats) (s : Stream) (parts : Option (Str × Str))
        → left floats content s + 2 ≤ n
        → Gives floats content IsOk n
            (object_line floats again array object ahead indent obj s parts)
    unfolding object_line
    object_line-Within indent obj s none m = on_again obj s (omega arith)
    object_line-Within indent obj s (some (key, text)) m =
        entry-Within indent (trim key) (trim text) obj s m

    object_round-Within :
        (base : ℕ) (obj : Y floats) (s0 : Stream) (r : Option Str × Stream)
        → left floats content s0 ≡ n
        → Read content s0 r
        → Gives floats content IsOk n (object_round floats again array object ahead base obj r)
    unfolding object_round
    object_round-Within base obj s0 (none, s) e h = (tt, omega arith)
    object_round-Within base obj s0 (some line, s) e h =
        if_split (Gives floats content IsOk n) (is_skipped (trim line)) _ _
          (λ k. on_again obj s (omega arith))
          (λ k.
            if_both (Gives floats content IsOk n) (ltb (get_indent line) base && ltb 0 base) _ _
              (tt, omega arith)
              (object_line-Within (get_indent line) obj s (split_at b':' (trim line))
                (omega (arith, line_length line k))))

  parse_object-Within :
      (f base : ℕ) (obj : Y floats) (s : Stream)
      → 3 * left floats content s + 2 ≤ f
      → Gives floats content IsOk (left floats content s) (parse_object floats content f base obj s)
  unfolding parse_object
  parse_object-Within zero base obj s h = absurd (omega arith)
  parse_object-Within (suc f) base obj s h =
      object_round-Within (left floats content s)
        (λ obj' s'. parse_object floats content f base obj' s')
        (λ indent s'. parse_array floats content f indent (null floats) s')
        (λ indent s'. parse_object floats content f indent (null floats) s')
        (look_ahead floats content f)
        (λ obj' s' lt.
          Within-mono floats content IsOk _ _ _ (omega arith)
            (parse_object-Within f base obj' s' (omega arith)))
        (λ indent s' lt. parse_array-Within floats content f indent (null floats) s' (omega arith))
        (λ indent s' lt. parse_object-Within f indent (null floats) s' (omega arith))
        (λ s' lt. look_ahead-Within floats content f s' (omega arith)) base obj s
        (getline content s) refl (getline-Read content s)

  abbrev Ends : Outcome (Result (Y floats)) → Type 0
  Ends o = ((v : Y floats) × (o ≡ returns (ok v))) ⊎ (o ≡ throws) × (has_byte 9 content ≡ true)

  Gives-Ends :
      (n : ℕ) (m : Parse (Result (Y floats)))
      → Gives floats content IsOk n m
      → Ends (result_of floats m)
  Gives-Ends n (returns (ok v, s)) h = inl (v, refl)
  Gives-Ends n (returns (err e, s)) h = elim h.0 [ ]
  Gives-Ends n throws h = inr (refl, h)
  Gives-Ends n no_fuel h = elim h [ ]

  -- On every text `parse` ends: with a value, never with an error, or by the exception of a `substr`
  -- out of range, and this only when the text holds a tab.
  pub parse_ends :
      ((v : Y floats) × (parse floats content ≡ returns (ok v)))
      ⊎ (parse floats content ≡ throws) × (has_byte 9 content ≡ true)
  unfolding parse
  parse_ends = Gives-Ends (left floats content (at 0)) _ (
      parse_object-Within (fuel_for floats content) 0 (null floats) (at 0)
        (omega (arith, measure-at content)))

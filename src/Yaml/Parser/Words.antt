-- ===== src/Yaml/Parser/Words.antt =====
-- The list of values below a key, as `parse_array` in src/yaml_parser.cpp reads it.
use launch_cpp.Prelude.{
  ℕ, zero, suc, ◌+◌, ◌≤◌, true, some, List, [], ◌∷◌, Str, ◌≡◌, refl, length, inl, inr, arith, ◌⊎◌,
  ◌∙◌,
}
use launch_cpp.Errors.{Result, ok}
use launch_cpp.Yaml.{Floats, add_array_element}
use launch_cpp.Yaml.Texts.Heads.{Elements, element-Elements, element_line}
use launch_cpp.Yaml.Texts.Outer.{IsOuter, GoesOut}
use launch_cpp.Yaml.Streams.{Stream, at, drop, seek_back}
use launch_cpp.Yaml.Streams.Lines.{getline-line, drop-getline, getline-end}
use launch_cpp.Yaml.Scalars.{Y, parse_scalar, parse_trimmed}
use launch_cpp.Yaml.Steps.{returns, Parse, checked}
use launch_cpp.Yaml.Rounds.{array_round, array_item, dash_item}
use launch_cpp.Yaml.Parser.{parse_array}
use launch_cpp.Yaml.Parser.Printing.{
  print_words, AreElements, size_words, size_words-pos, added, words_value,
}

seek_back-at : (p n : ℕ) → seek_back (n + 1) (at (p + n + 1)) ≡ at p
unfolding seek_back
seek_back-at p n = ground arith

module _ (floats : Floats) where
  checked-added :
      (again : Y floats → Stream → Parse (Result (Y floats))) (w : Str) (arr : Y floats)
      (s : Stream)
      → checked (λ v. again (add_array_element floats v arr)) (parse_scalar floats w) s
        ≡ again (added floats (parse_scalar floats w) arr) s
  unfolding parse_scalar parse_trimmed
  checked-added again w arr s = ground arith

  array_round-element_line :
      (again : Y floats → Stream → Parse (Result (Y floats)))
      (value : Stream → Parse (Result (Y floats))) (element : Str → Stream → Parse (Y floats))
      (arr : Y floats) (w : Str) (s : Stream)
      → Elements w
      → array_round floats again value element 6 arr (some (element_line w), s)
        ≡ again (added floats (parse_scalar floats w) arr) s
  unfolding array_round array_item dash_item
  array_round-element_line again value element arr w s e =
      rw (e.trims, e.indent, e.content, e.filled, e.one_value) (checked-added again w arr s)

  array_round-outer :
      (again : Y floats → Stream → Parse (Result (Y floats)))
      (value : Stream → Parse (Result (Y floats))) (element : Str → Stream → Parse (Y floats))
      (arr : Y floats) (n p : ℕ) (line : Str)
      → IsOuter n line
      → array_round floats again value element n arr (some line, at (p + length line + 1))
        ≡ returns (ok arr, at p)
  unfolding array_round array_item
  array_round-outer again value element arr n p line o =
      rw (o.kept, o.indent, seek_back-at p (length line)) refl

  module _ (content : Str) where
    -- The stream stands at `rest`, or it failed and nothing is left.
    abbrev pub Stands : Str → Stream → Type 0
    Stands rest s = ((p : ℕ) × (s ≡ at p) × (drop p content ≡ rest)) ⊎ (rest ≡ []) × (s.fail ≡ true)

    abbrev pub Gets : {A : Type 0} → A → Str → Parse A → Type 0
    Gets a rest m = (s : Stream) × (m ≡ returns (a, s)) × Stands rest s

    pub parse_array-print_words :
        (ws : List Str) (rest : Str) (f p : ℕ) (arr : Y floats)
        → AreElements ws
        → GoesOut 6 rest
        → size_words ws ≤ f
        → drop p content ≡ print_words ws rest
        → Gets (ok (words_value floats ws arr)) rest (parse_array floats content f 6 arr (at p))
    unfolding parse_array
    parse_array-print_words ws rest zero p arr are out m d =
        absurd (omega (arith, size_words-pos ws))
    parse_array-print_words [] rest (suc f) p arr are (inl e) m d = (
      record { position = p; eof = true; fail = true },
      rw (getline-end content p (d ∙ e)) refl,
      inr (e, refl),
    )
    parse_array-print_words [] rest (suc f) p arr are (inr (line, more, e, o)) m d = (
      at p,
      rw
          (
            getline-line content p line more o.one_line (d ∙ e),
            array_round-outer _ _ _ arr 6 p line o,
          )
          refl,
      inl (p, refl, d),
    )
    parse_array-print_words (w ∷ ws) rest (suc f) p arr are out m d =
        let e = element-Elements w are.0 in
        let line = element_line w in
        rw
          (
            getline-line content p line _ e.one_line d,
            array_round-element_line _ _ _ arr w (at (p + length line + 1)) e,
          )
          (parse_array-print_words ws rest f (p + length line + 1) _ are.1 out (omega arith)
            (drop-getline content p line _ d))

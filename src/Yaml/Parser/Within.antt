-- ===== src/Yaml/Parser/Within.antt =====
-- How much of the text the steps of the parser in src/yaml_parser.cpp leave, with the loops that only
-- go forward.
use launch_cpp.Prelude.{
  ℕ, zero, suc, ◌≤◌, ◌<◌, true, ◌&&◌, Option, none, some, Str, ◌≡◌, if_both, arith,
}
use launch_cpp.Errors.{Result, ok, err}
use launch_cpp.Yaml.{Floats}
use launch_cpp.Yaml.Texts.{trim, is_skipped, is_number}
use launch_cpp.Yaml.Texts.Lengths.{has_byte}
use launch_cpp.Yaml.Streams.{Stream}
use launch_cpp.Yaml.Streams.Measure.{measure, Read, getline-Read}
use launch_cpp.Yaml.Scalars.{
  Y, parse_trimmed, parse_scalar, number_or_string, is_true_word, is_false_word,
}
use launch_cpp.Yaml.Steps.{returns, throws, no_fuel, Parse, ◌>>=◌, checked}
use launch_cpp.Yaml.Rounds.{value_round, ahead_round}
use launch_cpp.Yaml.Parser.{parse_value, look_ahead}

abbrev pub IsOk : {A : Type 0} → Result A → Type 0
IsOk (ok a) = Unit {0}
IsOk (err e) = ⊥

abbrev pub Any : {A : Type 0} → A → Type 0
Any a = Unit {0}

module _ (floats : Floats) where
  number_or_string-IsOk : (t : Str) (d : Option floats.Double) → IsOk (number_or_string floats t d)
  number_or_string-IsOk t none = tt
  number_or_string-IsOk t (some d) = tt

  pub parse_scalar-IsOk : (t : Str) → IsOk (parse_scalar floats t)
  unfolding parse_scalar parse_trimmed
  parse_scalar-IsOk t = if_both IsOk (is_true_word (trim t)) _ _ tt (
      if_both IsOk (is_false_word (trim t)) _ _ tt (
        if_both IsOk (is_number (trim t) && _) _ _
          (number_or_string-IsOk (trim t) (floats.stod (trim t))) tt))

  module _ (content : Str) where
    -- The step returns a good value with at most `n` left, or it throws and the text has a tab.
    abbrev pub Within : {A : Type 0} → (A → Type 0) → ℕ → Parse A → Type 0
    Within G n (returns (a, s)) = G a × (measure content s ≤ n)
    Within G n throws = has_byte 9 content ≡ true
    Within G n no_fuel = ⊥

    pub Within-mono :
        {A : Type 0} (G : A → Type 0) (n k : ℕ) (m : Parse A) → n ≤ k → Within G n m → Within G k m
    Within-mono G n k (returns (a, s)) le h = (h.0, omega arith)
    Within-mono G n k throws le h = h
    Within-mono G n k no_fuel le h = h

    pub bind-Within :
        {A B : Type 0} (G : A → Type 0) (H : B → Type 0) (n k : ℕ) (m : Parse A)
        (f : A → Stream → Parse B)
        → Within G n m
        → ((a : A) (s : Stream) → G a → measure content s ≤ n → Within H k (f a s))
        → Within H k (◌>>=◌ m f)
    bind-Within G H n k (returns (a, s)) f h step = step a s h.0 h.1
    bind-Within G H n k throws f h step = h
    bind-Within G H n k no_fuel f h step = h

    pub checked-Within :
        (k : ℕ) (f : Y floats → Stream → Parse (Result (Y floats))) (r : Result (Y floats))
        (s : Stream)
        → IsOk r
        → ((v : Y floats) → Within IsOk k (f v s))
        → Within IsOk k (checked f r s)
    checked-Within k f (ok v) s h step = step v
    checked-Within k f (err e) s h step = elim h [ ]

    value_round-Within :
        (again : Stream → Parse (Result (Y floats))) (s : Stream) (r : Option Str × Stream)
        → Read content s r
        → ((s' : Stream)
            → measure content s' < measure content s
            → Within IsOk (measure content s) (again s'))
        → Within IsOk (measure content s) (value_round floats again r)
    unfolding value_round
    value_round-Within again s (none, s1) h ih = (tt, omega arith)
    value_round-Within again s (some line, s1) h ih =
        if_both (Within IsOk (measure content s)) (is_skipped (trim line)) _ _ (ih s1 (omega arith))
          (parse_scalar-IsOk (trim line), omega arith)

    pub parse_value-Within :
        (f : ℕ) (s : Stream)
        → measure content s < f
        → Within IsOk (measure content s) (parse_value floats content f s)
    unfolding parse_value
    parse_value-Within zero s h = absurd (omega arith)
    parse_value-Within (suc f) s h =
        value_round-Within (parse_value floats content f) s _ (getline-Read content s)
          λ s' lt. Within-mono IsOk _ _ _ (omega arith) (parse_value-Within f s' (omega arith))

    ahead_round-Within :
        (again : Stream → Parse (Option Str)) (s : Stream) (r : Option Str × Stream)
        → Read content s r
        → ((s' : Stream)
            → measure content s' < measure content s
            → Within Any (measure content s) (again s'))
        → Within Any (measure content s) (ahead_round floats again r)
    unfolding ahead_round
    ahead_round-Within again s (none, s1) h ih = (tt, omega arith)
    ahead_round-Within again s (some line, s1) h ih =
        if_both (Within Any (measure content s)) (is_skipped (trim line)) _ _ (ih s1 (omega arith))
          (tt, omega arith)

    pub look_ahead-Within :
        (f : ℕ) (s : Stream)
        → measure content s < f
        → Within Any (measure content s) (look_ahead floats content f s)
    unfolding look_ahead
    look_ahead-Within zero s h = absurd (omega arith)
    look_ahead-Within (suc f) s h =
        ahead_round-Within (look_ahead floats content f) s _ (getline-Read content s)
          λ s' lt. Within-mono Any _ _ _ (omega arith) (look_ahead-Within f s' (omega arith))

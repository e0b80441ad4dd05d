-- ===== src/Yaml/Texts/Outer.antt =====
-- Lines that end a list of values in src/yaml_parser.cpp: they stand further out than its items.
use launch_cpp.Prelude.{ℕ, true, false, [], ◌∷◌, ◌++◌, Str, ◌≡◌, refl, ◌∙◌, ◌⊎◌, ltb}
use launch_cpp.Yaml.Texts.{trim, get_indent, is_skipped}
use launch_cpp.Yaml.Texts.Lengths.{has_byte}
use launch_cpp.Yaml.Texts.Plain.{
  IsPlain, spaces, begins_badly, trim-spaces, get_indent-spaces, trim-item, trim-plain,
  is_skipped-plain, has_newline-spaces,
}

-- A line that is not skipped and stands further out than `n`.
pub record IsOuter (n : ℕ) (line : Str) : Type 0 where
  pub kept : is_skipped (trim line) ≡ false
  pub indent : ltb (get_indent line) n ≡ true
  pub one_line : has_byte 10 line ≡ false

-- The text is at its end, or goes on with such a line.
abbrev pub GoesOut : ℕ → Str → Type 0
GoesOut n rest =
    (rest ≡ []) ⊎ ((line : Str) × (more : Str) × (rest ≡ line ++ 10 ∷ more) × IsOuter n line)

spaces-IsOuter :
    (n : ℕ) (t : Str)
    → ltb n 6 ≡ true
    → begins_badly t ≡ false
    → trim t ≡ t
    → has_byte 10 t ≡ false
    → IsOuter 6 (spaces n t)
spaces-IsOuter n t l b e h = record {
  kept = rw (trim-spaces n t, e) (is_skipped-plain t b);
  indent = rw (get_indent-spaces n t b) l;
  one_line = has_newline-spaces n t ∙ h;
}

pub plain-IsOuter : (t : Str) → IsPlain t → IsOuter 6 (spaces 4 t)
plain-IsOuter t p = spaces-IsOuter 4 t refl p.begins (trim-plain t p) p.one_line

pub item-IsOuter : (t : Str) → IsPlain t → IsOuter 6 (spaces 2 (b'-' ∷ (32 ∷ t)))
unfolding has_byte
item-IsOuter t p = spaces-IsOuter 2 (b'-' ∷ (32 ∷ t)) refl refl (trim-item t p) p.one_line

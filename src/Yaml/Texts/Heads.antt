-- ===== src/Yaml/Texts/Heads.antt =====
-- Keys alone on their line, and the items of a list below them, as the functions on lines in
-- src/yaml_parser.cpp read them.
use launch_cpp.Prelude.{ℕ, false, none, some, [], ◌∷◌, ◌++◌, Str, ◌≡◌, refl, is_empty, arith, ◌∙◌}
use launch_cpp.Yaml.Texts.{trim, get_indent, is_skipped, begins_with, split_at, trim_end}
use launch_cpp.Yaml.Texts.Lengths.{has_byte}
use launch_cpp.Yaml.Texts.Plain.{
  IsPlain, IsKey, trim-plain, trim-space, trim-item, trim-spaces, get_indent-spaces, spaces,
  is_skipped-plain, not_empty, begins-append, trim_end-append, split_at-pair, has_byte-append,
  begins_with-append,
}

abbrev pub head : Str → Str
head k = k ++ b':' ∷ []

-- What the parser finds in a key alone on its line.
pub record Heads (k : Str) : Type 0 where
  pub plain : IsPlain (head k)
  pub trims : trim (head k) ≡ head k
  pub kept : is_skipped (head k) ≡ false
  pub no_item : begins_with b'-' (head k) ≡ false
  pub splits : split_at b':' (head k) ≡ some (k, [])
  pub key : trim k ≡ k

head-IsPlain : (k : Str) → IsKey k → IsPlain (head k)
unfolding has_byte trim_end
head-IsPlain k key = record {
  begins = begins-append k (b':' ∷ []) key.plain.begins;
  ends = trim_end-append k (b':' ∷ []) refl;
  one_line = has_byte-append 10 k (b':' ∷ []) ∙ ground (arith, key.plain.one_line);
}

pub key-Heads : (k : Str) → IsKey k → Heads k
key-Heads k key = record {
  plain = head-IsPlain k key;
  trims = trim-plain (head k) (head-IsPlain k key);
  kept = is_skipped-plain (head k) (begins-append k (b':' ∷ []) key.plain.begins);
  no_item = begins_with-append b'-' k _ key.plain.begins ∙ key.no_dash;
  splits = split_at-pair b':' k _ key.no_colon;
  key = trim-plain k key.plain;
}

-- An item of a list that is one value.
pub record IsElement (w : Str) : Type 0 where
  pub plain : IsPlain w
  pub no_colon : has_byte b':' w ≡ false

pub elementword : {w : Str} → IsPlain w → has_byte b':' w ≡ false → IsElement w
elementword p h = record { plain = p; no_colon = h }

split_at-none : (c : ℕ) (s : Str) → has_byte c s ≡ false → split_at c s ≡ none
unfolding split_at has_byte
split_at-none c [] h = refl
split_at-none c (d ∷ s) h = rw (split_at-none c s (ground arith)) (ground arith)

abbrev pub element_line : Str → Str
element_line w = spaces 6 (b'-' ∷ (32 ∷ w))

pub record Elements (w : Str) : Type 0 where
  pub trims : trim (element_line w) ≡ b'-' ∷ (32 ∷ w)
  pub indent : get_indent (element_line w) ≡ 6
  pub content : trim (32 ∷ w) ≡ w
  pub filled : is_empty w ≡ false
  pub one_value : split_at b':' w ≡ none
  pub one_line : has_byte 10 (element_line w) ≡ false

pub element-Elements : (w : Str) → IsElement w → Elements w
unfolding has_byte
element-Elements w e = record {
  trims = trim-spaces 6 (b'-' ∷ (32 ∷ w)) ∙ trim-item w e.plain;
  indent = get_indent-spaces 6 (b'-' ∷ (32 ∷ w)) refl;
  content = trim-space w ∙ trim-plain w e.plain;
  filled = not_empty w e.plain.begins;
  one_value = split_at-none b':' w e.no_colon;
  one_line = e.plain.one_line;
}

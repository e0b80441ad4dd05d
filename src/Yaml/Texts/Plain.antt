-- ===== src/Yaml/Texts/Plain.antt =====
-- Lines of the form "key: text", as the functions on lines in src/yaml_parser.cpp read them.
use launch_cpp.Prelude.{
  ℕ, suc, ◌+◌, Bool, true, false, ◌||◌, some, [], ◌∷◌, ◌++◌, Str, ◌≡◌, refl, ◌==◌, length, is_empty,
  arith, ap, ◌∙◌, append-nil, append_assoc, zero,
}
use launch_cpp.Yaml.Texts.{
  is_space, trim, skip_spaces, trim_end, get_indent, is_skipped, begins_with, split_at,
}
use launch_cpp.Yaml.Texts.Lengths.{has_byte}

abbrev pub begins_badly : Str → Bool
begins_badly [] = true
begins_badly (c ∷ s) = is_space c || c == b'#'

-- A text on one line that no space and no comment mark begins and no space ends.
pub record IsPlain (t : Str) : Type 0 where
  pub begins : begins_badly t ≡ false
  pub ends : trim_end t ≡ t
  pub one_line : has_byte 10 t ≡ false

-- A key has no colon, and is no list item.
pub record IsKey (k : Str) : Type 0 where
  pub plain : IsPlain k
  pub no_colon : has_byte b':' k ≡ false
  pub no_dash : begins_with b'-' k ≡ false

pub plainword :
    (t : Str) → begins_badly t ≡ false → trim_end t ≡ t → has_byte 10 t ≡ false → IsPlain t
plainword t b e l = record { begins = b; ends = e; one_line = l }

pub keyword :
    (k : Str)
    → begins_badly k ≡ false
    → trim_end k ≡ k
    → (has_byte 10 k || has_byte b':' k) ≡ false
    → begins_with b'-' k ≡ false
    → IsKey k
keyword k b e l d = record {
  plain = plainword k b e (ground arith);
  no_colon = ground arith;
  no_dash = d;
}

abbrev pub pair : Str → Str → Str
pair k v = k ++ b':' ∷ (32 ∷ v)

skip_spaces-plain : (t rest : Str) → begins_badly t ≡ false → skip_spaces (t ++ rest) ≡ t ++ rest
unfolding skip_spaces
skip_spaces-plain [] rest h = cc
skip_spaces-plain (c ∷ t) rest h = ground arith

trim_end-ne-nil : (c : ℕ) (t : Str) → is_space c ≡ false → trim_end (c ∷ t) ≡ c ∷ trim_end t
unfolding trim_end
trim_end-ne-nil c t h = ground arith

pub trim_end-append :
    (s t : Str) → is_empty (trim_end t) ≡ false → trim_end (s ++ t) ≡ s ++ trim_end t
unfolding trim_end
trim_end-append [] t h = refl
trim_end-append (c ∷ []) t h = ground arith
trim_end-append (c ∷ (d ∷ s)) t h = rw (trim_end-append (d ∷ s) t h) (ground arith)

pub not_empty : (t : Str) → begins_badly t ≡ false → is_empty t ≡ false
not_empty [] h = cc
not_empty (c ∷ t) h = refl

pub trim-plain : (t : Str) → IsPlain t → trim t ≡ t
unfolding trim
trim-plain t p = ap trim_end (rw append-nil at (skip_spaces-plain t [] p.begins)) ∙ p.ends

trim-leading : (s t : Str) → begins_badly s ≡ false → IsPlain t → trim (s ++ t) ≡ s ++ t
unfolding trim
trim-leading s t h p =
    ap trim_end (skip_spaces-plain s t h)
    ∙ trim_end-append s t (rw p.ends (not_empty t p.begins))
    ∙ ap (◌++◌ s) p.ends

skip_spaces-repeat : (c : ℕ) (s : Str) → is_space c ≡ true → skip_spaces (c ∷ s) ≡ skip_spaces s
unfolding skip_spaces
skip_spaces-repeat c s h = ground arith

pub trim-space : (s : Str) → trim (32 ∷ s) ≡ trim s
unfolding trim
trim-space s = ap trim_end (skip_spaces-repeat 32 s refl)

pub begins-append : (s t : Str) → begins_badly s ≡ false → begins_badly (s ++ t) ≡ false
begins-append [] t h = cc
begins-append (c ∷ s) t h = h

pub is_skipped-plain : (t : Str) → begins_badly t ≡ false → is_skipped t ≡ false
is_skipped-plain [] h = cc
is_skipped-plain (c ∷ t) h = ground arith

get_indent-plain : (t : Str) → begins_badly t ≡ false → get_indent t ≡ 0
unfolding get_indent
get_indent-plain [] h = cc
get_indent-plain (c ∷ t) h = ground arith

pub split_at-pair :
    (c : ℕ) (k rest : Str) → has_byte c k ≡ false → split_at c (k ++ c ∷ rest) ≡ some (k, rest)
unfolding split_at has_byte
split_at-pair c [] rest h = ground arith
split_at-pair c (d ∷ k) rest h = rw (split_at-pair c k rest (ground arith)) (ground arith)

pub has_byte-append : (c : ℕ) (s t : Str) → has_byte c (s ++ t) ≡ (has_byte c s || has_byte c t)
unfolding has_byte
has_byte-append c [] t = refl
has_byte-append c (d ∷ s) t = ground (arith, has_byte-append c s t)

pub begins_with-append :
    (c : ℕ) (s t : Str) → begins_badly s ≡ false → begins_with c (s ++ t) ≡ begins_with c s
begins_with-append c [] t h = cc
begins_with-append c (d ∷ s) t h = refl

abbrev pub spaces : ℕ → Str → Str
spaces zero s = s
spaces (suc n) s = 32 ∷ spaces n s

pub trim-spaces : (n : ℕ) (s : Str) → trim (spaces n s) ≡ trim s
trim-spaces zero s = refl
trim-spaces (suc n) s = trim-space (spaces n s) ∙ trim-spaces n s

pub get_indent-spaces : (n : ℕ) (s : Str) → begins_badly s ≡ false → get_indent (spaces n s) ≡ n
unfolding get_indent
get_indent-spaces zero s h = get_indent-plain s h
get_indent-spaces (suc n) s h = ap suc (get_indent-spaces n s h)

pub has_newline-spaces : (n : ℕ) (s : Str) → has_byte 10 (spaces n s) ≡ has_byte 10 s
unfolding has_byte
has_newline-spaces zero s = refl
has_newline-spaces (suc n) s = has_newline-spaces n s

pub length-spaces : (n : ℕ) (s : Str) → length (spaces n s) ≡ n + length s
length-spaces zero s = omega arith
length-spaces (suc n) s = omega (arith, length-spaces n s)

pair-IsPlain : (k v : Str) → IsKey k → IsPlain v → IsPlain (pair k v)
unfolding has_byte
pair-IsPlain k v key p = record {
  begins = begins-append k (b':' ∷ (32 ∷ v)) key.plain.begins;
  ends = rw append_assoc at (
      trim_end-append (k ++ b':' ∷ (32 ∷ [])) v (rw p.ends (not_empty v p.begins))
      ∙ ap (◌++◌ (k ++ b':' ∷ (32 ∷ []))) p.ends);
  one_line =
      has_byte-append 10 k (b':' ∷ (32 ∷ v)) ∙ ground (arith, key.plain.one_line, p.one_line);
}

-- A list item: a dash and a plain text.
pub trim-item : (t : Str) → IsPlain t → trim (b'-' ∷ (32 ∷ t)) ≡ b'-' ∷ (32 ∷ t)
trim-item t p = trim-leading (b'-' ∷ (32 ∷ [])) t refl p

pub item-one_line : (t : Str) → IsPlain t → has_byte 10 (spaces 2 (b'-' ∷ (32 ∷ t))) ≡ false
unfolding has_byte
item-one_line t p = p.one_line

pub pair-one_line : (t : Str) → IsPlain t → has_byte 10 (spaces 4 t) ≡ false
unfolding has_byte
pair-one_line t p = p.one_line

-- What the parser finds in a pair.
pub record Reads (k v : Str) : Type 0 where
  pub plain : IsPlain (pair k v)
  pub trims : trim (pair k v) ≡ pair k v
  pub filled : is_empty (pair k v) ≡ false
  pub kept : is_skipped (pair k v) ≡ false
  pub no_item : begins_with b'-' (pair k v) ≡ false
  pub splits : split_at b':' (pair k v) ≡ some (k, 32 ∷ v)
  pub key : trim k ≡ k
  pub text : trim (32 ∷ v) ≡ v
  pub has_text : is_empty v ≡ false

pub pair-Reads : (k v : Str) → IsKey k → IsPlain v → Reads k v
unfolding has_byte
pair-Reads k v key p = record {
  plain = pair-IsPlain k v key p;
  trims = trim-plain (pair k v) (pair-IsPlain k v key p);
  filled = not_empty (pair k v) (pair-IsPlain k v key p).begins;
  kept = is_skipped-plain (pair k v) (begins-append k (b':' ∷ (32 ∷ v)) key.plain.begins);
  no_item = begins_with-append b'-' k _ key.plain.begins ∙ key.no_dash;
  splits = split_at-pair b':' k _ key.no_colon;
  key = trim-plain k key.plain;
  text = trim-space v ∙ trim-plain v p;
  has_text = not_empty v p.begins;
}

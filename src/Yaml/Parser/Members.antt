-- ===== src/Yaml/Parser/Members.antt =====
-- The lines of an object in a list, as `parse_fields` in src/yaml_parser.cpp reads them.
use launch_cpp.Prelude.{
  ℕ, zero, suc, ◌+◌, ◌≤◌, true, false, Option, none, some, List, [], ◌∷◌, ◌++◌, Str, ◌≡◌, refl,
  length, inl, inr, arith,
}
use launch_cpp.Errors.{Result}
use launch_cpp.Yaml.{Floats, null}
use launch_cpp.Yaml.Texts.{trim}
use launch_cpp.Yaml.Texts.Plain.{
  Reads, IsPlain, pair-Reads, pair, spaces, trim-spaces, get_indent-spaces, trim-item,
  item-one_line, pair-one_line,
}
use launch_cpp.Yaml.Texts.Heads.{head, Heads, key-Heads, Elements, element-Elements, element_line}
use launch_cpp.Yaml.Texts.Outer.{GoesOut, plain-IsOuter, item-IsOuter}
use launch_cpp.Yaml.Streams.{Stream, at, failed, drop, tellg, seekg}
use launch_cpp.Yaml.Streams.Lines.{getline-line, drop-getline, getline-end, getline-failed}
use launch_cpp.Yaml.Scalars.{Y, store, parse_scalar}
use launch_cpp.Yaml.Steps.{returns, Parse, ◌>>=◌, with_position}
use launch_cpp.Yaml.Rounds.{is_too_short, reread, key_value, fields_round, field_line}
use launch_cpp.Yaml.Parser.{parse_array, parse_fields, parse_value}
use launch_cpp.Yaml.Parser.Printing.{
  Member, scalar, sequence, Item, print_members, print_items, item_line, AreMembers, AreItems,
  size_members, size_members-pos, members_value,
}
use launch_cpp.Yaml.Parser.Words.{Stands, Gets, parse_array-print_words}

not_too_short : (s : Str) → is_too_short 2 (spaces 4 s) ≡ false
not_too_short s = ground arith

-- What follows the items below a key is not one of them.
print_members-GoesOut :
    (members : List Member) (items : List Item)
    → AreMembers members
    → AreItems items
    → GoesOut 6 (print_members members (print_items items))
print_members-GoesOut [] [] are all = inl refl
print_members-GoesOut [] (item ∷ items) are all =
    let r = pair-Reads item.key item.text all.0 all.1 in
    inr (item_line item, _, refl, item-IsOuter _ r.plain)
print_members-GoesOut (scalar k v ∷ members) items are all =
    let r = pair-Reads k v are.0.0 are.0.1 in
    inr (spaces 4 (pair k v), _, refl, plain-IsOuter _ r.plain)
print_members-GoesOut (sequence k w ws ∷ members) items are all =
    let h = key-Heads k are.0.0 in inr (spaces 4 (head k), _, refl, plain-IsOuter _ h.plain)

tellg-failed : (s : Stream) → s.fail ≡ true → tellg s ≡ (none, failed s)
unfolding tellg
tellg-failed s h = ground arith

module _ (floats : Floats) (content : Str) where
  fields_round-pair :
      (again : Option ℕ → Y floats → Stream → Parse (Y floats))
      (array : ℕ → Stream → Parse (Result (Y floats))) (value : Stream → Parse (Result (Y floats)))
      (pos : Option ℕ) (obj : Y floats) (k v : Str) (p : ℕ)
      → Reads k v
      → fields_round floats content again array value 2 pos obj (some (spaces 4 (pair k v)), at p)
        ≡ again (some p) (store floats k (parse_scalar floats v) obj) (at p)
  unfolding fields_round field_line key_value tellg
  fields_round-pair again array value pos obj k v p r =
      rw
        (
          trim-spaces 4 (pair k v),
          r.trims,
          r.kept,
          get_indent-spaces 4 (pair k v) r.plain.begins,
          not_too_short (pair k v),
          r.splits,
          field_line,
          trim-spaces 4 (pair k v),
          r.trims,
          r.no_item,
          key_value,
          r.key,
          r.text,
          r.has_text,
        )
        refl

  fields_round-head :
      (again : Option ℕ → Y floats → Stream → Parse (Y floats))
      (array : ℕ → Stream → Parse (Result (Y floats))) (value : Stream → Parse (Result (Y floats)))
      (pos : Option ℕ) (obj : Y floats) (k : Str) (s : Stream)
      → Heads k
      → fields_round floats content again array value 2 pos obj (some (spaces 4 (head k)), s)
        ≡ ◌>>=◌
            (key_value floats content array value 4 (k, []) obj s)
            (λ obj' s'. with_position (λ pos' s2. again pos' obj' s2) (tellg s'))
  unfolding fields_round field_line
  fields_round-head again array value pos obj k s h =
      rw
        (
          trim-spaces 4 (head k),
          h.trims,
          h.kept,
          get_indent-spaces 4 (head k) h.plain.begins,
          not_too_short (head k),
          h.splits,
          field_line,
          trim-spaces 4 (head k),
          h.trims,
          h.no_item,
          get_indent-spaces 4 (head k) h.plain.begins,
        )
        refl

  key_value-print_words :
      (array : ℕ → Stream → Parse (Result (Y floats))) (value : Stream → Parse (Result (Y floats)))
      (k w : Str) (rest : Str) (obj : Y floats) (p : ℕ)
      → trim k ≡ k
      → Elements w
      → drop p content ≡ element_line w ++ 10 ∷ rest
      → key_value floats content array value 4 (k, []) obj (at p)
        ≡ ◌>>=◌ (array 6 (at p)) (λ r s'. returns (store floats k r obj, s'))
  unfolding key_value reread tellg seekg trim
  key_value-print_words array value k w rest obj p t e d =
      rw (getline-line content p (element_line w) rest e.one_line d, reread, e.indent, t) refl

  fields_round-item :
      (again : Option ℕ → Y floats → Stream → Parse (Y floats))
      (array : ℕ → Stream → Parse (Result (Y floats))) (value : Stream → Parse (Result (Y floats)))
      (p q : ℕ) (obj : Y floats) (t : Str)
      → IsPlain t
      → fields_round floats content again array value 2
          (some p)
          obj
          (some (spaces 2 (b'-' ∷ (32 ∷ t))), at q)
        ≡ returns (obj, at p)
  unfolding fields_round seekg
  fields_round-item again array value p q obj t plain =
      rw
        (
          trim-spaces 2 (b'-' ∷ (32 ∷ t)),
          trim-item t plain,
          get_indent-spaces 2 (b'-' ∷ (32 ∷ t)) refl,
        )
        refl

  -- `parse_fields` where the stream stands.
  abbrev pub resume : ℕ → Y floats → Stream → Parse (Y floats)
  resume f obj s = with_position (λ pos s'. parse_fields floats content f 2 pos obj s') (tellg s)

  resume-failed :
      (f : ℕ) (obj : Y floats) (s : Stream)
      → s.fail ≡ true
      → resume (suc f) obj s ≡ returns (obj, failed s)
  unfolding parse_array fields_round
  resume-failed f obj s h = rw (tellg-failed s h, getline-failed content (failed s) refl) refl

  pub resume-print_members :
      (members : List Member) (items : List Item) (f : ℕ) (obj : Y floats) (s : Stream)
      → AreMembers members
      → AreItems items
      → size_members members ≤ f
      → Stands floats content (print_members members (print_items items)) s
      → Gets floats content (members_value floats members obj) (print_items items) (resume f obj s)
  unfolding parse_array tellg
  resume-print_members members items zero obj s are all m st =
      absurd (omega (arith, size_members-pos members))
  resume-print_members [] [] (suc f) obj s are all m (inr (e, h)) =
      (failed s, resume-failed f obj s h, inr (refl, refl))
  resume-print_members [] (item ∷ items) (suc f) obj s are all m (inr (e, h)) = absurd (cc e)
  resume-print_members (scalar k v ∷ members) items (suc f) obj s are all m (inr (e, h)) =
      absurd (cc e)
  resume-print_members (sequence k w ws ∷ members) items (suc f) obj s are all m (inr (e, h)) =
      absurd (cc e)
  resume-print_members [] [] (suc f) obj s are all m (inl (p, e, d)) = (
    record { position = p; eof = true; fail = true },
    rw (e, getline-end content p d) refl,
    inr (refl, refl),
  )
  resume-print_members [] (item ∷ items) (suc f) obj s are all m (inl (p, e, d)) =
      let r = pair-Reads item.key item.text all.0 all.1 in
      (
        at p,
        rw (e, getline-line content p (item_line item) _ (item-one_line _ r.plain) d)
            (fields_round-item (λ x x' x''. parse_fields floats content f 2 x x' x'')
              (λ x x'. parse_array floats content f x (null floats) x')
              (parse_value floats content f) p (p + length (item_line item) + 1) obj
              (pair item.key item.text) r.plain),
        inl (p, refl, d),
      )
  resume-print_members (scalar k v ∷ members) items (suc f) obj s are all m (inl (p, e, d)) =
      let r = pair-Reads k v are.0.0 are.0.1 in
      let line = spaces 4 (pair k v) in
      rw
        (
          e,
          getline-line content p line _ (pair-one_line _ r.plain) d,
          fields_round-pair _ _ _ (some p) obj k v (p + length line + 1) r,
        )
        (resume-print_members members items f _ (at (p + length line + 1)) are.1 all (omega arith)
          (inl (p + length line + 1, refl, drop-getline content p line _ d)))
  resume-print_members (sequence k w ws ∷ members) items (suc f) obj s are all m (inl (p, e, d)) =
      let h = key-Heads k are.0.0 in
      let line = spaces 4 (head k) in
      let q = p + length line + 1 in
      let below = drop-getline content p line _ d in
      let (s1, read, st) =
        parse_array-print_words floats content (w ∷ ws) (print_members members (print_items items))
          f q (null floats) are.0.1 (print_members-GoesOut members items are.1 all) (omega arith)
          below in
      rw
        (
          e,
          getline-line content p line _ (pair-one_line _ h.plain) d,
          fields_round-head _ _ _ (some p) obj k (at q) h,
          key_value-print_words _ _ k w _ obj q h.key (element-Elements w are.0.1.0) below,
          read,
        )
        (resume-print_members members items f _ s1 are.1 all (omega arith) st)

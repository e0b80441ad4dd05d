-- ===== src/Yaml/Parser/ReadingBack.antt =====
-- What the parser of src/yaml_parser.cpp makes of a launch file that is written by hand.
use launch_cpp.Prelude.{
  ℕ, zero, suc, ◌+◌, ◌*◌, ◌≤◌, true, Option, some, List, [], ◌∷◌, ◌++◌, Str, codes, ◌≡◌, refl,
  length, inl, inr, arith, ◌∙◌,
}
use launch_cpp.Errors.{Result, ok}
use launch_cpp.Yaml.{Floats, null, add_array_element, set_object_field}
use launch_cpp.Yaml.Texts.{trim, get_indent, split_at}
use launch_cpp.Yaml.Texts.Plain.{
  Reads, IsPlain, pair-Reads, pair, spaces, trim-spaces, trim-space, get_indent-spaces, trim-item,
  item-one_line,
}
use launch_cpp.Yaml.Texts.Lengths.{has_byte}
use launch_cpp.Yaml.Streams.{Stream, at, failed, drop, tellg, seekg}
use launch_cpp.Yaml.Streams.Lines.{
  getline-line, drop-getline, drop-zero, getline-end, getline-failed,
}
use launch_cpp.Yaml.Scalars.{Y}
use launch_cpp.Yaml.Steps.{returns, Parse, ◌>>=◌, checked}
use launch_cpp.Yaml.Rounds.{
  array_round, array_item, dash_item, first_field, key_value, ahead_round, nested, object_round,
  object_line, entry,
}
use launch_cpp.Yaml.Parser.{look_ahead, parse_array, parse_element, parse_object, parse}
use launch_cpp.Yaml.Parser.Printing.{
  Item, print_members, print_items, item_line, print, AreItems, size_members, size, size-le-print,
  size-pos, item_value, items_value, launch_value,
}
use launch_cpp.Yaml.Parser.Words.{Stands, Gets}
use launch_cpp.Yaml.Parser.Members.{resume-print_members}

module _ (floats : Floats) (content : Str) where
  array_round-item :
      (again : Y floats → Stream → Parse (Result (Y floats)))
      (value : Stream → Parse (Result (Y floats))) (element : Str → Stream → Parse (Y floats))
      (arr : Y floats) (k v : Str) (s : Stream)
      → Reads k v
      → array_round floats again value element 2 arr (some (spaces 2 (b'-' ∷ (32 ∷ pair k v))), s)
        ≡ ◌>>=◌
            (element (spaces 2 (b'-' ∷ (32 ∷ pair k v))) s)
            (λ o. again (add_array_element floats o arr))
  unfolding array_round array_item dash_item
  array_round-item again value element arr k v s r =
      rw
        (
          trim-spaces 2 (b'-' ∷ (32 ∷ pair k v)),
          trim-item (pair k v) r.plain,
          get_indent-spaces 2 (b'-' ∷ (32 ∷ pair k v)) refl,
          trim-space (pair k v),
          r.trims,
          dash_item,
          r.filled,
          r.splits,
        )
        refl

  parse_element-item_line :
      (item : Item) (items : List Item) (f p : ℕ)
      → AreItems (item ∷ items)
      → size_members item.more + 1 ≤ f
      → drop p content ≡ print_members item.more (print_items items)
      → Gets floats content
          (item_value floats item)
          (print_items items)
          (parse_element floats content f 2 (item_line item) (at p))
  unfolding parse_array first_field tellg
  parse_element-item_line item items zero p are m d = absurd (omega arith)
  parse_element-item_line item items (suc f) p are m d =
      let r = pair-Reads item.key item.text are.0 are.1 in
      rw
        (
          trim-spaces 2 (b'-' ∷ (32 ∷ pair item.key item.text)),
          trim-item (pair item.key item.text) r.plain,
          trim-space (pair item.key item.text),
          r.trims,
          r.splits,
          key_value,
          r.key,
          r.text,
          r.has_text,
        )
        (resume-print_members floats content item.more items f _ (at p) are.2 are.3 (omega arith)
          (inl (p, refl, d)))

  parse_array-print_items :
      (items : List Item) (f : ℕ) (arr : Y floats) (s : Stream)
      → AreItems items
      → size items ≤ f
      → Stands floats content (print_items items) s
      → (s' : Stream) × (parse_array floats content f 2 arr s
          ≡ returns (ok (items_value floats items arr), s'))
        × (s'.fail ≡ true)
  unfolding parse_array
  parse_array-print_items items zero arr s are m st = absurd (omega (arith, size-pos items))
  parse_array-print_items [] (suc f) arr s are m (inl (p, e, d)) =
      (record { position = p; eof = true; fail = true }, rw (e, getline-end content p d) refl, refl)
  parse_array-print_items [] (suc f) arr s are m (inr (e, h)) =
      (failed s, rw (getline-failed content s h) refl, refl)
  parse_array-print_items (item ∷ items) (suc f) arr s are m (inr (e, h)) = absurd (cc e)
  parse_array-print_items (item ∷ items) (suc f) arr s are m (inl (p, e, d)) =
      let r = pair-Reads item.key item.text are.0 are.1 in
      let line = item_line item in
      let (s1, read, st) =
        parse_element-item_line item items f (p + length line + 1) are
          (omega (arith, size-pos items)) (drop-getline content p line _ d) in
      rw
        (
          e,
          getline-line content p line _ (item-one_line _ r.plain) d,
          array_round-item _ _ _ arr item.key item.text (at (p + length line + 1)) r,
          read,
        )
        (parse_array-print_items items f _ s1 are.3 (omega arith) st)

  object_round-header :
      (again : Y floats → Stream → Parse (Result (Y floats)))
      (array object : ℕ → Stream → Parse (Result (Y floats))) (ahead : Stream → Parse (Option Str))
      (p : ℕ)
      → object_round floats again array object ahead 0
          (null floats)
          (some (codes "entities:"), at p)
        ≡ ◌>>=◌
            (ahead (at p))
            (nested floats again array object 0 (codes "entities") (null floats) (some p))
  unfolding object_round object_line entry trim split_at get_indent tellg
  object_round-header again array object ahead p = refl

  look_ahead-item_line :
      (item : Item) (rest : Str) (f p : ℕ)
      → IsPlain (pair item.key item.text)
      → drop p content ≡ item_line item ++ 10 ∷ rest
      → look_ahead floats content (suc f) (at p)
        ≡ returns (some (item_line item), at (p + length (item_line item) + 1))
  unfolding look_ahead ahead_round
  look_ahead-item_line item rest f p plain d =
      rw
        (
          getline-line content p (item_line item) rest (item-one_line _ plain) d,
          trim-spaces 2 (b'-' ∷ (32 ∷ pair item.key item.text)),
          trim-item (pair item.key item.text) plain,
        )
        refl

  nested-item_line :
      (again : Y floats → Stream → Parse (Result (Y floats)))
      (array object : ℕ → Stream → Parse (Result (Y floats))) (item : Item) (p q : ℕ)
      → IsPlain (pair item.key item.text)
      → nested floats again array object 0
          (codes "entities")
          (null floats)
          (some p)
          (some (item_line item))
          (at q)
        ≡ ◌>>=◌
            (array 2 (at p))
            (checked (λ v. again (set_object_field floats (codes "entities") v (null floats))))
  unfolding nested seekg
  nested-item_line again array object item p q plain =
      rw
        (
          trim-spaces 2 (b'-' ∷ (32 ∷ pair item.key item.text)),
          trim-item (pair item.key item.text) plain,
          get_indent-spaces 2 (b'-' ∷ (32 ∷ pair item.key item.text)) refl,
        )
        refl

  parse_object-failed :
      (f : ℕ) (obj : Y floats) (s : Stream)
      → s.fail ≡ true
      → parse_object floats content (suc f) 0 obj s ≡ returns (ok obj, failed s)
  unfolding parse_object object_round
  parse_object-failed f obj s h = rw (getline-failed content s h) refl

  parse_object-print :
      (item : Item) (items : List Item) (f : ℕ)
      → AreItems (item ∷ items)
      → size (item ∷ items) ≤ f
      → content ≡ print (item ∷ items)
      → (s : Stream) × (parse_object floats content (suc (suc f)) 0 (null floats) (at 0)
          ≡ returns (ok (launch_value floats (item ∷ items)), s))
  unfolding parse_object print has_byte
  parse_object-print item items f are m e =
      let r = pair-Reads item.key item.text are.0 are.1 in
      let header = codes "entities:" in
      let top : drop 0 content ≡ header ++ 10 ∷ print_items (item ∷ items) =
        drop-zero content ∙ e in
      let below = drop-getline content 0 header (print_items (item ∷ items)) top in
      let (s, read, h) =
        parse_array-print_items (item ∷ items) (suc f) (null floats) (at 10) are (omega arith)
          (inl (10, refl, below)) in
      (
        failed s,
        rw
            (
              getline-line content 0 header (print_items (item ∷ items)) refl top,
              object_round-header _ _ _ _ 10,
              look_ahead-item_line item _ f 10 r.plain below,
              nested-item_line _ _ _ item 10 _ r.plain,
              read,
              parse_object-failed f _ s h,
            )
            refl,
      )

-- A launch file with the key "entities" and a list of at least one object is parsed to the object
-- whose "entities" is the array of these objects, in order. The first line of an object is
-- "key: text"; each further member is such a line, or a key with the items of a list on the lines
-- below it, which becomes an array. Keys and texts are plain, items have no colon, and each text and
-- item is read as a scalar.
pub parse-print :
    (floats : Floats) (item : Item) (items : List Item)
    → AreItems (item ∷ items)
    → parse floats (print (item ∷ items)) ≡ returns (ok (launch_value floats (item ∷ items)))
unfolding parse
parse-print floats item items are =
    let text = print (item ∷ items) in
    let (s, read) =
      parse_object-print floats text item items (3 * length text + 4) are
        (omega (arith, size-le-print (item ∷ items))) refl in
    let enough : 3 * length text + 6 ≡ suc (suc (3 * length text + 4)) = omega arith in
    rw (enough, read) refl

-- ===== src/Yaml/Builder/Loading.antt =====
-- Launch files from their text to the launch description, by src/yaml_parser.cpp and
-- src/launch_description.cpp.
use launch_cpp.Prelude.{
  Bool, true, false, List, [], ◌∷◌, ◌++◌, Str, codes, ◌≡◌, refl, ap, ◌∙◌, sym, append_assoc,
  append-nil, if◌then◌else◌, str_eq, str_lt, arith,
}
use launch_cpp.Errors.{Result, ok, err}
use launch_cpp.Yaml.{
  Floats, YamlValue, value, Items, push_back, null, string, add_array_element, set_object_field,
  find_field, is_array, is_object, as_array, as_object, k_array,
}
use launch_cpp.Yaml
use launch_cpp.Yaml.Texts.{trim, is_number, unquote}
use launch_cpp.Yaml.Scalars.{parse_scalar}
use launch_cpp.Yaml.Steps.{returns}
use launch_cpp.Yaml.Parser.Printing.{print, Item, item_value, items_value, words_value}
use launch_cpp.Yaml.Builder.Writing.{
  Process, Written, Process, argument, process, item_of, items_of, entity_of, entities_of,
  AreStrings, IsWritten, AreWritten, items_of-AreItems,
}
use launch_cpp.Yaml.Parser.ReadingBack.{parse-print}
use launch_cpp.Yaml.Builder.{
  Entity, build_action, add_built, build_entities, build, from_yaml, build_from, strings_of,
}

module _ (floats : Floats) where
  built : YamlValue floats → List Entity
  built v = if is_object floats v then add_built floats (build_action floats v) [] else []

  add_built-append :
      (b : Bool) (r : Result Entity) (xs ys : List Entity)
      → (if b then add_built floats r (xs ++ ys) else xs ++ ys)
        ≡ (if b then add_built floats r xs else xs) ++ ys
  add_built-append true (ok e) xs ys = refl
  add_built-append true (err e) xs ys = refl
  add_built-append false r xs ys = refl

  build_entities-push_back :
      (items : Items floats) (v : YamlValue floats)
      → build_entities floats (push_back floats items v) ≡ build_entities floats items ++ built v
  unfolding build_entities built
  build_entities-push_back Yaml.Items.nil v = refl
  build_entities-push_back (Yaml.Items.cons w items) v = rw (build_entities-push_back items v) (
      add_built-append (is_object floats w) (build_action floats w) (build_entities floats items)
        (built v))

  type_word :
      parse_scalar floats (codes "declare_launch_argument")
      ≡ ok (string floats (codes "declare_launch_argument"))
  unfolding parse_scalar trim str_eq is_number unquote
  type_word = refl

  process_word :
      parse_scalar floats (codes "execute_process") ≡ ok (string floats (codes "execute_process"))
  unfolding parse_scalar trim str_eq is_number unquote
  process_word = refl

  as_array-add_array_element :
      (v arr : YamlValue floats)
      → as_array floats (add_array_element floats v arr) ≡ push_back floats (as_array floats arr) v
  unfolding add_array_element
  as_array-add_array_element v (value t s d b items fields) = refl

  is_array-add_array_element :
      (v arr : YamlValue floats) → is_array floats (add_array_element floats v arr) ≡ true
  unfolding add_array_element
  is_array-add_array_element v (value t s d b items fields) = refl

  is_array-items_value :
      (items : List Item) (arr : YamlValue floats)
      → is_array floats arr ≡ true
      → is_array floats (items_value floats items arr) ≡ true
  is_array-items_value [] arr h = h
  is_array-items_value (item ∷ items) arr h =
      is_array-items_value items (add_array_element floats (item_value floats item) arr)
        (is_array-add_array_element (item_value floats item) arr)

  strings_of-push_back :
      (items : Items floats) (w : Str)
      → strings_of floats (push_back floats items (string floats w))
        ≡ strings_of floats items ++ w ∷ []
  unfolding strings_of
  strings_of-push_back Yaml.Items.nil w = refl
  strings_of-push_back (Yaml.Items.cons v items) w =
      rw (strings_of-push_back items w) (ground arith)

  -- The strings of a list are read back, and it is an array.
  strings_of-words_value :
      (ws : List Str) (arr : YamlValue floats)
      → AreStrings floats ws
      → strings_of floats (as_array floats (words_value floats ws arr))
        ≡ strings_of floats (as_array floats arr) ++ ws
  strings_of-words_value [] arr are = sym (append-nil _)
  strings_of-words_value (w ∷ ws) arr are =
      rw
        (
          are.1,
          strings_of-words_value ws (add_array_element floats (string floats w) arr) are.2,
          as_array-add_array_element (string floats w) arr,
          strings_of-push_back (as_array floats arr) w,
        )
        (append_assoc (strings_of floats (as_array floats arr)) (w ∷ []) ws)

  is_array-words_value :
      (ws : List Str) (arr : YamlValue floats)
      → AreStrings floats ws
      → is_array floats arr ≡ true
      → is_array floats (words_value floats ws arr) ≡ true
  is_array-words_value [] arr are h = h
  is_array-words_value (w ∷ ws) arr are h = rw are.1 (
      is_array-words_value ws (add_array_element floats (string floats w) arr) are.2
        (is_array-add_array_element (string floats w) arr))

  is_array-sequence :
      (w : Str) (ws : List Str)
      → AreStrings floats (w ∷ ws)
      → is_array floats (words_value floats (w ∷ ws) (null floats)) ≡ true
  is_array-sequence w ws are = rw are.1 (
      is_array-words_value ws (add_array_element floats (string floats w) (null floats)) are.2
        (is_array-add_array_element (string floats w) (null floats)))

  built-process :
      (ds : List Str) (p : Process)
      → p.depends_on ≡ ds
      → IsWritten floats (process p)
      → AreStrings floats ds
      → built (item_value floats (item_of (process p))) ≡ entity_of floats (process p) ∷ []
  unfolding built build_action set_object_field find_field str_eq str_lt strings_of
  built-process [] p e h are =
      let cmd = p.command ∷ p.arguments in
      rw
        (
          e,
          process_word,
          h.0.1,
          h.2.1,
          is_array-sequence p.command p.arguments h.1,
          strings_of-words_value cmd (null floats) h.1,
        )
        refl
  built-process (d ∷ ds) p e h are =
      let cmd = p.command ∷ p.arguments in
      rw
        (
          e,
          process_word,
          h.0.1,
          h.2.1,
          is_array-sequence p.command p.arguments h.1,
          strings_of-words_value cmd (null floats) h.1,
          is_array-sequence d ds are,
          strings_of-words_value (d ∷ ds) (null floats) are,
        )
        refl

  built-item_value :
      (w : Written)
      → IsWritten floats w
      → built (item_value floats (item_of w)) ≡ entity_of floats w ∷ []
  unfolding built build_action set_object_field find_field str_eq str_lt
  built-item_value (argument name default_value description) h =
      rw (type_word, h.0.1, h.1.1, h.2.1) refl
  built-item_value (process p) h = built-process p.depends_on p refl h h.3

  build_entities-add_array_element :
      (w : Written) (arr : YamlValue floats)
      → IsWritten floats w
      → build_entities floats
          (as_array floats (add_array_element floats (item_value floats (item_of w)) arr))
        ≡ build_entities floats (as_array floats arr) ++ entity_of floats w ∷ []
  build_entities-add_array_element w arr h =
      ap (build_entities floats) (as_array-add_array_element (item_value floats (item_of w)) arr)
      ∙ build_entities-push_back (as_array floats arr) (item_value floats (item_of w))
      ∙ ap (◌++◌ (build_entities floats (as_array floats arr))) (built-item_value w h)

  -- What `build_entities` makes of the parsed items, on top of those before.
  build_entities-items_value :
      (written : List Written) (arr : YamlValue floats)
      → AreWritten floats written
      → build_entities floats (as_array floats (items_value floats (items_of written) arr))
        ≡ build_entities floats (as_array floats arr) ++ entities_of floats written
  build_entities-items_value [] arr are = sym (append-nil _)
  build_entities-items_value (w ∷ written) arr are =
      build_entities-items_value written
        (add_array_element floats (item_value floats (item_of w)) arr) are.1
      ∙ rw (build_entities-add_array_element w arr are.0) (
          append_assoc (build_entities floats (as_array floats arr)) (entity_of floats w ∷ [])
            (entities_of floats written))

  build-set_object_field :
      (arr : YamlValue floats)
      → is_array floats arr ≡ true
      → build floats (set_object_field floats (codes "entities") arr (null floats))
        ≡ ok (build_entities floats (as_array floats arr))
  unfolding build build_from set_object_field find_field str_eq
  build-set_object_field arr h = rw h refl

  -- A launch file with at least one entity is loaded as just its entities, in order: arguments with
  -- a name, a default value and a description, and processes with a name, a command of at least one
  -- word, an output and dependencies, none or several. All texts are plain and stand for themselves,
  -- and the words and dependencies have no colon; each word of a command is built as a substitution.
  pub from_yaml-print :
      (w : Written) (written : List Written)
      → AreWritten floats (w ∷ written)
      → from_yaml floats (print (items_of (w ∷ written)))
        ≡ returns (ok (entities_of floats (w ∷ written)))
  unfolding from_yaml
  from_yaml-print w written are =
      rw
        (parse-print floats (item_of w) (items_of written)
          (items_of-AreItems floats (w ∷ written) are))
        (ap returns (
          build-set_object_field _ (
            is_array-items_value (items_of written) _
              (is_array-add_array_element (item_value floats (item_of w)) (null floats)))
          ∙ ap ok (build_entities-items_value (w ∷ written) (null floats) are)))

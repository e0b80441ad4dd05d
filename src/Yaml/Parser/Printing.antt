-- ===== src/Yaml/Parser/Printing.antt =====
-- Launch files as they are written by hand: the key "entities" with a list of objects, each of them
-- lines "key: text", or a key with the items of a list below it. src/yaml_parser.cpp reads them.
use launch_cpp.Prelude.{
  ℕ, suc, ◌+◌, ◌≤◌, List, [], ◌∷◌, ◌++◌, Str, codes, length, arith, length-append,
}
use launch_cpp.Yaml.{Floats, null, add_array_element, set_object_field}
use launch_cpp.Yaml.Texts.Plain.{IsPlain, IsKey, pair, spaces}
use launch_cpp.Errors.{Result, ok, err}
use launch_cpp.Yaml.Texts.Heads.{IsElement, head, element_line}
use launch_cpp.Yaml.Scalars.{Y, store, parse_scalar}

-- A key with its text, or a key with the items of a list below it.
pub data Member : Type 0 where
  scalar : Str → Str → Member
  sequence : Str → Str → List Str → Member

pub record Item : Type 0 where
  pub key : Str
  pub text : Str
  pub more : List Member

abbrev pub print_words : List Str → Str → Str
print_words [] rest = rest
print_words (w ∷ ws) rest = element_line w ++ 10 ∷ print_words ws rest

abbrev pub print_member : Member → Str → Str
print_member (scalar k v) rest = spaces 4 (pair k v) ++ 10 ∷ rest
print_member (sequence k w ws) rest = spaces 4 (head k) ++ 10 ∷ print_words (w ∷ ws) rest

abbrev pub print_members : List Member → Str → Str
print_members [] rest = rest
print_members (m ∷ members) rest = print_member m (print_members members rest)

abbrev pub item_line : Item → Str
item_line item = spaces 2 (b'-' ∷ (32 ∷ pair item.key item.text))

abbrev pub print_items : List Item → Str
print_items [] = []
print_items (item ∷ items) = item_line item ++ 10 ∷ print_members item.more (print_items items)

unfoldable pub print : List Item → Str
print items = codes "entities:" ++ 10 ∷ print_items items

abbrev pub AreElements : List Str → Type 0
AreElements [] = Unit
AreElements (w ∷ ws) = IsElement w × AreElements ws

abbrev pub IsMember : Member → Type 0
IsMember (scalar k v) = IsKey k × IsPlain v
IsMember (sequence k w ws) = IsKey k × AreElements (w ∷ ws)

abbrev pub AreMembers : List Member → Type 0
AreMembers [] = Unit
AreMembers (m ∷ members) = IsMember m × AreMembers members

abbrev pub AreItems : List Item → Type 0
AreItems [] = Unit
AreItems (item ∷ items) = IsKey item.key × IsPlain item.text × AreMembers item.more × AreItems items

abbrev pub size_words : List Str → ℕ
size_words [] = 1
size_words (w ∷ ws) = suc (size_words ws)

abbrev pub size_member : Member → ℕ
size_member (scalar k v) = 1
size_member (sequence k w ws) = 1 + size_words (w ∷ ws)

abbrev pub size_members : List Member → ℕ
size_members [] = 1
size_members (m ∷ members) = size_member m + size_members members

abbrev pub size : List Item → ℕ
size [] = 1
size (item ∷ items) = suc (size_members item.more + size items)

pub size_words-pos : (ws : List Str) → 1 ≤ size_words ws
size_words-pos [] = omega arith
size_words-pos (w ∷ ws) = omega arith

pub size_member-pos : (m : Member) → 1 ≤ size_member m
size_member-pos (scalar k v) = omega arith
size_member-pos (sequence k w ws) = omega arith

pub size_members-pos : (members : List Member) → 1 ≤ size_members members
size_members-pos [] = omega arith
size_members-pos (m ∷ members) = omega (arith, size_members-pos members)

pub size-pos : (items : List Item) → 1 ≤ size items
size-pos [] = omega arith
size-pos (item ∷ items) = omega arith

size_words-le :
    (ws : List Str) (rest : Str) → size_words ws + length rest ≤ length (print_words ws rest) + 1
size_words-le [] rest = omega arith
size_words-le (w ∷ ws) rest =
    omega
      (arith, length-append {0} (element_line w) (10 ∷ print_words ws rest), size_words-le ws rest)

size_member-le :
    (m : Member) (rest : Str) → size_member m + length rest ≤ length (print_member m rest)
size_member-le (scalar k v) rest =
    omega (arith, length-append {0} (spaces 4 (pair k v)) (10 ∷ rest))
size_member-le (sequence k w ws) rest = omega (
  arith,
  length-append {0} (spaces 4 (head k)) (10 ∷ print_words (w ∷ ws) rest),
  size_words-le (w ∷ ws) rest,
)

size_members-le :
    (members : List Member) (rest : Str)
    → size_members members + length rest ≤ length (print_members members rest) + 1
size_members-le [] rest = omega arith
size_members-le (m ∷ members) rest =
    omega (arith, size_member-le m (print_members members rest), size_members-le members rest)

size-le : (items : List Item) → size items ≤ length (print_items items) + 1
size-le [] = omega arith
size-le (item ∷ items) = omega (
  arith,
  length-append {0} (item_line item) (10 ∷ print_members item.more (print_items items)),
  size_members-le item.more (print_items items),
  size-le items,
)

pub size-le-print : (items : List Item) → size items ≤ length (print items)
unfolding print
size-le-print items = omega (arith, size-le items)

module _ (floats : Floats) where
  -- The values that these texts stand for.
  abbrev pub added : Result (Y floats) → Y floats → Y floats
  added (ok v) arr = add_array_element floats v arr
  added (err e) arr = arr

  abbrev pub words_value : List Str → Y floats → Y floats
  words_value [] arr = arr
  words_value (w ∷ ws) arr = words_value ws (added (parse_scalar floats w) arr)

  abbrev pub member_value : Member → Y floats → Y floats
  member_value (scalar k v) obj = store floats k (parse_scalar floats v) obj
  member_value (sequence k w ws) obj =
      set_object_field floats k (words_value (w ∷ ws) (null floats)) obj

  abbrev pub members_value : List Member → Y floats → Y floats
  members_value [] obj = obj
  members_value (m ∷ members) obj = members_value members (member_value m obj)

  abbrev pub item_value : Item → Y floats
  item_value item =
      members_value item.more (store floats item.key (parse_scalar floats item.text) (null floats))

  abbrev pub items_value : List Item → Y floats → Y floats
  items_value [] arr = arr
  items_value (item ∷ items) arr =
      items_value items (add_array_element floats (item_value item) arr)

  abbrev pub launch_value : List Item → Y floats
  launch_value items =
      set_object_field floats (codes "entities") (items_value items (null floats)) (null floats)

-- ===== src/Yaml/Builder/Writing.antt =====
-- Launch descriptions as they are written in launch files, for src/yaml_parser.cpp and
-- src/launch_description.cpp to load.
use launch_cpp.Prelude.{some, List, [], ◌∷◌, Str, codes, ◌≡◌, refl}
use launch_cpp.Errors.{ok}
use launch_cpp.Substitutions.{text}
use launch_cpp.Yaml.{Floats, string}
use launch_cpp.Yaml.Texts.{trim_end}
use launch_cpp.Yaml.Texts.Lengths.{has_byte}
use launch_cpp.Yaml.Texts.Plain.{plainword, keyword, IsPlain}
use launch_cpp.Yaml.Texts.Heads.{IsElement}
use launch_cpp.Yaml.Scalars.{parse_scalar}
use launch_cpp.Yaml.Parser.Printing.{
  Member, scalar, sequence, Item, AreElements, AreMembers, AreItems,
}
use launch_cpp.Yaml.Builder.{Entity, execute_process, declare_launch_argument, build_all}

-- A process with a name, a command of at least one word, an output, and the names of the processes
-- it depends on.
pub record Process : Type 0 where
  pub name : Str
  pub command : Str
  pub arguments : List Str
  pub output : Str
  pub depends_on : List Str

-- An argument has a name, a default value and a description.
pub data Written : Type 0 where
  argument : Str → Str → Str → Written
  process : Process → Written

-- No line is written where there is no dependency.
abbrev pub depends_on_members : List Str → List Member
depends_on_members [] = []
depends_on_members (d ∷ ds) = sequence (codes "depends_on") d ds ∷ []

abbrev pub item_of : Written → Item
item_of (argument name default_value description) = record {
  key = codes "type";
  text = codes "declare_launch_argument";
  more =
      scalar (codes "name") name
      ∷ scalar (codes "default_value") default_value
      ∷ scalar (codes "description") description
      ∷ [];
}
item_of (process p) = record {
  key = codes "type";
  text = codes "execute_process";
  more =
      scalar (codes "name") p.name
      ∷ sequence (codes "cmd") p.command p.arguments
      ∷ scalar (codes "output") p.output
      ∷ depends_on_members p.depends_on;
}

abbrev pub items_of : List Written → List Item
items_of [] = []
items_of (w ∷ written) = item_of w ∷ items_of written

module _ (floats : Floats) where
  abbrev pub entity_of : Written → Entity
  entity_of (argument name default_value description) =
      declare_launch_argument name (some (text default_value)) description
  entity_of (process p) = execute_process (record {
    name = some (text p.name);
    cmd = build_all floats (p.command ∷ p.arguments);
    output = p.output;
    depends_on = p.depends_on;
  })

  abbrev pub entities_of : List Written → List Entity
  entities_of [] = []
  entities_of (w ∷ written) = entity_of w ∷ entities_of written

  -- A plain text that stands for itself: no truth value, no number, not in quotes.
  abbrev pub IsWord : Str → Type 0
  IsWord t = IsPlain t × (parse_scalar floats t ≡ ok (string floats t))

  -- Such texts without a colon.
  abbrev pub AreStrings : List Str → Type 0
  AreStrings [] = Unit
  AreStrings (w ∷ ws) = IsElement w × (parse_scalar floats w ≡ ok (string floats w)) × AreStrings ws

  abbrev pub IsWritten : Written → Type 0
  IsWritten (argument name default_value description) =
      IsWord name × IsWord default_value × IsWord description
  IsWritten (process p) =
      IsWord p.name
      × AreStrings (p.command ∷ p.arguments)
      × IsWord p.output
      × AreStrings p.depends_on

  abbrev pub AreWritten : List Written → Type 0
  AreWritten [] = Unit
  AreWritten (w ∷ written) = IsWritten w × AreWritten written

  AreStrings-AreElements : (ws : List Str) → AreStrings ws → AreElements ws
  AreStrings-AreElements [] are = tt
  AreStrings-AreElements (w ∷ ws) are = (are.0, AreStrings-AreElements ws are.2)

  depends_on-AreMembers : (ds : List Str) → AreStrings ds → AreMembers (depends_on_members ds)
  unfolding trim_end has_byte
  depends_on-AreMembers [] are = tt
  depends_on-AreMembers (d ∷ ds) are =
      ((keyword (codes "depends_on") refl refl refl refl, AreStrings-AreElements (d ∷ ds) are), tt)

  pub items_of-AreItems :
      (written : List Written) → AreWritten written → AreItems (items_of written)
  unfolding trim_end has_byte
  items_of-AreItems [] are = tt
  items_of-AreItems (argument name default_value description ∷ written) are = (
    keyword (codes "type") refl refl refl refl,
    plainword (codes "declare_launch_argument") refl refl refl,
    (
      (keyword (codes "name") refl refl refl refl, are.0.0.0),
      (
        (keyword (codes "default_value") refl refl refl refl, are.0.1.0),
        ((keyword (codes "description") refl refl refl refl, are.0.2.0), tt),
      ),
    ),
    items_of-AreItems written are.1,
  )
  items_of-AreItems (process p ∷ written) are = (
    keyword (codes "type") refl refl refl refl,
    plainword (codes "execute_process") refl refl refl,
    (
      (keyword (codes "name") refl refl refl refl, are.0.0.0),
      (
        (
          keyword (codes "cmd") refl refl refl refl,
          AreStrings-AreElements (p.command ∷ p.arguments) are.0.1,
        ),
        (
          (keyword (codes "output") refl refl refl refl, are.0.2.0),
          depends_on-AreMembers p.depends_on are.0.3,
        ),
      ),
    ),
    items_of-AreItems written are.1,
  )

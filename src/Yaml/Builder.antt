-- ===== src/Yaml/Builder.antt =====
-- src/yaml_parser.cpp: the builder of launch descriptions from YAML values, and the loading of files
-- by src/launch_description.cpp.
pub mod Writing
pub mod Loading
use launch_cpp.Prelude.{
  ℕ, suc, Bool, true, false, not, ◌&&◌, Option, none, some, List, [], ◌∷◌, ◌++◌, Str, codes, str_eq,
  ltb, length, is_empty, is_some, if◌then◌else◌,
}
use launch_cpp.Errors.{Result, ok, err, error, invalid_configuration, not_implemented}
use launch_cpp.Substitutions.{Substitution, text, variable, environment_variable}
use launch_cpp.Actions.{Actions, nil, cons, action, declare_argument, process}
use launch_cpp.Yaml.{
  Floats, YamlValue, Items, is_string, is_array, is_object, as_string, as_array, as_object,
  find_field,
}
use launch_cpp.Yaml
use launch_cpp.Yaml.Texts.{trim, split_at}
use launch_cpp.Yaml.Steps.{Outcome, returns, throws, no_fuel}
use launch_cpp.Yaml.Parser.{parse, parse_file}

-- The options of `ExecuteProcess` that the builder sets; the others keep their defaults.
pub record ProcessOptions : Type 0 where
  pub name : Option Substitution
  pub cmd : List Substitution
  pub output : Str
  pub depends_on : List Str

-- A new `ExecuteProcess` or `DeclareLaunchArgument`: its name, default value and description.
pub data Entity : Type 0 where
  execute_process : ProcessOptions → Entity
  declare_launch_argument : Str → Option Substitution → Str → Entity

-- What follows `prefix` in a text that begins with it.
unfoldable pub strip_prefix : Str → Str → Option Str
strip_prefix [] s = some s
strip_prefix (p ∷ prefix) [] = none
strip_prefix (p ∷ prefix) (c ∷ s) =
    let rest = strip_prefix prefix s in if str_eq (p ∷ []) (c ∷ []) then rest else none

-- `$(env NAME)` and the rest: the type is what stands before the first space, or all of the text.
unfoldable pub typed_substitution : Str → Option (Str × Str) → Result Substitution
typed_substitution value none = ok (text value)
typed_substitution value (some (type_name, after)) =
    if str_eq type_name (codes "find")
    then ok (text value)
    else if str_eq type_name (codes "env")
    then elim (split_at b')' after) [
      | some parts ↦ ok (environment_variable (trim parts.0) [])
      | none ↦ ok (text value)
    ]
    else ok (text value)

unfoldable pub other_substitution : Str → Option Str → Result Substitution
unfolding typed_substitution
other_substitution value none = ok (text value)
other_substitution value (some inside) =
    if ltb 3 (length value) && is_some (split_at b')' inside)
    then typed_substitution value (split_at b' ' inside)
    else ok (text value)

-- The name in `$(var NAME)`.
unfoldable pub variable_name : Str → Option Str → Str
variable_name value none = []
variable_name value (some inside) =
    if ltb 7 (length value)
    then elim (split_at b')' inside) [ some parts ↦ trim parts.0 | none ↦ [] ]
    else []

unfoldable pub build_substitution : Str → Result Substitution
unfolding variable_name other_substitution strip_prefix
build_substitution value =
    let name = variable_name value (strip_prefix (codes "$(var ") value) in
    if not (is_empty name)
    then ok (variable name [])
    else other_substitution value (strip_prefix (codes "$(") value)

-- A text where the building fails.
abbrev pub or_text : Str → Result Substitution → Substitution
or_text value (ok sub) = sub
or_text value (err e) = text value

module _ (floats : Floats) where
  abbrev pub Y : Type 0
  Y = YamlValue floats

  -- The elements that are strings.
  unfoldable pub strings_of : Items floats → List Str
  strings_of Yaml.Items.nil = []
  strings_of (Yaml.Items.cons v items) =
      let rest = strings_of items in if is_string floats v then as_string floats v ∷ rest else rest

  abbrev pub string_value : Option Y → Option Str
  string_value none = none
  string_value (some v) = if is_string floats v then some (as_string floats v) else none

  -- A field that holds a string, and the strings of a field that holds an array.
  abbrev pub string_field : Str → Y → Option Str
  string_field key v = string_value (find_field floats key (as_object floats v))

  abbrev pub array_value : Option Y → Items floats
  array_value none = Yaml.Items.nil
  array_value (some v) = if is_array floats v then as_array floats v else Yaml.Items.nil

  abbrev pub strings_field : Str → Y → List Str
  strings_field key v = strings_of (array_value (find_field floats key (as_object floats v)))

  abbrev pub text_of : Option Str → Option Substitution
  text_of none = none
  text_of (some s) = some (text s)

  abbrev pub or_empty : Option Str → Str
  or_empty none = []
  or_empty (some s) = s

  abbrev pub build_all : List Str → List Substitution
  build_all [] = []
  build_all (s ∷ ss) = or_text s (build_substitution s) ∷ build_all ss

  unfoldable pub build_execute_process : Y → Entity
  unfolding strings_of
  build_execute_process v = execute_process (record {
    name = text_of (string_field (codes "name") v);
    cmd = build_all (strings_field (codes "cmd") v);
    output = or_empty (string_field (codes "output") v);
    depends_on = strings_field (codes "depends_on") v;
  })

  unfoldable pub build_declare_launch_argument : Y → Entity
  build_declare_launch_argument v =
      declare_launch_argument (or_empty (string_field (codes "name") v))
        (text_of (string_field (codes "default_value") v))
        (or_empty (string_field (codes "description") v))

  unfoldable pub build_typed : Option Str → Y → Result Entity
  unfolding build_execute_process build_declare_launch_argument
  build_typed none v = err (error invalid_configuration (codes "Action missing 'type' field"))
  build_typed (some type_name) v =
      if str_eq type_name (codes "execute_process")
      then ok (build_execute_process v)
      else if str_eq type_name (codes "declare_launch_argument")
      then ok (build_declare_launch_argument v)
      else err (error not_implemented (codes "Unknown action type: " ++ type_name))

  unfoldable pub build_action : Y → Result Entity
  unfolding build_typed
  build_action v = build_typed (string_field (codes "type") v) v

  -- `desc->add`, unless the action could not be built.
  abbrev pub add_built : Result Entity → List Entity → List Entity
  add_built (ok entity) entities = entity ∷ entities
  add_built (err e) entities = entities

  unfoldable pub build_entities : Items floats → List Entity
  unfolding build_action
  build_entities Yaml.Items.nil = []
  build_entities (Yaml.Items.cons v items) =
      let rest = build_entities items in
      if is_object floats v then add_built (build_action v) rest else rest

  unfoldable pub build_from : Option Y → Result (List Entity)
  unfolding build_entities
  build_from none = err (error invalid_configuration (codes "Missing 'entities' array"))
  build_from (some v) =
      if is_array floats v
      then ok (build_entities (as_array floats v))
      else err (error invalid_configuration (codes "Missing 'entities' array"))

  unfoldable pub build : Y → Result (List Entity)
  unfolding build_from
  build yaml =
      if is_object floats yaml
      then build_from (find_field floats (codes "entities") (as_object floats yaml))
      else err (error invalid_configuration (codes "Root must be an object"))

  unfoldable pub build_condition : Y → Result (Unit {0})
  build_condition v = err (error not_implemented (codes "Condition building not yet implemented"))

  abbrev pub build_parsed : Outcome (Result Y) → Outcome (Result (List Entity))
  build_parsed (returns (ok yaml)) = returns (build yaml)
  build_parsed (returns (err e)) = returns (err e)
  build_parsed throws = throws
  build_parsed no_fuel = no_fuel

  -- `LaunchDescription::from_yaml`.
  unfoldable pub from_yaml : Str → Outcome (Result (List Entity))
  unfolding build
  from_yaml content = build_parsed (parse floats content)

  unfoldable pub from_yaml_file : (read : Str → Option Str) → Str → Outcome (Result (List Entity))
  unfolding build
  from_yaml_file read file_path = build_parsed (parse_file floats read file_path)

-- The actions that are visited; the processes are numbered from `n` on.
unfoldable pub actions_of : ℕ → List Entity → Actions
actions_of n [] = nil
actions_of n (execute_process options ∷ entities) =
    cons (action none (process n)) (actions_of (suc n) entities)
actions_of n (declare_launch_argument name default description ∷ entities) =
    cons (action none (declare_argument name default)) (actions_of n entities)

-- ===== src/Yaml.antt =====
-- include/launch_cpp/yaml_parser.hpp and src/yaml_parser.cpp: the YAML values that the parser makes,
-- with every field of the class. `double` is a parameter.
pub mod Texts
pub mod Streams
pub mod Scalars
pub mod Steps
pub mod Rounds
pub mod Parser
pub mod Builder
use launch_cpp.Prelude.{
  ℕ, Bool, true, false, Option, none, some, [], Str, str_eq, str_lt, if◌then◌else◌,
}

pub data YamlType : Type 0 where
  k_null k_string k_number k_boolean k_array k_object : YamlType

-- `double`, its zero, and `std::stod`, which is `none` where it throws.
pub record Floats : Type 1 where
  pub Double : Type 0
  pub zero : Double
  pub stod : Str → Option Double

module _ (floats : Floats) where
  open floats use {Double}

  mutual
    pub data YamlValue : Type 0 where
      -- type_, string_value_, number_value_, bool_value_, array_value_ and object_value_.
      value : YamlType → Str → Double → Bool → Items → Fields → YamlValue

    pub data Items : Type 0 where
      nil : Items
      cons : YamlValue → Items → Items

    -- `std::map<std::string, YamlValue>`, in the order of the keys.
    pub data Fields : Type 0 where
      end : Fields
      field : Str → YamlValue → Fields → Fields

  abbrev pub null : YamlValue
  null = value k_null [] floats.zero false nil end

  abbrev pub string : Str → YamlValue
  string s = value k_string s floats.zero false nil end

  abbrev pub number : Double → YamlValue
  number d = value k_number [] d false nil end

  abbrev pub boolean : Bool → YamlValue
  boolean b = value k_boolean [] floats.zero b nil end

  abbrev pub get_type : YamlValue → YamlType
  get_type (value t s d b items fields) = t

  abbrev pub is_string_type : YamlType → Bool
  is_string_type k_string = true
  is_string_type _ = false

  abbrev pub is_array_type : YamlType → Bool
  is_array_type k_array = true
  is_array_type _ = false

  abbrev pub is_object_type : YamlType → Bool
  is_object_type k_object = true
  is_object_type _ = false

  abbrev pub is_string : YamlValue → Bool
  is_string v = is_string_type (get_type v)

  abbrev pub is_array : YamlValue → Bool
  is_array v = is_array_type (get_type v)

  abbrev pub is_object : YamlValue → Bool
  is_object v = is_object_type (get_type v)

  abbrev pub as_string : YamlValue → Str
  as_string (value t s d b items fields) = s

  abbrev pub as_array : YamlValue → Items
  as_array (value t s d b items fields) = items

  abbrev pub as_object : YamlValue → Fields
  as_object (value t s d b items fields) = fields

  abbrev pub push_back : Items → YamlValue → Items
  push_back nil v = cons v nil
  push_back (cons w items) v = cons w (push_back items v)

  unfoldable pub add_array_element : YamlValue → YamlValue → YamlValue
  add_array_element v (value t s d b items fields) = value k_array s d b (push_back items v) fields

  unfoldable pub find_field : Str → Fields → Option YamlValue
  find_field k end = none
  find_field k (field j v fields) = if str_eq j k then some v else find_field k fields

  -- `object_value_[key] = v` on keys in their order.
  unfoldable pub set_field : Str → YamlValue → Fields → Fields
  set_field k v end = field k v end
  set_field k v (field j w fields) =
      let rest = set_field k v fields in
      if str_eq j k
      then field j v fields
      else if str_lt k j
      then field k v (field j w fields)
      else field j w rest

  unfoldable pub set_object_field : Str → YamlValue → YamlValue → YamlValue
  unfolding set_field
  set_object_field k v (value t s d b items fields) =
      value k_object s d b items (set_field k v fields)

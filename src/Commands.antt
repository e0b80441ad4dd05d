-- ===== src/Commands.antt =====
-- include/launch_cpp/safety/command_builder.hpp: the names of a node, the command line that runs
-- it, and the quoting of arguments.
pub mod Quoting
pub mod Names
use launch_cpp.Prelude.{
  ℕ, suc, Bool, true, false, not, ◌&&◌, ◌||◌, List, [], ◌∷◌, ◌++◌, Str, codes, ◌==◌, leb, is_empty,
  all, if◌then◌else◌,
}

pub data BuildStatus : Type 0 where
  success invalid_package invalid_executable invalid_name : BuildStatus
  invalid_parameter path_not_found system_error : BuildStatus

-- `BuildResult<void>`.
pub record BuildResult : Type 0 where
  pub status : BuildStatus
  pub error_message : Str

-- The members of the options that the inline operations read: `package`, `executable`, `name` and
-- `namespace_`.
pub record NodeActionOptions : Type 0 where
  pub package_name : Str
  pub executable : Str
  pub name : Str
  pub namespace : Str

-- `<cctype>` in the "C" locale.
unfoldable pub is_between : ℕ → ℕ → ℕ → Bool
is_between low high c = leb low c && leb c high

unfoldable pub isalpha : ℕ → Bool
unfolding is_between
isalpha c = is_between 65 90 c || is_between 97 122 c

unfoldable pub isalnum : ℕ → Bool
unfolding is_between isalpha
isalnum c = is_between 48 57 c || isalpha c

unfoldable pub isspace : ℕ → Bool
unfolding is_between
isspace c = c == 32 || is_between 9 13 c

-- `_`, `-`, `.`, `"`, `\`, `$` and the backtick.
abbrev pub underscore : ℕ
underscore = 95

abbrev pub hyphen : ℕ
hyphen = 45

abbrev pub dot : ℕ
dot = 46

abbrev pub quote : ℕ
quote = 34

abbrev pub backslash : ℕ
backslash = 92

abbrev pub dollar : ℕ
dollar = 36

abbrev pub backtick : ℕ
backtick = 96

unfoldable pub package_char : ℕ → Bool
unfolding isalnum
package_char c = isalnum c || (c == underscore || c == hyphen)

unfoldable pub is_valid_package_name : Str → Bool
unfolding isalpha package_char
is_valid_package_name [] = false
is_valid_package_name (c ∷ cs) = if not (isalpha c) then false else all package_char (c ∷ cs)

unfoldable pub is_valid_executable_name : Str → Bool
unfolding isalpha package_char
is_valid_executable_name [] = false
is_valid_executable_name (c ∷ cs) =
    if not (isalpha c) && not (c == underscore) then false else all package_char (c ∷ cs)

unfoldable pub node_char : ℕ → Bool
unfolding isalnum
node_char c = isalnum c || c == underscore

unfoldable pub is_valid_node_name : Str → Bool
unfolding isalpha node_char
is_valid_node_name [] = true
is_valid_node_name (c ∷ cs) =
    if not (isalpha c) && not (c == underscore) then false else all node_char (c ∷ cs)

unfoldable pub parameter_char : ℕ → Bool
unfolding isalnum
parameter_char c = isalnum c || (c == underscore || c == dot)

unfoldable pub is_valid_parameter_name : Str → Bool
unfolding isalpha parameter_char
is_valid_parameter_name [] = false
is_valid_parameter_name (c ∷ cs) =
    if not (isalpha c) && not (c == underscore) then false else all parameter_char (c ∷ cs)

unfoldable pub special_char : ℕ → Bool
unfolding isspace
special_char c = isspace c || (c == quote || (c == backslash || (c == dollar || c == backtick)))

unfoldable pub needs_quoting : Str → Bool
unfolding special_char
needs_quoting [] = false
needs_quoting (c ∷ cs) = if special_char c then true else needs_quoting cs

unfoldable pub escape_chars : Str → Str
escape_chars [] = []
escape_chars (c ∷ cs) =
    if c == quote || c == backslash then backslash ∷ c ∷ escape_chars cs else c ∷ escape_chars cs

unfoldable pub escape_argument : Str → Str
unfolding needs_quoting escape_chars
escape_argument arg =
    if not (needs_quoting arg) then arg else quote ∷ (escape_chars arg ++ quote ∷ [])

abbrev invalid : BuildStatus → Str → BuildResult
invalid status message = record { status = status; error_message = message }

unfoldable pub validate_options : NodeActionOptions → BuildResult
unfolding is_valid_package_name is_valid_executable_name is_valid_node_name
validate_options options =
    if not (is_valid_package_name options.package_name)
    then invalid invalid_package (codes "Invalid package name: " ++ options.package_name)
    else if not (is_valid_executable_name options.executable)
    then invalid invalid_executable (codes "Invalid executable name: " ++ options.executable)
    else if not (is_valid_node_name options.name)
    then invalid invalid_name (codes "Invalid node name: " ++ options.name)
    else invalid success []

unfoldable pub build_node_identification : NodeActionOptions → List Str
build_node_identification options = codes "run" ∷ options.package_name ∷ options.executable ∷ []

-- `if (!value.empty()) { push "-r"; push key + value; }`
unfoldable pub remap_unless_empty : Str → Str → List Str
remap_unless_empty key value = if not (is_empty value) then codes "-r" ∷ (key ++ value) ∷ [] else []

unfoldable pub build_name_and_namespace : NodeActionOptions → List Str
unfolding remap_unless_empty
build_name_and_namespace options =
    codes "--ros-args"
    ∷ (remap_unless_empty (codes "__node:=") options.name
        ++ remap_unless_empty (codes "__ns:=") options.namespace)

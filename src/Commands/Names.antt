-- ===== src/Commands/Names.antt =====
-- include/launch_cpp/safety/command_builder.hpp: which options validate_options accepts, and that
-- the names it accepts stand on a command line unquoted.
use launch_cpp.Prelude.{ℕ, ◌≡◌, refl, true, false, [], ◌∷◌, Str, all, arith}
use launch_cpp.Commands.{
  success, NodeActionOptions, is_between, isalpha, isalnum, isspace, package_char, node_char,
  special_char, needs_quoting, escape_argument, is_valid_package_name, is_valid_executable_name,
  is_valid_node_name, validate_options,
}

package_char-plain : (c : ℕ) → package_char c ≡ true → special_char c ≡ false
unfolding package_char isalnum isalpha is_between special_char isspace
package_char-plain c h = ground arith

node_char-package_char : (c : ℕ) → node_char c ≡ true → package_char c ≡ true
unfolding node_char package_char
node_char-package_char c h = ground arith

package_chars-plain : (s : Str) → all package_char s ≡ true → needs_quoting s ≡ false
unfolding needs_quoting
package_chars-plain [] h = refl
package_chars-plain (c ∷ cs) h = ground (arith, package_char-plain c, package_chars-plain cs)

node_chars-package_chars : (s : Str) → all node_char s ≡ true → all package_char s ≡ true
node_chars-package_chars [] h = refl
node_chars-package_chars (c ∷ cs) h =
    ground (arith, node_char-package_char c, node_chars-package_chars cs)

package_name-plain : (s : Str) → is_valid_package_name s ≡ true → needs_quoting s ≡ false
unfolding is_valid_package_name
package_name-plain [] h = ground arith
package_name-plain (c ∷ cs) h = ground (arith, package_chars-plain (c ∷ cs))

executable_name-plain : (s : Str) → is_valid_executable_name s ≡ true → needs_quoting s ≡ false
unfolding is_valid_executable_name
executable_name-plain [] h = ground arith
executable_name-plain (c ∷ cs) h = ground (arith, package_chars-plain (c ∷ cs))

node_name-plain : (s : Str) → is_valid_node_name s ≡ true → needs_quoting s ≡ false
unfolding is_valid_node_name needs_quoting
node_name-plain [] h = refl
node_name-plain (c ∷ cs) h =
    ground (arith, package_chars-plain (c ∷ cs), node_chars-package_chars (c ∷ cs))

escape_argument-plain : (s : Str) → needs_quoting s ≡ false → escape_argument s ≡ s
unfolding escape_argument
escape_argument-plain s h = ground arith

validate_options-Valid :
    (options : NodeActionOptions)
    → (validate_options options).status ≡ success
    → (is_valid_package_name options.package_name ≡ true)
      × (is_valid_executable_name options.executable ≡ true)
      × (is_valid_node_name options.name ≡ true)
unfolding validate_options
validate_options-Valid options h = (ground arith, ground arith, ground arith)

-- When `validate_options` accepts the options, `escape_argument` leaves the package, the
-- executable and the node's name as they are.
pub escape_argument-validate_options :
    (options : NodeActionOptions)
    → (validate_options options).status ≡ success
    → (escape_argument options.package_name ≡ options.package_name)
      × (escape_argument options.executable ≡ options.executable)
      × (escape_argument options.name ≡ options.name)
escape_argument-validate_options options h =
    let valid = validate_options-Valid options h in
    (
      escape_argument-plain options.package_name (package_name-plain options.package_name valid.0),
      escape_argument-plain options.executable (executable_name-plain options.executable valid.1),
      escape_argument-plain options.name (node_name-plain options.name valid.2),
    )

-- ===== src/Includes.antt =====
-- src/actions/include_launch_description.cpp: an action that loads a launch file and visits it.
pub mod Overriding
pub mod Keeping
use launch_cpp.Prelude.{ℕ, Bool, true, false, Option, none, some, List, [], ◌∷◌, ◌++◌, Str, codes}
use launch_cpp.Errors.{Result, ok, err, error, invalid_argument, internal_error}
use launch_cpp.Context.{Context, set_launch_configuration}
use launch_cpp.Substitutions.{System, Substitution, perform}
use launch_cpp.Actions.{Actions, Host, State, visit_description}
use launch_cpp.Yaml.{Floats}
use launch_cpp.Yaml.Steps.{Outcome, returns, throws, no_fuel}
use launch_cpp.Yaml.Builder.{Entity, from_yaml_file, actions_of}

pub record Options : Type 0 where
  pub source : Option Substitution
  -- A name and a value, which may be a null pointer.
  pub arguments : List (Str × Option Substitution)

unfoldable pub set_arguments : System → List (Str × Option Substitution) → Context → Context
set_arguments system [] c = c
set_arguments system ((name, none) ∷ arguments) c = set_arguments system arguments c
set_arguments system ((name, some sub) ∷ arguments) c =
    set_arguments system arguments (set_launch_configuration name (perform system sub c) c)

module _ (floats : Floats) (host : Host) where
  -- What the visit returns, without the actions that it collects.
  abbrev pub visited : Result Actions × State host → Outcome (Result (Unit {0})) × State host
  visited (ok actions, s) = (returns (ok tt), s)
  visited (err e, s) = (returns (err e), s)

  -- The processes that the file starts are numbered from `first` on.
  unfoldable pub include_loaded :
      (first : ℕ)
      → List (Str × Option Substitution)
      → Outcome (Result (List Entity))
      → State host
      → Outcome (Result (Unit {0})) × State host
  unfolding set_arguments
  include_loaded first arguments (returns (ok entities)) (c, w) = visited (
      visit_description host (actions_of first entities) (set_arguments host.system arguments c, w))
  include_loaded first arguments (returns (err e)) s = (returns (err e), s)
  include_loaded first arguments throws s = (throws, s)
  include_loaded first arguments no_fuel s = (no_fuel, s)

  -- The file as `read` finds it.
  unfoldable pub include_found :
      (read : Str → Option Str)
      → (first : ℕ) → List (Str × Option Substitution)
      → Str
      → Option Str
      → State host
      → Outcome (Result (Unit {0})) × State host
  unfolding include_loaded
  include_found read first arguments file_path none s =
      (returns (err (error invalid_argument (codes "Launch file not found: " ++ file_path))), s)
  include_found read first arguments file_path (some content) s =
      include_loaded first arguments (from_yaml_file floats read file_path) s

  unfoldable pub execute_from :
      (read : Str → Option Str)
      → (first : ℕ) → List (Str × Option Substitution)
      → Option Substitution
      → State host
      → Outcome (Result (Unit {0})) × State host
  unfolding include_found
  execute_from read first arguments none s =
      (returns (err (error invalid_argument (codes "No launch description source provided"))), s)
  execute_from read first arguments (some source) (c, w) =
      include_found read first arguments (perform host.system source c)
        (read (perform host.system source c)) (c, w)

  unfoldable pub execute :
      (read : Str → Option Str)
      → (first : ℕ) → Options
      → State host
      → Outcome (Result (Unit {0})) × State host
  unfolding execute_from
  execute read first options s = execute_from read first options.arguments options.source s

  -- What a visit gets from an include. An exception ends the program; here it ends the visit.
  abbrev pub settled : Outcome (Result (Unit {0})) × State host → Result (Unit {0}) × State host
  settled (returns r, s) = (r, s)
  settled (throws, s) = (err (error internal_error []), s)
  settled (no_fuel, s) = (err (error internal_error []), s)

-- The host whose `IncludeLaunchDescription` objects are those of `objects`, each with the number of
-- the first process that its file starts. Files hold no includes, so inside a file there are none.
abbrev pub with_includes :
    (floats : Floats) (host : Host) → (read : Str → Option Str) → (objects : ℕ → ℕ × Options) → Host
with_includes floats host read objects = record {
  system = host.system;
  World = host.World;
  execute_process = host.execute_process;
  execute_include =
      λ id c w. settled floats host (execute floats host read (objects id).0 (objects id).1 (c, w));
  sleep = host.sleep;
}

-- ===== src/Includes/Keeping.antt =====
-- Includes of src/actions/include_launch_description.cpp keep the launch configurations that are set.
use launch_cpp.Prelude.{ℕ, ◌≡◌, true, Option, none, some, List, [], ◌∷◌, Str}
use launch_cpp.Errors.{Result, ok, err}
use launch_cpp.Context.{Context, has_launch_configuration}
use launch_cpp.Substitutions.{System, Substitution, perform}
use launch_cpp.Actions.{Actions, Host, State, visit_description}
use launch_cpp.Actions.Configurations.{
  Keeps, Keeps-set, IncludesKeep, visit_description-has_launch_configuration,
}
use launch_cpp.Yaml.{Floats}
use launch_cpp.Yaml.Steps.{Outcome, returns, throws, no_fuel}
use launch_cpp.Yaml.Builder.{Entity, from_yaml_file, actions_of}
use launch_cpp.Includes.{
  Options, set_arguments, visited, include_loaded, include_found, execute_from, execute, settled,
  with_includes,
}

set_arguments-Keeps :
    (system : System) (arguments : List (Str × Option Substitution)) (c : Context)
    → Keeps c (set_arguments system arguments c)
unfolding set_arguments
set_arguments-Keeps system [] c key h = h
set_arguments-Keeps system ((name, none) ∷ arguments) c key h =
    set_arguments-Keeps system arguments c key h
set_arguments-Keeps system ((name, some sub) ∷ arguments) c key h =
    set_arguments-Keeps system arguments _ key (Keeps-set name (perform system sub c) c key h)

module _ (floats : Floats) (host : Host) (includes_keep : IncludesKeep host) where
  visited-state : (r : Result Actions × State host) → (visited floats host r).1 ≡ r.1
  visited-state (ok actions, s) = λ i. s
  visited-state (err e, s) = λ i. s

  settled-state : (r : Outcome (Result (Unit {0})) × State host) → (settled floats host r).1 ≡ r.1
  settled-state (returns r, s) = λ i. s
  settled-state (throws, s) = λ i. s
  settled-state (no_fuel, s) = λ i. s

  include_loaded-Keeps :
      (first : ℕ) (arguments : List (Str × Option Substitution))
      (r : Outcome (Result (List Entity))) (c : Context) (w : host.World)
      → Keeps c (include_loaded floats host first arguments r (c, w)).1.0
  unfolding include_loaded
  include_loaded-Keeps first arguments (returns (ok entities)) c w key h =
      let c' = set_arguments host.system arguments c in
      rw (visited-state (visit_description host (actions_of first entities) (c', w))) (
        visit_description-has_launch_configuration host includes_keep (actions_of first entities) c'
          w key (set_arguments-Keeps host.system arguments c key h))
  include_loaded-Keeps first arguments (returns (err e)) c w key h = h
  include_loaded-Keeps first arguments throws c w key h = h
  include_loaded-Keeps first arguments no_fuel c w key h = h

  include_found-Keeps :
      (read : Str → Option Str) (first : ℕ) (arguments : List (Str × Option Substitution))
      (path : Str) (found : Option Str) (c : Context) (w : host.World)
      → Keeps c (include_found floats host read first arguments path found (c, w)).1.0
  unfolding include_found
  include_found-Keeps read first arguments path none c w key h = h
  include_found-Keeps read first arguments path (some content) c w key h =
      include_loaded-Keeps first arguments (from_yaml_file floats read path) c w key h

  execute_from-Keeps :
      (read : Str → Option Str) (first : ℕ) (arguments : List (Str × Option Substitution))
      (source : Option Substitution) (c : Context) (w : host.World)
      → Keeps c (execute_from floats host read first arguments source (c, w)).1.0
  unfolding execute_from
  execute_from-Keeps read first arguments none c w key h = h
  execute_from-Keeps read first arguments (some source) c w key h =
      include_found-Keeps read first arguments (perform host.system source c)
        (read (perform host.system source c)) c w key h

  with_includes-Keeps :
      (read : Str → Option Str) (objects : ℕ → ℕ × Options)
      → IncludesKeep (with_includes floats host read objects)
  unfolding execute
  with_includes-Keeps read objects id c w key h =
      let o = objects id in
      rw (settled-state (execute floats host read o.0 o.1 (c, w)))
        (execute_from-Keeps read o.0 o.1.arguments o.1.source c w key h)

-- Visiting a launch description with includes of launch files, to its end or to an error, keeps
-- every launch configuration that was set before: no action takes one away, whatever it nests and
-- wherever an include stands. The host that the files are visited with has no includes of its own,
-- or none that takes a configuration away.
pub with_includes-has_launch_configuration :
    (floats : Floats) (host : Host)
    → IncludesKeep host
    → (read : Str → Option Str) (objects : ℕ → ℕ × Options) (entities : Actions) (c : Context)
      (w : host.World) (key : Str)
    → has_launch_configuration key c ≡ true
    → has_launch_configuration key
        (visit_description (with_includes floats host read objects) entities (c, w)).1.0
      ≡ true
with_includes-has_launch_configuration floats host includes_keep read objects entities c w key h =
    visit_description-has_launch_configuration (with_includes floats host read objects)
      (with_includes-Keeps floats host includes_keep read objects) entities c w key h

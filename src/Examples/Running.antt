-- ===== src/Examples/Running.antt =====
-- The program on the text of a launch file.
use launch_cpp.Prelude.{
  ℕ, true, false, Option, some, List, [], ◌∷◌, Str, codes, ◌≡◌, refl, str_eq, str_lt, if◌then◌else◌,
  ◌+◌,
}
use launch_cpp.Prelude.Ordered.{Map, find, set}
use launch_cpp.Errors.{Result, ok, err, error, invalid_argument, process_spawn_failed}
use launch_cpp.Context.{new_context, has_launch_configuration, set_launch_configuration}
use launch_cpp.Actions.{Actions, Host}
use launch_cpp.Program.Launching.{described, starts_all}
use launch_cpp.Yaml.Steps.{Outcome, returns, throws, no_fuel}
use launch_cpp.Yaml.Parser.Printing.{print}
use launch_cpp.Yaml.Builder.{Entity, from_yaml_file}
use launch_cpp.Yaml.Builder.Writing.{items_of}
use launch_cpp.Examples.Loading.{floats, speed, shell, host}

abbrev environment : Map Str
environment = (codes "SHELL", codes "/bin/sh") ∷ []

abbrev read : Str → Option Str
read path = some (print (items_of (shell ∷ (speed ∷ []))))

-- This file loads without an exception.
abbrev loaded : Outcome (Result (List Entity)) → Result (Option Actions)
loaded (returns r) = described r
loaded throws = err (error invalid_argument [])
loaded no_fuel = err (error invalid_argument [])

abbrev load : Str → Result (Option Actions)
load path = loaded (from_yaml_file floats read path)

-- A process that starts only where "speed" is set starts behind the argument and not before it.
abbrev wants_speed : Host
wants_speed = record {
  system = host.system;
  World = ℕ;
  execute_process = λ p c w. (
    if has_launch_configuration (codes "speed") c
        then ok tt
        else err (error process_spawn_failed []),
    w + 1,
  );
  execute_include = λ id c w. (ok tt, (c, w));
  sleep = λ period w. w;
}

speed_first_test : starts_all wants_speed 0 (speed ∷ (shell ∷ [])) (new_context []) 0 ≡ true
unfolding starts_all has_launch_configuration set_launch_configuration str_eq str_lt find set
speed_first_test = refl

shell_first_test : starts_all wants_speed 0 (shell ∷ (speed ∷ [])) (new_context []) 0 ≡ false
unfolding starts_all has_launch_configuration set_launch_configuration str_eq str_lt find set
shell_first_test = refl

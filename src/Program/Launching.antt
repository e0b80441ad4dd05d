-- ===== src/Program/Launching.antt =====
-- src/main.cpp with src/yaml_parser.cpp and src/launch_description.cpp: the program, from the text of
-- a launch file to its exit code.
use launch_cpp.Prelude.{ℕ, suc, Bool, true, ◌&&◌, Option, some, List, [], ◌∷◌, if◌then◌else◌}
use launch_cpp.Errors.{Result, ok, err}
use launch_cpp.Context.{Context, has_launch_configuration, set_launch_configuration}
use launch_cpp.Actions.{Actions, Host}
use launch_cpp.Program.Exit.{is_ok}
use launch_cpp.Yaml.Builder.{Entity, actions_of}
use launch_cpp.Yaml.Builder.Writing.{Written, argument, process}

-- The description that was built, whose processes are numbered from 0 on.
abbrev pub described : Result (List Entity) → Result (Option Actions)
described (ok entities) = ok (some (actions_of 0 entities))
described (err e) = err e

module _ (host : Host) where
  open host use {World}

  -- Whether all processes of a launch file start, the first of them with number `n`. An argument
  -- that is not set before is set to its default value.
  unfoldable pub starts_all : ℕ → List Written → Context → World → Bool
  starts_all n [] c w = true
  starts_all n (argument name default_value description ∷ written) c w =
      starts_all n written
        (if has_launch_configuration name c
          then c
          else set_launch_configuration name default_value c)
        w
  starts_all n (process p ∷ written) c w =
      let (r, w') = host.execute_process n c w in is_ok r && starts_all (suc n) written c w'

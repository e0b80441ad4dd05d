-- ===== src/Program.antt =====
-- src/main.cpp: the program that loads a launch file and runs it.
pub mod Exit
pub mod Launching
use launch_cpp.Prelude.{
  ℕ, Bool, true, false, not, ◌||◌, Option, none, some, List, [], ◌∷◌, ◌++◌, Str, codes, str_eq,
  if◌then◌else◌,
}
use launch_cpp.Errors.{Error, is_error, Result, ok, err}
use launch_cpp.Prelude.Ordered.{Map}
use launch_cpp.Actions.{Actions, Host}
use launch_cpp.Service.{Service, create, include_launch_description, run}

-- `LaunchService::Options`, as far as the program sets it.
pub record Options : Type 0 where
  pub debug : Bool
  pub argv : List Str

unfoldable pub parse_arguments : List Str → Options → Options
parse_arguments [] options = options
parse_arguments (arg ∷ args) options = parse_arguments args (
    if str_eq arg (codes "--debug")
    then record { debug = true; argv = options.argv }
    else record { debug = options.debug; argv = options.argv ++ arg ∷ [] })

unfoldable pub is_help : Str → Bool
is_help launch_file = str_eq launch_file (codes "--help") || str_eq launch_file (codes "-h")

module _ (host : Host) where
  -- `LaunchService service(options)`: its constructor reads no option.
  unfoldable pub create_service : Options → (environment : Map Str) → host.World → Service host
  create_service options environment w = create host environment w

  unfoldable pub run_included : Service host × Error → ℕ
  run_included (service, e) = if is_error e then 1 else (run host true service).1

  unfoldable pub run_loaded : Result (Option Actions) → Service host → ℕ
  unfolding run_included
  run_loaded (err e) service = 1
  run_loaded (ok description) service =
      run_included (include_launch_description host description service)

  -- The arguments start with the program's name; `load` is `from_yaml_file`, and
  -- `environment` what `getenv` reads. The exit code.
  unfoldable pub main :
      (Str → Result (Option Actions)) → List Str → (environment : Map Str) → host.World → ℕ
  unfolding parse_arguments is_help create_service run_loaded
  main load [] environment w = 1
  main load (program ∷ []) environment w = 1
  main load (program ∷ (launch_file ∷ args)) environment w =
      if is_help launch_file
      then 0
      else run_loaded (load launch_file) (
          create_service (parse_arguments args (record { debug = false; argv = [] })) environment w)

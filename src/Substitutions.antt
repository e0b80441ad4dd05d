-- ===== src/Substitutions.antt =====
-- src/substitutions: texts that are computed when the launch description runs.
use launch_cpp.Prelude.{
  Bool, Option, none, some, List, [], ◌∷◌, ◌++◌, Str, codes, ◌==◌, if◌then◌else◌, get_or, is_empty,
}
use launch_cpp.Prelude.Ordered.{find}
use launch_cpp.Errors.{Result, ok, err}
use launch_cpp.Context.{
  Context, get_launch_configuration, get_environment_variable, get_current_launch_file,
}

-- What the substitutions ask of the operating system.
pub record System : Type 0 where
  -- The text that a command prints, or `none` where `popen` fails.
  pub popen : Str → Option Str
  -- A regular file that its owner may execute.
  pub is_executable : Str → Bool

mutual
  pub data Substitution : Type 0 where
    text : Str → Substitution
    launch_configuration : Str → Substitution
    -- A name and a default value.
    variable : Str → Str → Substitution
    environment_variable : Str → Str → Substitution
    this_launch_file this_launch_file_dir : Substitution
    find_executable : Str → Substitution
    command : Substitutions → Substitution

  -- `absent` is a null pointer in the vector.
  pub data Substitutions : Type 0 where
    nil : Substitutions
    cons : Substitution → Substitutions → Substitutions
    absent : Substitutions → Substitutions

abbrev or_default : Result Str → Str → Str
or_default (ok value) default = value
or_default (err e) default = default

-- `s.find_last_of("/")` and `s.substr(0, …)`: what stands before the last slash.
unfoldable pub before_last_slash : Str → Option Str
before_last_slash [] = none
before_last_slash (c ∷ s) = elim (before_last_slash s) [
  | some dir ↦ some (c ∷ dir)
  | none ↦ if c == b'/' then some [] else none
]

unfoldable pub directory_of : Str → Str
unfolding before_last_slash
directory_of [] = []
directory_of (c ∷ s) = get_or (before_last_slash (c ∷ s)) (codes ".")

-- `std::getline(iss, path, ':')` until it fails: a last empty part is not delivered.
unfoldable pub split_path : Str → Str → List Str
split_path part [] = if is_empty part then [] else part ∷ []
split_path part (c ∷ s) =
    if c == b':' then part ∷ split_path [] s else split_path (part ++ c ∷ []) s

unfoldable pub find_in : System → Str → List Str → Str
find_in system name [] = []
find_in system name (path ∷ paths) =
    let full_path = path ++ codes "/" ++ name in
    if system.is_executable full_path then full_path else find_in system name paths

abbrev search_path : System → Str → Option Str → Str
search_path system name none = name
search_path system name (some path_env) = find_in system name (split_path [] path_env)

unfoldable pub trim_newline : Str → Str
trim_newline [] = []
trim_newline (c ∷ []) = if c == 10 then [] else c ∷ []
trim_newline (c ∷ d ∷ s) = c ∷ trim_newline (d ∷ s)

-- `if (!cmd.empty()) cmd += " "; cmd += part`.
abbrev append_word : Str → Str → Str
append_word cmd part = if is_empty cmd then part else cmd ++ codes " " ++ part

abbrev run_command : System → Str → Str
run_command system [] = []
run_command system (c ∷ cmd) = trim_newline (get_or (system.popen (c ∷ cmd)) [])

unfoldable mutual
  unfolding directory_of split_path find_in trim_newline

  pub perform : System → Substitution → Context → Str
  perform system (text t) c = t
  perform system (launch_configuration name) c = or_default (get_launch_configuration name c) []
  perform system (variable name default) c = or_default (get_launch_configuration name c) default
  perform system (environment_variable name default) c =
      let value = get_environment_variable name c in if is_empty value then default else value
  perform system this_launch_file c = get_current_launch_file c
  perform system this_launch_file_dir c = directory_of (get_current_launch_file c)
  perform system (find_executable name) c =
      search_path system name (find (codes "PATH") c.environment)
  perform system (command parts) c = run_command system (perform_words system parts [] c)

  pub perform_words : System → Substitutions → Str → Context → Str
  perform_words system nil cmd c = cmd
  perform_words system (cons sub subs) cmd c =
      perform_words system subs (append_word cmd (perform system sub c)) c
  perform_words system (absent subs) cmd c = perform_words system subs cmd c

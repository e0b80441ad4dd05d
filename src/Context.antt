-- ===== src/Context.antt =====
-- src/launch_context_impl.hpp: the launch context. A handler stands for the address of its object.
-- The locks make each method one step, so a method is a function on the state.
use launch_cpp.Prelude.{
  ℕ, Bool, Option, none, some, List, [], ◌∷◌, ◌++◌, Str, codes, ◌==◌, if◌then◌else◌, get_or,
}
use launch_cpp.Prelude.Ordered.{Map, find, has, set}
use launch_cpp.Errors.{error, invalid_argument, Result, ok, err}

pub record Context : Type 0 where
  pub configurations : Map Str
  pub current_launch_file : Str
  pub handlers : List ℕ
  -- The variables of the process, which `getenv` and `setenv` share with everybody.
  pub environment : Map Str

unfoldable pub register_event_handler : ℕ → Context → Context
register_event_handler handler c = record c { handlers = c.handlers ++ handler ∷ [] }

unfoldable pub drop_first : ℕ → List ℕ → List ℕ
drop_first handler [] = []
drop_first handler (h ∷ hs) = if h == handler then hs else h ∷ drop_first handler hs

unfoldable pub unregister_event_handler : ℕ → Context → Context
unfolding drop_first
unregister_event_handler handler c = record c { handlers = drop_first handler c.handlers }

abbrev pub get_event_handlers : Context → List ℕ
get_event_handlers c = c.handlers

unfoldable pub set_launch_configuration : Str → Str → Context → Context
set_launch_configuration key value c = record c { configurations = set key value c.configurations }

abbrev found_or_error : Option Str → Result Str
found_or_error none = err (error invalid_argument (codes "Configuration not found"))
found_or_error (some value) = ok value

unfoldable pub get_launch_configuration : Str → Context → Result Str
get_launch_configuration key c = found_or_error (find key c.configurations)

unfoldable pub has_launch_configuration : Str → Context → Bool
has_launch_configuration key c = has key c.configurations

unfoldable pub get_environment_variable : Str → Context → Str
get_environment_variable name c = get_or (find name c.environment) []

unfoldable pub set_environment_variable : Str → Str → Context → Context
set_environment_variable name value c = record c { environment = set name value c.environment }

unfoldable pub set_current_launch_file : Str → Context → Context
set_current_launch_file path c = record c { current_launch_file = path }

abbrev pub get_current_launch_file : Context → Str
get_current_launch_file c = c.current_launch_file

-- The source's `emit_event` drops the event.
unfoldable pub emit_event : ℕ → Context → Context
emit_event event c = c

-- A new context, in a process with this environment.
abbrev pub new_context : Map Str → Context
new_context environment = record {
  configurations = [];
  current_launch_file = [];
  handlers = [];
  environment = environment;
}

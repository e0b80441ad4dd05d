-- ===== src/Dependencies.antt =====
-- src/dependency_manager.cpp: processes with their dependencies, started in a resolved order.
pub mod Execution
pub mod Order
use launch_cpp.Prelude.{
  ℕ, Bool, true, false, not, Option, none, some, List, [], ◌∷◌, ◌++◌, Str, codes, contains, count,
  is_empty, length, if◌then◌else◌, ◌≡◌,
}
use launch_cpp.Prelude.Ordered.{Map, find, has, set, keys}
use launch_cpp.Errors.{
  Error, error, no_error, is_error, invalid_argument, invalid_configuration, cyclic_dependency,
  process_not_found,
}
use launch_cpp.Resolver.{NodeConfig, ResolutionResult, resolve}

-- A process is an `ExecuteProcess` object, by its identity.
pub record Manager : Type 0 where
  pub processes : Map ℕ
  pub dependencies : Map (List Str)

abbrev pub new_manager : Manager
new_manager = record { processes = []; dependencies = [] }

-- A null pointer is `none`.
unfoldable pub add_process : Str → Option ℕ → List Str → Manager → Error × Manager
add_process name none deps m =
    if is_empty name
    then (error invalid_argument (codes "Process name cannot be empty"), m)
    else (error invalid_argument (codes "Process action cannot be null"), m)
add_process name (some action) deps m =
    if is_empty name
    then (error invalid_argument (codes "Process name cannot be empty"), m)
    else if has name m.processes
    then (error invalid_configuration (codes "Process '" ++ (name ++ codes "' already exists")), m)
    else (
      no_error,
      record {
        processes = set name action m.processes;
        dependencies = set name deps m.dependencies;
      },
    )

unfoldable pub node_configs : Map (List Str) → List NodeConfig
node_configs [] = []
node_configs ((name, deps) ∷ m) = record { name = name; dependencies = deps } ∷ node_configs m

-- The order in which an `unordered_map` is iterated is not known: `iterate` gives its entries.
abbrev pub Iteration : Type 0
Iteration = Map (List Str) → Map (List Str)

-- It visits each entry, once.
abbrev pub IsIteration : Iteration → Type 0
IsIteration iterate =
    (m : Map (List Str)) (n : Str)
    → (count n (keys (iterate m)) ≡ count n (keys m)) × (find n (iterate m) ≡ find n m)

unfoldable pub resolve_dependencies : Iteration → Manager → Option ResolutionResult
unfolding node_configs
resolve_dependencies iterate m = resolve (node_configs (iterate m.dependencies))

unfoldable pub all_completed : List Str → List Str → Bool
all_completed completed [] = true
all_completed completed (dep ∷ deps) =
    if not (contains dep completed) then false else all_completed completed deps

unfoldable pub is_ready : Manager → Str → List Str → Bool
unfolding all_completed
is_ready m name completed = elim (find name m.dependencies) [
  | none ↦ false
  | some deps ↦ all_completed completed deps
]

unfoldable pub get_process : Manager → Str → Option ℕ
get_process m name = find name m.processes

unfoldable pub clear : Manager → Manager
clear m = new_manager

unfoldable pub get_process_count : Manager → ℕ
get_process_count m = length m.processes

module _ {World : Type 0} (execute : ℕ → World → Error × World) where
  unfoldable pub execute_order : Manager → List Str → List Str → World → Error × World
  unfolding is_ready
  execute_order m completed [] w = (no_error, w)
  execute_order m completed (name ∷ order) w = elim (find name m.processes) [
    | none ↦ (error process_not_found (codes "Process '" ++ (name ++ codes "' not found")), w)
    | some process ↦
        let rest = execute_order m (name ∷ completed) order (execute process w).1 in
        if not (is_ready m name completed)
        then (
          error cyclic_dependency (codes "Dependencies not satisfied for '" ++ (name ++ codes "'")),
          w,
        )
        else if is_error (execute process w).0
        then execute process w
        else rest
  ]

  unfoldable pub execute_resolved : Manager → ResolutionResult → World → Error × World
  unfolding execute_order
  execute_resolved m result w =
      if not result.success
      then (error cyclic_dependency result.error_message, w)
      else execute_order m [] result.order w

  unfoldable pub execute_all : Iteration → Manager → World → Option (Error × World)
  unfolding execute_resolved resolve_dependencies
  execute_all iterate m w = elim (resolve_dependencies iterate m) [
    | none ↦ none
    | some result ↦ some (execute_resolved m result w)
  ]

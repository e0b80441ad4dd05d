-- ===== src/Examples/Resolving.antt =====
-- Resolving the dependencies of two nodes, and starting two processes in that order.
use launch_cpp.Dependencies.{node_configs, is_ready, get_process}
use launch_cpp.Prelude.{if◌then◌else◌, ◌↔◌, contains}
use launch_cpp.Errors.{error, cyclic_dependency}
use launch_cpp.Resolver.Complete.{IsResolvable}
use launch_cpp.Resolver.{back_to}
use launch_cpp.Prelude.Ordered.{find, set}
use launch_cpp.Prelude.{contains, str_eq, str_lt}
use launch_cpp.Prelude.{
  ℕ, ◌≡◌, refl, Bool, true, false, ◌↔◌, some, List, [], ◌∷◌, Str, codes, IsDistinct, is_distinct,
  is_distinct-IsDistinct, count, arith,
}
use launch_cpp.Resolver.{
  NodeConfig, ResolutionResult, names, resolve, get_circular_path, has_circular_dependency,
  build_adjacency_list,
}
use launch_cpp.Resolver.Cycle.{IsCycle}
use launch_cpp.Resolver.Acyclic.{Finds, Finds-get_circular_path, has_circular_dependency_iff}
use launch_cpp.Resolver.Order.{respects, resolve_sound, resolve-IsDistinct, Every}
use launch_cpp.Resolver.Complete.{IsResolvable, resolve_iff}
use launch_cpp.Errors.{Error, no_error}
use launch_cpp.Dependencies.{
  Manager, new_manager, add_process, execute_all, resolve_dependencies, Iteration, IsIteration,
}
use launch_cpp.Dependencies.Order.{execute_all-in_turn}
use launch_cpp.Dependencies.Execution.{IsPaired, add_process-IsPaired, in_turn}

-- The planner needs the map and the sensor, and the map needs the sensor.
abbrev nodes : List NodeConfig
nodes =
    record { name = codes "planner"; dependencies = codes "map" ∷ codes "sensor" ∷ [] }
    ∷ record { name = codes "map"; dependencies = codes "sensor" ∷ [] }
    ∷ record { name = codes "sensor"; dependencies = [] }
    ∷ []

nodes-IsDistinct : IsDistinct (names nodes)
unfolding is_distinct contains str_eq
nodes-IsDistinct = is_distinct-IsDistinct (names nodes) refl

abbrev result : ResolutionResult
result = record {
  success = true;
  order = codes "sensor" ∷ codes "map" ∷ codes "planner" ∷ [];
  error_message = [];
  circular_path = [];
}

resolve_nodes : resolve nodes ≡ some result
unfolding resolve contains str_eq set str_lt
resolve_nodes = refl

resolve_iff_example :
    (r : ResolutionResult) × (resolve nodes ≡ some r) × ((r.success ≡ true) ↔ IsResolvable nodes)
resolve_iff_example = resolve_iff nodes nodes-IsDistinct

resolve_sound_example :
    ((n : Str) → count n result.order ≡ count n (names nodes))
    × (respects result.order nodes ≡ true)
resolve_sound_example = resolve_sound nodes result nodes-IsDistinct resolve_nodes refl

resolve-IsDistinct_example : Every (λ node. IsDistinct node.dependencies) nodes
resolve-IsDistinct_example = resolve-IsDistinct nodes result nodes-IsDistinct resolve_nodes refl

-- Two nodes that wait for each other.
abbrev cyclic_nodes : List NodeConfig
cyclic_nodes =
    record { name = codes "a"; dependencies = codes "b" ∷ [] }
    ∷ record { name = codes "b"; dependencies = codes "a" ∷ [] }
    ∷ []

Finds-get_circular_path_example :
    Finds (build_adjacency_list cyclic_nodes) (get_circular_path cyclic_nodes)
Finds-get_circular_path_example = Finds-get_circular_path cyclic_nodes

has_circular_dependency_iff_example :
    (answer : Bool) × (has_circular_dependency cyclic_nodes ≡ some answer)
    × ((answer ≡ true) ↔ ((path : List Str) × IsCycle (build_adjacency_list cyclic_nodes) path))
has_circular_dependency_iff_example = has_circular_dependency_iff cyclic_nodes

circular_path_test : get_circular_path cyclic_nodes ≡ some (codes "a" ∷ codes "b" ∷ codes "a" ∷ [])
unfolding get_circular_path set str_eq str_lt back_to
circular_path_test = refl

-- A repeated dependency is not resolved.
repeated_test :
    resolve (
      record { name = codes "a"; dependencies = codes "b" ∷ codes "b" ∷ [] }
      ∷ record { name = codes "b"; dependencies = [] }
      ∷ [])
    ≡ some (record {
      success = false;
      order = [];
      error_message = codes "Failed to resolve all dependencies";
      circular_path = [];
    })
unfolding resolve contains str_eq set str_lt
repeated_test = refl

abbrev sensor_only : Manager
sensor_only = (add_process (codes "sensor") (some 7) [] new_manager).1

new_manager-IsPaired : IsPaired new_manager
unfolding count
new_manager-IsPaired n = (omega arith, refl)

sensor_only-IsPaired : IsPaired sensor_only
sensor_only-IsPaired =
    add_process-IsPaired (codes "sensor") (some 7) [] new_manager new_manager-IsPaired

abbrev map_and_sensor : Manager
map_and_sensor = (add_process (codes "map") (some 8) (codes "sensor" ∷ []) sensor_only).1

map_and_sensor-IsPaired : IsPaired map_and_sensor
map_and_sensor-IsPaired =
    add_process-IsPaired (codes "map") (some 8) (codes "sensor" ∷ []) sensor_only
      sensor_only-IsPaired

abbrev in_key_order : Iteration
in_key_order m = m

in_key_order-IsIteration : IsIteration in_key_order
in_key_order-IsIteration m n = (refl, refl)

-- Executing a process notes its number.
abbrev note : ℕ → List ℕ → Error × List ℕ
note process w = (no_error, process ∷ w)

abbrev map_result : ResolutionResult
map_result = record {
  success = true;
  order = codes "sensor" ∷ codes "map" ∷ [];
  error_message = [];
  circular_path = [];
}

resolve_map_and_sensor : resolve_dependencies in_key_order map_and_sensor ≡ some map_result
unfolding resolve_dependencies resolve add_process find set str_eq str_lt contains
resolve_map_and_sensor = refl

execute_all-in_turn_example :
    (r : ResolutionResult) × (resolve_dependencies in_key_order map_and_sensor ≡ some r)
    × ((r.success ≡ true) ↔ IsResolvable (node_configs map_and_sensor.dependencies))
    × (execute_all note in_key_order map_and_sensor []
        ≡ some (
            if r.success
            then in_turn note map_and_sensor r.order []
            else (error cyclic_dependency r.error_message, [])))
execute_all-in_turn_example =
    execute_all-in_turn note in_key_order map_and_sensor [] in_key_order-IsIteration
      map_and_sensor-IsPaired

execute_all_test : execute_all note in_key_order map_and_sensor [] ≡ some (no_error, 8 ∷ 7 ∷ [])
unfolding execute_all resolve_dependencies resolve add_process find set str_eq str_lt contains
    is_ready
execute_all_test = refl

in_turn_test :
    in_turn note map_and_sensor (codes "sensor" ∷ codes "map" ∷ []) [] ≡ (no_error, 8 ∷ 7 ∷ [])
unfolding in_turn add_process get_process find set str_eq str_lt
in_turn_test = refl

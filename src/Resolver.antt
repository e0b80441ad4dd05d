-- ===== src/Resolver.antt =====
-- include/launch_cpp/safety/dependency_resolver.hpp: the order in which processes start.
mod Hits
pub mod Build
mod Relax
mod Progress
pub mod Cycle
mod Dfs
pub mod Acyclic
pub mod Order
pub mod Complete
pub mod Ready
use launch_cpp.Prelude.{
  ℕ, zero, suc, ◌+◌, Bool, true, false, not, Option, none, some, List, [], ◌∷◌, ◌++◌, Str, codes,
  str_eq, contains, length, is_empty, ◌==◌, if◌then◌else◌, get_or, filter_by,
}
use launch_cpp.Prelude.Int.{ℤ, pos, increment, decrement, is_zero}
use launch_cpp.Prelude.Ordered.{Map, find, has, set, keys}
use mathlib.Core.List.{reverse}
use mathlib.Core.Option

pub record NodeConfig : Type 0 where
  pub name : Str
  pub dependencies : List Str

pub record ResolutionResult : Type 0 where
  pub success : Bool
  pub order : List Str
  pub error_message : Str
  pub circular_path : List Str

abbrev pub names : List NodeConfig → List Str
names [] = []
names (node ∷ nodes) = node.name ∷ names nodes

-- The `std::set` of all node names is used for lookups only.
unfoldable pub missing_among : List Str → List Str → List Str
missing_among all_node_names [] = []
missing_among all_node_names (dep ∷ deps) =
    if contains dep all_node_names
    then missing_among all_node_names deps
    else dep ∷ missing_among all_node_names deps

unfoldable pub missing_from : List Str → List NodeConfig → List Str
unfolding missing_among
missing_from all_node_names [] = []
missing_from all_node_names (node ∷ nodes) =
    missing_among all_node_names node.dependencies ++ missing_from all_node_names nodes

unfoldable pub get_missing_dependencies : List NodeConfig → List Str
unfolding missing_from
get_missing_dependencies nodes = missing_from (names nodes) nodes

unfoldable pub validate_dependencies : List NodeConfig → Bool
unfolding get_missing_dependencies
validate_dependencies nodes = is_empty (get_missing_dependencies nodes)

abbrev pub Graph : Type 0
Graph = Map (List Str)

build_node_map_from : Map NodeConfig → List NodeConfig → Map NodeConfig
build_node_map_from m [] = m
build_node_map_from m (node ∷ nodes) = build_node_map_from (set node.name node m) nodes

unfoldable pub build_node_map : List NodeConfig → Map NodeConfig
unfolding build_node_map_from
build_node_map nodes = build_node_map_from [] nodes

unfoldable pub all_started : List Str → List Str → Bool
all_started started_nodes [] = true
all_started started_nodes (dep ∷ deps) =
    if contains dep started_nodes then all_started started_nodes deps else false

unfoldable pub can_start_node : Str → List Str → Map NodeConfig → Bool
unfolding all_started
can_start_node node_name started_nodes all_nodes = elim (find node_name all_nodes) [
  | none ↦ false
  | some node ↦ all_started started_nodes node.dependencies
]

-- The sets are given by their elements, in the order of iteration.
unfoldable pub get_ready_nodes : List Str → List Str → Map NodeConfig → List Str
unfolding can_start_node
get_ready_nodes remaining_nodes started_nodes all_nodes =
    filter_by (λ n. can_start_node n started_nodes all_nodes) remaining_nodes

unfoldable pub adjacency_from : Graph → List NodeConfig → Graph
adjacency_from graph [] = graph
adjacency_from graph (node ∷ nodes) = adjacency_from (set node.name node.dependencies graph) nodes

unfoldable pub build_adjacency_list : List NodeConfig → Graph
unfolding adjacency_from
build_adjacency_list nodes = adjacency_from [] nodes

-- `in_degree[n]`, where a missing key reads as 0.
abbrev pub degree : Map ℤ → Str → ℤ
degree in_degree n = get_or (find n in_degree) (pos 0)

unfoldable pub zero_all : Map ℤ → List NodeConfig → Map ℤ
zero_all in_degree [] = in_degree
zero_all in_degree (node ∷ nodes) = zero_all (set node.name (pos 0) in_degree) nodes

-- One `in_degree[node.name]++` for each dependency.
unfoldable pub count_edges : Str → List Str → Map ℤ → Map ℤ
count_edges n [] in_degree = in_degree
count_edges n (dep ∷ deps) in_degree =
    count_edges n deps (set n (increment (degree in_degree n)) in_degree)

unfoldable pub count_all : Map ℤ → List NodeConfig → Map ℤ
unfolding count_edges
count_all in_degree [] = in_degree
count_all in_degree (node ∷ nodes) =
    count_all (count_edges node.name node.dependencies in_degree) nodes

unfoldable pub build_in_degree_map : List NodeConfig → Map ℤ
unfolding zero_all count_all
build_in_degree_map nodes = count_all (zero_all [] nodes) nodes

-- Depth-first search. Colours: 0 is white, 1 gray, 2 black. The last element of the source's
-- `path` is the head of `path` here.
pub record Search : Type 0 where
  pub color : Map ℕ
  pub path : List Str

pub data Outcome : Type 0 where
  cycle : List Str → Outcome
  clean : Search → Outcome
  out_of_fuel : Outcome

abbrev pub color_of : Search → Str → ℕ
color_of s n = get_or (find n s.color) 0

-- The path from its end back to `stop`, both included.
unfoldable pub back_to : Str → List Str → List Str
back_to stop [] = []
back_to stop (n ∷ path) = if str_eq n stop then n ∷ [] else n ∷ back_to stop path

abbrev pub enter : Str → Search → Search
enter node s = record { color = set node 1 s.color; path = node ∷ s.path }

abbrev pub pop_back : List Str → List Str
pop_back [] = []
pop_back (n ∷ path) = path

abbrev pub finish : Str → Outcome → Outcome
finish node (clean s) = clean (record { color = set node 2 s.color; path = pop_back s.path })
finish node (cycle c) = cycle c
finish node out_of_fuel = out_of_fuel

abbrev pub if_clean : Outcome → (Search → Outcome) → Outcome
if_clean (clean s) next = next s
if_clean (cycle c) next = cycle c
if_clean out_of_fuel next = out_of_fuel

-- The loop over the neighbours; `visit` is the recursive call of `dfs_visit`.
unfoldable pub visit_neighbors : (Str → Search → Outcome) → List Str → Search → Outcome
visit_neighbors visit [] s = clean s
visit_neighbors visit (neighbor ∷ rest) s = elim (color_of s neighbor == 1) [
  | true ↦ cycle (reverse (neighbor ∷ back_to neighbor s.path))
  | false ↦ elim (color_of s neighbor == 0) [
    | true ↦ if_clean (visit neighbor s) (visit_neighbors visit rest)
    | false ↦ visit_neighbors visit rest s
  ]
]

unfoldable pub dfs_visit : ℕ → Graph → Str → Search → Outcome
unfolding visit_neighbors
dfs_visit zero graph node s = out_of_fuel
dfs_visit (suc fuel) graph node s =
    finish node
      (visit_neighbors (dfs_visit fuel graph) (get_or (find node graph) []) (enter node s))

unfoldable pub whiten : Map ℕ → List Str → Map ℕ
whiten color [] = color
whiten color (n ∷ ns) = whiten (set n 0 color) ns

-- The loop over the graph's keys.
unfoldable pub search_from : ℕ → Graph → List Str → Search → Outcome
unfolding dfs_visit
search_from fuel graph [] s = clean s
search_from fuel graph (n ∷ ns) s = elim (color_of s n == 0) [
  | true ↦ if_clean (dfs_visit fuel graph n s) (search_from fuel graph ns)
  | false ↦ search_from fuel graph ns s
]

-- Every name that the graph mentions.
abbrev pub mentioned : Graph → List Str
mentioned [] = []
mentioned ((n, deps) ∷ graph) = (n ∷ deps) ++ mentioned graph

unfoldable pub start_search : Graph → Search
unfolding whiten
start_search graph = record { color = whiten [] (keys graph); path = [] }

abbrev pub cycle_of : Outcome → Option (List Str)
cycle_of (cycle c) = some c
cycle_of (clean s) = some []
cycle_of out_of_fuel = none

-- `none` would mean that the fuel ran out.
unfoldable pub detect_cycle_dfs : Graph → Option (List Str)
unfolding search_from start_search
detect_cycle_dfs graph =
    cycle_of (search_from (suc (length (mentioned graph))) graph (keys graph) (start_search graph))

unfoldable pub get_circular_path : List NodeConfig → Option (List Str)
unfolding build_adjacency_list detect_cycle_dfs
get_circular_path nodes = detect_cycle_dfs (build_adjacency_list nodes)

abbrev pub not_empty : Option (List Str) → Option Bool
not_empty none = none
not_empty (some path) = some (not (is_empty path))

unfoldable pub has_circular_dependency : List NodeConfig → Option Bool
unfolding get_circular_path
has_circular_dependency nodes = not_empty (get_circular_path nodes)

-- One pass of the `for` loop over the graph: a dependent of `current` loses one pending
-- dependency, and joins the queue when none is left.
unfoldable pub relax : Str → Graph → List Str → Map ℤ → List Str × Map ℤ
relax current [] queue in_degree = (queue, in_degree)
relax current ((n, deps) ∷ graph) queue in_degree =
    let lowered = set n (decrement (degree in_degree n)) in_degree in
    let queue' = if is_zero (degree lowered n) then queue ++ n ∷ [] else queue in
    relax current graph (if contains current deps then queue' else queue)
      (if contains current deps then lowered else in_degree)

-- The `while (!queue.empty())` loop.
unfoldable pub process : ℕ → Graph → List Str → Map ℤ → List Str → Option (List Str)
unfolding relax
process fuel graph [] in_degree order = some order
process zero graph (current ∷ queue) in_degree order = none
process (suc fuel) graph (current ∷ queue) in_degree order =
    let (queue', in_degree') = relax current graph queue in_degree in
    process fuel graph queue' in_degree' (order ++ current ∷ [])

unfoldable pub initial_queue : List NodeConfig → List Str
initial_queue [] = []
initial_queue (node ∷ nodes) =
    if is_empty node.dependencies then node.name ∷ initial_queue nodes else initial_queue nodes

unfoldable pub join : List Str → Str
join [] = []
join (n ∷ []) = n
join (n ∷ m ∷ ns) = n ++ codes ", " ++ join (m ∷ ns)

abbrev failure : Str → List Str → ResolutionResult
failure message circular_path = record {
  success = false;
  order = [];
  error_message = message;
  circular_path = circular_path;
}

abbrev complete : List NodeConfig → List Str → ResolutionResult
complete nodes order =
    if length order == length nodes
    then record { success = true; order = order; error_message = []; circular_path = [] }
    else failure (codes "Failed to resolve all dependencies") []

-- Step 3 to step 6. The fuel is twice the number of nodes.
unfoldable pub kahn : List NodeConfig → Option ResolutionResult
unfolding build_adjacency_list build_in_degree_map initial_queue process
kahn nodes = Option.map (complete nodes) (
    process (length nodes + length nodes) (build_adjacency_list nodes) (initial_queue nodes)
      (build_in_degree_map nodes) [])

abbrev after_search : List NodeConfig → Option (List Str) → Option ResolutionResult
after_search nodes none = none
after_search nodes (some []) = kahn nodes
after_search nodes (some (n ∷ path)) =
    some (failure (codes "Circular dependency detected") (n ∷ path))

abbrev after_validation : List NodeConfig → List Str → Option ResolutionResult
after_validation nodes [] = after_search nodes (get_circular_path nodes)
after_validation nodes (dep ∷ deps) =
    some (failure (codes "Missing dependencies: " ++ join (dep ∷ deps)) [])

-- `none` would mean that the fuel ran out.
unfoldable pub resolve : List NodeConfig → Option ResolutionResult
unfolding get_missing_dependencies get_circular_path kahn join
resolve nodes = after_validation nodes (get_missing_dependencies nodes)

-- ===== src/Resolver/Build.antt =====
-- What `build_adjacency_list` and `build_in_degree_map` hold, read off the node list.
use mathlib.Core.Logic.{◌⊎◌, inl}
use launch_cpp.Prelude.{
  ℕ, ◌+◌, ◌≤◌, ◌≡◌, refl, true, Option, none, some, List, [], ◌∷◌, Str, str_eq, str_eq_iff, count,
  length, if◌then◌else◌, arith, IsDistinct, get_or, is_some,
}
use launch_cpp.Prelude.Int.{ℤ, pos, increment}
use launch_cpp.Prelude.Ordered.{Map, find, set, keys, find-set, count-keys, count-keys-set}
use launch_cpp.Resolver.{
  NodeConfig, names, Graph, adjacency_from, build_adjacency_list, degree, zero_all, count_edges,
  count_all, build_in_degree_map,
}

abbrev pub or_else {ℓ} : {A : Type ℓ} → Option A → Option A → Option A
or_else none o = o
or_else (some a) o = some a

-- The dependencies that the last node of this name declares.
unfoldable pub declared : Str → List NodeConfig → Option (List Str)
declared n [] = none
declared n (node ∷ nodes) =
    or_else (declared n nodes) (if str_eq node.name n then some node.dependencies else none)

find-adjacency_from :
    (n : Str) (graph : Graph) (nodes : List NodeConfig)
    → find n (adjacency_from graph nodes) ≡ or_else (declared n nodes) (find n graph)
unfolding adjacency_from declared
find-adjacency_from n graph [] = refl
find-adjacency_from n graph (node ∷ nodes) = ground (
  arith,
  find-adjacency_from n (set node.name node.dependencies graph) nodes,
  find-set node.name n node.dependencies graph,
)

pub find-build_adjacency_list :
    (n : Str) (nodes : List NodeConfig) → find n (build_adjacency_list nodes) ≡ declared n nodes
unfolding build_adjacency_list find
find-build_adjacency_list n nodes = ground (arith, find-adjacency_from n [] nodes)

set-IsDistinct {ℓ} :
    {V : Type ℓ} (k : Str) (v : V) (m : Map V) → IsDistinct (keys m) → IsDistinct (keys (set k v m))
set-IsDistinct k v m h a =
    ground (arith, h a, count-keys-set k a v m, count-keys a m, str_eq_iff k a)

adjacency_from-IsDistinct :
    (graph : Graph) (nodes : List NodeConfig)
    → IsDistinct (keys graph)
    → IsDistinct (keys (adjacency_from graph nodes))
unfolding adjacency_from
adjacency_from-IsDistinct graph [] h = h
adjacency_from-IsDistinct graph (node ∷ nodes) h =
    adjacency_from-IsDistinct (set node.name node.dependencies graph) nodes
      (set-IsDistinct node.name node.dependencies graph h)

pub build_adjacency_list-IsDistinct :
    (nodes : List NodeConfig) → IsDistinct (keys (build_adjacency_list nodes))
unfolding build_adjacency_list count
build_adjacency_list-IsDistinct nodes = adjacency_from-IsDistinct [] nodes (λ a. omega arith)

-- The dependencies that nodes of this name declare, counted with repetition.
pub in_edges : Str → List NodeConfig → ℕ
in_edges n [] = 0
in_edges n (node ∷ nodes) =
    (if str_eq node.name n then length node.dependencies else 0) + in_edges n nodes

degree-zero_all :
    (n : Str) (m : Map ℤ) (nodes : List NodeConfig)
    → degree m n ≡ pos 0
    → degree (zero_all m nodes) n ≡ pos 0
unfolding zero_all
degree-zero_all n m [] h = h
degree-zero_all n m (node ∷ nodes) h =
    degree-zero_all n (set node.name (pos 0) m) nodes
      (ground (arith, find-set node.name n (pos 0) m))

degree-count_edges :
    (k n : Str) (deps : List Str) (m : Map ℤ) (d : ℕ)
    → degree m n ≡ pos d
    → degree (count_edges k deps m) n ≡ pos (d + (if str_eq k n then length deps else 0))
unfolding count_edges
degree-count_edges k n [] m d h = ground arith
degree-count_edges k n (dep ∷ deps) m d h = ground (
  arith,
  degree-count_edges k n deps (set k (increment (degree m k)) m)
      (d + (if str_eq k n then 1 else 0)),
  find-set k n (increment (degree m k)) m,
  str_eq_iff k n,
)

degree-count_all :
    (n : Str) (nodes : List NodeConfig) (m : Map ℤ) (d : ℕ)
    → degree m n ≡ pos d
    → degree (count_all m nodes) n ≡ pos (d + in_edges n nodes)
unfolding count_all in_edges
degree-count_all n [] m d h = ground arith
degree-count_all n (node ∷ nodes) m d h = ground (
  arith,
  degree-count_edges node.name n node.dependencies m d,
  degree-count_all n nodes (count_edges node.name node.dependencies m)
      (d + (if str_eq node.name n then length node.dependencies else 0)),
)

pub degree-build_in_degree_map :
    (n : Str) (nodes : List NodeConfig)
    → degree (build_in_degree_map nodes) n ≡ pos (in_edges n nodes)
unfolding build_in_degree_map find
degree-build_in_degree_map n nodes =
    ground (arith, degree-count_all n nodes (zero_all [] nodes) 0, degree-zero_all n [] nodes)

pub declared-names :
    (n : Str) (nodes : List NodeConfig)
    → (count n (names nodes) ≡ 0) × (declared n nodes ≡ none) × (in_edges n nodes ≡ 0)
      ⊎ (1 ≤ count n (names nodes)) × (is_some (declared n nodes) ≡ true)
unfolding declared in_edges count
declared-names n [] = inl (refl, refl, refl)
declared-names n (node ∷ nodes) = ground (arith, declared-names n nodes)

pub in_edges-declared :
    (n : Str) (nodes : List NodeConfig)
    → count n (names nodes) ≤ 1
    → in_edges n nodes ≡ length (get_or (declared n nodes) [])
unfolding declared in_edges count
in_edges-declared n [] h = refl
in_edges-declared n (node ∷ nodes) h =
    ground (arith, in_edges-declared n nodes, declared-names n nodes)

-- ===== src/Resolver/Relax.antt =====
-- One pass over the graph, and the measure that the `while` loop of `resolve` lowers.
use launch_cpp.Prelude.{
  ℕ, zero, suc, ◌+◌, ◌≤◌, ◌≡◌, refl, Bool, true, ◌&&◌, List, [], ◌∷◌, ◌++◌, Str, str_eq_iff,
  contains, count, count-cons, count-append, length, length-append, if◌then◌else◌, arith,
  IsDistinct, get_or, is_some,
}
use launch_cpp.Prelude.Int.{ℤ, pos, increment, decrement, is_zero, is_positive}
use launch_cpp.Prelude.Ordered.{Map, find, set, keys, find-set, count-keys, total, total-set}
use launch_cpp.Resolver.{
  NodeConfig, Graph, degree, relax, process, build_adjacency_list, initial_queue, zero_all,
  count_edges, count_all, build_in_degree_map, kahn,
}

abbrev pub waits_for : Str → Graph → Str → Bool
waits_for current graph n = contains current (get_or (find n graph) [])

module _ (current : Str) where
  -- The degrees after one pass.
  pub degree-relax :
      (graph : Graph) (queue : List Str) (z : Map ℤ) (n : Str)
      → IsDistinct (keys graph)
      → degree (relax current graph queue z).1 n
        ≡ (if waits_for current graph n then decrement (degree z n) else degree z n)
  unfolding relax find contains
  degree-relax [] queue z n h = refl
  degree-relax ((k, deps) ∷ graph) queue z n h =
      let lowered = set k (decrement (degree z k)) z in
      let queue' = if is_zero (degree lowered k) then queue ++ k ∷ [] else queue in
      ground (
        arith,
        degree-relax graph (if contains current deps then queue' else queue)
            (if contains current deps then lowered else z) n
            (λ a. ground (arith, h a, count-cons a k (keys graph))),
        find-set k n (decrement (degree z k)) z,
        str_eq_iff k n,
        h k,
        count-cons k k (keys graph),
        count-keys k graph,
        str_eq_iff k k,
      )

  -- Who joins the queue.
  pub count-relax :
      (graph : Graph) (queue : List Str) (z : Map ℤ) (n : Str)
      → IsDistinct (keys graph)
      → count n (relax current graph queue z).0
        ≡ count n queue
          + (if waits_for current graph n && is_zero (decrement (degree z n)) then 1 else 0)
  unfolding relax find contains count
  count-relax [] queue z n h = omega arith
  count-relax ((k, deps) ∷ graph) queue z n h =
      let lowered = set k (decrement (degree z k)) z in
      let queue' = if is_zero (degree lowered k) then queue ++ k ∷ [] else queue in
      ground (
        arith,
        count-relax graph (if contains current deps then queue' else queue)
            (if contains current deps then lowered else z) n
            (λ a. ground (arith, h a, count-cons a k (keys graph))),
        find-set k n (decrement (degree z k)) z,
        find-set k k (decrement (degree z k)) z,
        count-append n queue (k ∷ []),
        str_eq_iff k n,
        h k,
        count-cons k k (keys graph),
        count-keys k graph,
        str_eq_iff k k,
      )

abbrev weight : ℤ → ℕ
weight z = if is_positive z then 1 else 0

pub positives : Map ℤ → ℕ
unfolding total
positives = total weight

positives-set :
    (k : Str) (v : ℤ) (m : Map ℤ)
    → positives (set k v m) + weight (degree m k) ≡ positives m + weight v
unfolding positives
positives-set k v m = ground (arith, total-set weight k v m)

-- A pass turns as many positive degrees to zero as it adds names to the queue.
relax_measure :
    (current : Str) (graph : Graph) (queue : List Str) (z : Map ℤ)
    → length (relax current graph queue z).0 + positives (relax current graph queue z).1
      ≡ length queue + positives z
unfolding relax
relax_measure current [] queue z = refl
relax_measure current ((k, deps) ∷ graph) queue z =
    let lowered = set k (decrement (degree z k)) z in
    let queue' = if is_zero (degree lowered k) then queue ++ k ∷ [] else queue in
    ground (
      arith,
      relax_measure current graph (if contains current deps then queue' else queue)
          (if contains current deps then lowered else z),
      find-set k k (decrement (degree z k)) z,
      str_eq_iff k k,
      positives-set k (decrement (degree z k)) z,
      length-append queue (k ∷ []),
    )

process_total :
    (fuel : ℕ) (graph : Graph) (queue : List Str) (z : Map ℤ) (order : List Str)
    → length queue + positives z ≤ fuel
    → is_some (process fuel graph queue z order) ≡ true
unfolding process
process_total fuel graph [] z order h = refl
process_total zero graph (c ∷ queue) z order h = absurd (omega arith)
process_total (suc fuel) graph (c ∷ queue) z order h =
    process_total fuel graph (relax c graph queue z).0 (relax c graph queue z).1 (order ++ c ∷ [])
      (omega (arith, relax_measure c graph queue z))

length-initial_queue : (nodes : List NodeConfig) → length (initial_queue nodes) ≤ length nodes
unfolding initial_queue
length-initial_queue [] = omega arith
length-initial_queue (node ∷ nodes) = ground (arith, length-initial_queue nodes)

-- A name that is set counts once at most.
positives-count_edges :
    (k : Str) (deps : List Str) (m : Map ℤ)
    → positives (count_edges k deps m) + weight (degree m k) ≤ positives m + 1
unfolding count_edges
positives-count_edges k [] m = ground arith
positives-count_edges k (dep ∷ deps) m = ground (
  arith,
  positives-count_edges k deps (set k (increment (degree m k)) m),
  positives-set k (increment (degree m k)) m,
  find-set k k (increment (degree m k)) m,
  str_eq_iff k k,
)

positives-zero_all :
    (m : Map ℤ) (nodes : List NodeConfig) → positives (zero_all m nodes) ≤ positives m
unfolding zero_all
positives-zero_all m [] = omega arith
positives-zero_all m (node ∷ nodes) =
    omega
      (arith, positives-zero_all (set node.name (pos 0) m) nodes, positives-set node.name (pos 0) m)

positives-count_all :
    (m : Map ℤ) (nodes : List NodeConfig)
    → positives (count_all m nodes) ≤ positives m + length nodes
unfolding count_all
positives-count_all m [] = omega arith
positives-count_all m (node ∷ nodes) = omega (
  arith,
  positives-count_all (count_edges node.name node.dependencies m) nodes,
  positives-count_edges node.name node.dependencies m,
)

positives-build_in_degree_map :
    (nodes : List NodeConfig) → positives (build_in_degree_map nodes) ≤ length nodes
unfolding build_in_degree_map positives total
positives-build_in_degree_map nodes =
    omega (arith, positives-count_all (zero_all [] nodes) nodes, positives-zero_all [] nodes)

-- The loop of `resolve` ends within its fuel, whatever the nodes are.
pub kahn_total : (nodes : List NodeConfig) → is_some (kahn nodes) ≡ true
unfolding kahn
kahn_total nodes =
    let ends =
      process_total (length nodes + length nodes) (build_adjacency_list nodes) (initial_queue nodes)
        (build_in_degree_map nodes) []
        (omega (arith, positives-build_in_degree_map nodes, length-initial_queue nodes)) in
    ground (arith, ends)

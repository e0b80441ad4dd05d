-- ===== src/Resolver/Order.antt =====
-- The order that `resolve` returns: every node once, and each behind its dependencies.
use mathlib.Core.Logic.{◌⊎◌}
use launch_cpp.Prelude.{
  ◌++◌, ◌+◌, ◌≤◌, ◌≡◌, refl, Bool, true, false, some, List, [], ◌∷◌, Str, str_eq, str_eq_iff,
  contains, contains_iff, count, count-cons, count-nil, length, if◌then◌else◌, arith, IsDistinct,
  get_or, all,
}
use launch_cpp.Prelude.Int.{ℤ}
use launch_cpp.Prelude.Ordered.{Map, find}
use launch_cpp.Prelude.Counts.{count-eq_of_length}
use launch_cpp.Resolver.{
  NodeConfig, ResolutionResult, names, Graph, build_adjacency_list, build_in_degree_map,
  initial_queue, process, kahn, resolve,
}
use launch_cpp.Resolver.Hits.{hits, IsDistinct-of_hits}
use launch_cpp.Resolver.Build.{
  declared, find-build_adjacency_list, build_adjacency_list-IsDistinct, degree-build_in_degree_map,
  declared-names, in_edges-declared,
}
use launch_cpp.Resolver.Progress.{released, StartsAfter, Inv, process-Inv}

pub length-names : (nodes : List NodeConfig) → length (names nodes) ≡ length nodes
length-names [] = refl
length-names (node ∷ nodes) = omega (arith, length-names nodes)

count-initial_queue :
    (n : Str) (nodes : List NodeConfig)
    → count n (names nodes) ≤ 1
    → count n (initial_queue nodes) ≡ released (declared n nodes) []
unfolding initial_queue declared hits count
count-initial_queue n [] h = refl
count-initial_queue n (node ∷ nodes) h =
    ground (arith, count-initial_queue n nodes, declared-names n nodes)

-- `d` stands in the list before the first `n`.
unfoldable pub before : Str → Str → List Str → Bool
before d n [] = false
before d n (x ∷ order) =
    if str_eq x n then false else if str_eq x d then contains n order else before d n order

-- `d` before the first `n`, and `n` not in the first part: then `d` is in the first part.
pub before-contains :
    (d n : Str) (done rest : List Str)
    → contains n done ≡ false
    → before d n (done ++ n ∷ rest) ≡ true
    → contains d done ≡ true
unfolding before contains
before-contains d n [] rest h b = ground (arith, str_eq_iff n n)
before-contains d n (x ∷ done) rest h b = ground (arith, before-contains d n done rest)

StartsAfter-before :
    (graph : Graph) (seen order : List Str) (d n : Str)
    → StartsAfter graph seen order
    → contains n order ≡ true
    → contains d (get_or (find n graph) []) ≡ true
    → (contains d seen ≡ true) ⊎ (before d n order ≡ true)
unfolding before contains
StartsAfter-before graph seen [] d n s m h = cc
StartsAfter-before graph seen (x ∷ order) d n s m h = ground (
  arith,
  s.0 d,
  StartsAfter-before graph (x ∷ seen) order d n s.1,
  str_eq_iff x n,
  str_eq_iff x d,
  contains_iff n order,
)

-- A property of every node.
abbrev pub Every : (NodeConfig → Type 0) → List NodeConfig → Type 0
Every P [] = Unit {0}
Every P (node ∷ nodes) = P node × Every P nodes

pub Every-map :
    (P Q : NodeConfig → Type 0) (nodes : List NodeConfig)
    → ((node : NodeConfig) → P node → Q node)
    → Every P nodes
    → Every Q nodes
Every-map P Q [] f h = tt
Every-map P Q (node ∷ nodes) f h = (f node h.0, Every-map P Q nodes f h.1)

-- With distinct names, the graph holds what each node declares.
declared_self :
    (nodes : List NodeConfig)
    → IsDistinct (names nodes)
    → Every (λ node. declared node.name nodes ≡ some node.dependencies) nodes
unfolding declared
declared_self [] h = tt
declared_self (node ∷ nodes) h = (
  ground (
    arith,
    declared-names node.name nodes,
    h node.name,
    count-cons node.name node.name (names nodes),
    str_eq_iff node.name node.name,
  ),
  Every-map (λ m. (declared m.name nodes ≡ some m.dependencies)) _ nodes (λ m e. ground (arith, e))
      (declared_self nodes (λ a. ground (arith, h a, count-cons a node.name (names nodes)))),
)

module _ (nodes : List NodeConfig) (distinct : IsDistinct (names nodes)) where
  pub start-Inv :
      Inv (build_adjacency_list nodes) (initial_queue nodes) (build_in_degree_map nodes) []
  unfolding hits
  start-Inv = record {
    remaining = λ n deps e. ground (
      arith,
      find-build_adjacency_list n nodes,
      degree-build_in_degree_map n nodes,
      in_edges-declared n nodes,
      distinct n,
    );
    placed = λ n. ground (
      arith,
      find-build_adjacency_list n nodes,
      count-initial_queue n nodes,
      distinct n,
      count-nil n,
    );
    ordered = tt;
  }

  -- A successful run is a run of the loop to the end.
  kahn_ran :
      (r : ResolutionResult)
      → kahn nodes ≡ some r
      → r.success ≡ true
      → (process
            (length nodes + length nodes)
            (build_adjacency_list nodes)
            (initial_queue nodes)
            (build_in_degree_map nodes)
            []
          ≡ some r.order)
        × (length r.order ≡ length nodes)
  unfolding kahn
  kahn_ran r e s = ground arith

  kahn-Inv :
      (r : ResolutionResult)
      → kahn nodes ≡ some r
      → r.success ≡ true
      → (z : Map ℤ) × Inv (build_adjacency_list nodes) [] z r.order
  kahn-Inv r e s =
      process-Inv (length nodes + length nodes) (build_adjacency_list nodes) (initial_queue nodes)
        (build_in_degree_map nodes) [] r.order (build_adjacency_list-IsDistinct nodes) start-Inv
        (kahn_ran r e s).0

  module _ (r : ResolutionResult) (e : resolve nodes ≡ some r) (s : r.success ≡ true) where
    resolve_ran : kahn nodes ≡ some r
    unfolding resolve
    resolve_ran = ground arith

    resolve-Inv : (z : Map ℤ) × Inv (build_adjacency_list nodes) [] z r.order
    resolve-Inv = kahn-Inv r resolve_ran s

    released_in_order : (n : Str) → count n r.order ≡ released (declared n nodes) r.order
    released_in_order n =
        ground (arith, resolve-Inv.1.placed n, count-nil n, find-build_adjacency_list n nodes)

    resolve-count : (n : Str) → count n r.order ≡ count n (names nodes)
    resolve-count =
        count-eq_of_length r.order (names nodes)
          (λ n. ground (arith, released_in_order n, declared-names n nodes))
          (omega (arith, (kahn_ran r resolve_ran s).1, length-names nodes))

    node_started :
        (node : NodeConfig)
        → declared node.name nodes ≡ some node.dependencies
        → 1 ≤ count node.name r.order
    node_started node h = ground (arith, resolve-count node.name, declared-names node.name nodes)

    started_released :
        (node : NodeConfig)
        → declared node.name nodes ≡ some node.dependencies
        → IsDistinct r.order × (length node.dependencies ≤ hits node.dependencies r.order)
    started_released node h = (
      λ a. ground (arith, resolve-count a, distinct a),
      ground (arith, released_in_order node.name, node_started node h),
    )

    pub deps_before :
        (node : NodeConfig)
        → declared node.name nodes ≡ some node.dependencies
        → (d : Str) → contains d node.dependencies ≡ true
        → before d node.name r.order ≡ true
    unfolding contains
    deps_before node h d m = ground (
      arith,
      StartsAfter-before (build_adjacency_list nodes) [] r.order d node.name resolve-Inv.1.ordered,
      find-build_adjacency_list node.name nodes,
      node_started node h,
      contains_iff node.name r.order,
    )

pub resolve_orders :
    (nodes : List NodeConfig) (r : ResolutionResult)
    → IsDistinct (names nodes)
    → resolve nodes ≡ some r
    → r.success ≡ true
    → ((n : Str) → count n r.order ≡ count n (names nodes))
      × Every
          (λ node.
            (d : Str) → contains d node.dependencies ≡ true → before d node.name r.order ≡ true)
          nodes
resolve_orders nodes r distinct e s = (
  resolve-count nodes distinct r e s,
  Every-map _ _ nodes (deps_before nodes distinct r e s) (declared_self nodes distinct),
)

-- Each node stands behind its dependencies.
unfoldable pub respects : List Str → List NodeConfig → Bool
respects order [] = true
respects order (node ∷ nodes) =
    if all (λ d. before d node.name order) node.dependencies then respects order nodes else false

all-before :
    (n : Str) (order deps : List Str)
    → ((d : Str) → contains d deps ≡ true → before d n order ≡ true)
    → all (λ d. before d n order) deps ≡ true
unfolding contains
all-before n order [] h = refl
all-before n order (d ∷ deps) h =
    ground (arith, h d, str_eq_iff d d, all-before n order deps (λ a c. h a (ground arith)))

Every-respects :
    (order : List Str) (nodes : List NodeConfig)
    → Every
        (λ node. (d : Str) → contains d node.dependencies ≡ true → before d node.name order ≡ true)
        nodes
    → respects order nodes ≡ true
unfolding respects
Every-respects order [] h = refl
Every-respects order (node ∷ nodes) h =
    ground (arith, all-before node.name order node.dependencies h.0, Every-respects order nodes h.1)

-- If the names are distinct and `resolve` succeeds, then its order holds the name of every node
-- exactly once and no other name, and each node's dependencies all stand before it.
pub resolve_sound :
    (nodes : List NodeConfig) (r : ResolutionResult)
    → IsDistinct (names nodes)
    → resolve nodes ≡ some r
    → r.success ≡ true
    → ((n : Str) → count n r.order ≡ count n (names nodes)) × (respects r.order nodes ≡ true)
resolve_sound nodes r distinct e s =
    let orders = resolve_orders nodes r distinct e s in
    (orders.0, Every-respects r.order nodes orders.1)

-- If the names are distinct and `resolve` succeeds, then no node names a dependency twice: a
-- repeated name raises the in-degree twice and is counted down once.
pub resolve-IsDistinct :
    (nodes : List NodeConfig) (r : ResolutionResult)
    → IsDistinct (names nodes)
    → resolve nodes ≡ some r
    → r.success ≡ true
    → Every (λ node. IsDistinct node.dependencies) nodes
resolve-IsDistinct nodes r distinct e s =
    Every-map _ _ nodes
      (λ node h.
        let (once, full) = started_released nodes distinct r e s node h in
        IsDistinct-of_hits node.dependencies r.order once full)
      (declared_self nodes distinct)

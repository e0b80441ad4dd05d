-- ===== src/Resolver/Ready.antt =====
-- can_start_node and get_ready_nodes against the order that `resolve` returns.
use mathlib.Core.Path.{subst}
use launch_cpp.Prelude.{
  ◌≡◌, refl, Bool, true, false, Option, none, some, List, [], ◌∷◌, ◌++◌, Str, str_eq_iff, contains,
  contains_iff, count, count-append, count-cons, arith, IsDistinct, Option-cases, inl, inr, all,
}
use launch_cpp.Prelude.Ordered.{Map, find, set, find-set}
use launch_cpp.Resolver.{
  NodeConfig, ResolutionResult, names, resolve, build_node_map, build_node_map_from, all_started,
  can_start_node,
}
use launch_cpp.Resolver.Build.{declared, declared-names, or_else}
use launch_cpp.Resolver.Order.{before, before-contains, deps_before, resolve_orders}

abbrev deps_of : Option NodeConfig → Option (List Str)
deps_of none = none
deps_of (some node) = some node.dependencies

deps_of-build_node_map_from :
    (n : Str) (m : Map NodeConfig) (nodes : List NodeConfig)
    → deps_of (find n (build_node_map_from m nodes))
      ≡ or_else (declared n nodes) (deps_of (find n m))
unfolding build_node_map_from declared
deps_of-build_node_map_from n m [] = refl
deps_of-build_node_map_from n m (node ∷ nodes) =
    ground (
      arith,
      deps_of-build_node_map_from n (set node.name node m) nodes,
      find-set node.name n node m,
    )

deps_of-build_node_map :
    (n : Str) (nodes : List NodeConfig) → deps_of (find n (build_node_map nodes)) ≡ declared n nodes
unfolding build_node_map find
deps_of-build_node_map n nodes = ground (arith, deps_of-build_node_map_from n [] nodes)

all_started_of :
    (started deps : List Str)
    → ((d : Str) → contains d deps ≡ true → contains d started ≡ true)
    → all_started started deps ≡ true
unfolding all_started contains
all_started_of started [] h = refl
all_started_of started (d ∷ deps) h =
    ground (arith, h d, str_eq_iff d d, all_started_of started deps (λ a c. h a (ground arith)))

module _ (nodes : List NodeConfig) (r : ResolutionResult) (distinct : IsDistinct (names nodes))
    (e : resolve nodes ≡ some r) (s : r.success ≡ true) (xs ys : List Str) (n : Str)
    (split : r.order ≡ xs ++ n ∷ ys) where
  counts : count n (xs ++ n ∷ ys) ≡ count n (names nodes)
  counts =
      subst (λ order. count n order ≡ count n (names nodes)) split
        ((resolve_orders nodes r distinct e s).0 n)

  not_started : contains n xs ≡ false
  not_started = ground (
    arith,
    counts,
    distinct n,
    count-append n xs (n ∷ ys),
    count-cons n n ys,
    str_eq_iff n n,
    contains_iff n xs,
  )

  deps_started :
      (deps : List Str)
      → declared n nodes ≡ some deps
      → (d : Str) → contains d deps ≡ true
      → contains d xs ≡ true
  deps_started deps h d c = before-contains d n xs ys not_started (
      subst (λ order. before d n order ≡ true) split
        (deps_before nodes distinct r e s (record { name = n; dependencies = deps }) h d c))

  -- When `resolve` succeeds for nodes of distinct names and its order is xs, then n, then ys, the
  -- node n can start once the nodes of xs have started.
  pub can_start_node-resolve : can_start_node n xs (build_node_map nodes) ≡ true
  unfolding can_start_node
  can_start_node-resolve = elim (Option-cases (find n (build_node_map nodes))) [
    | inl missing ↦ ground (
      arith,
      deps_of-build_node_map n nodes,
      declared-names n nodes,
      counts,
      count-append n xs (n ∷ ys),
      count-cons n n ys,
      str_eq_iff n n,
    )
    | inr (node, found) ↦
        rw (can_start_node, found)
          (all_started_of xs node.dependencies
            (deps_started node.dependencies (ground (arith, deps_of-build_node_map n nodes))))
  ]

-- Whether a node with these dependencies may start: it is declared, and all of them have started.
abbrev pub may_start : Option (List Str) → List Str → Bool
may_start none started = false
may_start (some deps) started = all (λ d. contains d started) deps

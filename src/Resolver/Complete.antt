-- ===== src/Resolver/Complete.antt =====
-- `resolve` succeeds exactly on the inputs that have an order.
use mathlib.Core.Path.{subst}
use mathlib.Core.Logic.{inl, inr}
use launch_cpp.Prelude.{
  ◌+◌, ◌≤◌, ◌≡◌, ◌↔◌, refl, true, Option, none, some, List, [], ◌∷◌, ◌++◌, Str, str_eq_iff,
  contains, contains_iff, count, count-nil, arith, length, is_some, IsDistinct, Option-cases,
}
use launch_cpp.Prelude.Int.{ℤ}
use launch_cpp.Prelude.Ordered.{Map}
use launch_cpp.Prelude.Counts.{length-le_of_count}
use launch_cpp.Resolver.{
  NodeConfig, ResolutionResult, names, Graph, missing_among, missing_from, get_missing_dependencies,
  build_adjacency_list, build_in_degree_map, initial_queue, process, kahn, resolve,
  get_circular_path, complete, after_search, after_validation,
}
use launch_cpp.Resolver.Hits.{hits_of_contains}
use launch_cpp.Resolver.Build.{
  declared, declared-names, find-build_adjacency_list, build_adjacency_list-IsDistinct,
}
use launch_cpp.Resolver.Relax.{kahn_total}
use launch_cpp.Resolver.Progress.{Inv, released, process-Inv}
use launch_cpp.Resolver.Cycle.{Grounded, ground_at}
use launch_cpp.Resolver.Acyclic.{IsAcyclic, Finds, Finds-get_circular_path, not-IsCycle_of_acyclic}
use launch_cpp.Resolver.Order.{Every, start-Inv, length-names, resolve-IsDistinct}

missing_among-nil :
    (all : List Str) (deps : List Str)
    → missing_among all deps ≡ []
    → (d : Str) → contains d deps ≡ true
    → contains d all ≡ true
unfolding missing_among contains
missing_among-nil all [] e d m = cc
missing_among-nil all (x ∷ deps) e d m =
    ground (
      arith,
      missing_among-nil all deps,
      missing_among-nil all deps (ground arith) d,
      str_eq_iff x d,
    )

append-eq_nil {ℓ} : {A : Type ℓ} (xs ys : List A) → xs ++ ys ≡ [] → (xs ≡ []) × (ys ≡ [])
append-eq_nil [] ys e = (refl, e)
append-eq_nil (x ∷ xs) ys e = cc

abbrev Known : List Str → NodeConfig → Type 0
Known all node = (d : Str) → contains d node.dependencies ≡ true → contains d all ≡ true

missing_from-nil :
    (all : List Str) (nodes : List NodeConfig)
    → missing_from all nodes ≡ []
    → Every (Known all) nodes
unfolding missing_from
missing_from-nil all [] e = tt
missing_from-nil all (node ∷ nodes) e =
    let (mine, others) =
      append-eq_nil (missing_among all node.dependencies) (missing_from all nodes) e in
    (missing_among-nil all node.dependencies mine, missing_from-nil all nodes others)

-- What holds of every node's dependencies holds of those that the graph has for a name.
declared-Every :
    (P : List Str → Type 0) (nodes : List NodeConfig) (n : Str) (deps : List Str)
    → Every (λ node. P node.dependencies) nodes
    → declared n nodes ≡ some deps
    → P deps
unfolding declared
declared-Every P [] n deps h e = cc
declared-Every P (node ∷ nodes) n deps h e = elim (Option-cases (declared n nodes)) [
  | inr (later, l) ↦ declared-Every P nodes n deps h.1 (ground arith)
  | inl l ↦ let same : node.dependencies ≡ deps = ground arith in subst P same h.0
]

module _ (nodes : List NodeConfig) (z : Map ℤ) (order : List Str)
    (distinct : IsDistinct (names nodes)) (inv : Inv (build_adjacency_list nodes) [] z order)
    (known : Every (Known (names nodes)) nodes)
    (no_repeat : Every (λ node. IsDistinct node.dependencies) nodes) where
  placed : (n : Str) → count n order ≡ released (declared n nodes) order
  placed n = ground (arith, inv.placed n, count-nil n, find-build_adjacency_list n nodes)

  -- Every node whose dependencies are free of cycles has started when the queue is empty.
  started :
      (n : Str)
      → Grounded (build_adjacency_list nodes) n
      → 1 ≤ count n (names nodes)
      → 1 ≤ count n order
  started n (ground_at below) m = elim (Option-cases (declared n nodes)) [
    | inl e ↦ ground (arith, declared-names n nodes)
    | inr (deps, e) ↦ ground (
      arith,
      placed n,
      hits_of_contains deps order (declared-Every (λ ds. IsDistinct ds) nodes n deps no_repeat e)
          (λ d h. started d (below d (ground (arith, find-build_adjacency_list n nodes))) (
            (contains_iff d (names nodes)).0 (
              declared-Every
                (λ ds. (d : Str) → contains d ds ≡ true → contains d (names nodes) ≡ true) nodes n
                deps known e d h))),
    )
  ]

  all_started : IsAcyclic (build_adjacency_list nodes) → length order ≡ length nodes
  all_started acyclic = omega (
    arith,
    length-names nodes,
    length-le_of_count (names nodes) order (λ n. ground (arith, distinct n, started n (acyclic n))),
    length-le_of_count order (names nodes) (λ n. ground (arith, placed n, declared-names n nodes)),
  )

missing_among_known :
    (all deps : List Str)
    → ((d : Str) → contains d deps ≡ true → contains d all ≡ true)
    → missing_among all deps ≡ []
unfolding missing_among contains
missing_among_known all [] h = refl
missing_among_known all (x ∷ deps) h =
    ground (arith, h x, missing_among_known all deps (λ d m. h d (ground arith)), str_eq_iff x x)

missing_from-Known :
    (all : List Str) (nodes : List NodeConfig)
    → Every (Known all) nodes
    → missing_from all nodes ≡ []
unfolding missing_from
missing_from-Known all [] h = refl
missing_from-Known all (node ∷ nodes) h =
    rw (missing_among_known all node.dependencies h.0, missing_from-Known all nodes h.1)

-- What an input needs to have a start order that `resolve` finds.
pub record IsResolvable (nodes : List NodeConfig) : Type 0 where
  pub known : Every (Known (names nodes)) nodes
  pub acyclic : IsAcyclic (build_adjacency_list nodes)
  pub no_repeat : Every (λ node. IsDistinct node.dependencies) nodes

module _ (nodes : List NodeConfig) (distinct : IsDistinct (names nodes)) where
  kahn_succeeds :
      IsResolvable nodes → (r : ResolutionResult) × (kahn nodes ≡ some r) × (r.success ≡ true)
  unfolding kahn
  kahn_succeeds h =
      elim (Option-cases (
        process (length nodes + length nodes) (build_adjacency_list nodes) (initial_queue nodes)
          (build_in_degree_map nodes) [])) [
            | inl stuck ↦ ground (arith, kahn_total nodes)
            | inr (order, ends) ↦
                let (z, inv) =
                  process-Inv (length nodes + length nodes) (build_adjacency_list nodes)
                    (initial_queue nodes) (build_in_degree_map nodes) [] order
                    (build_adjacency_list-IsDistinct nodes) (start-Inv nodes distinct) ends in
                (
                  complete nodes order,
                  ground arith,
                  ground
                      (arith, all_started nodes z order distinct inv h.known h.no_repeat h.acyclic),
                )
          ]

Finds-acyclic :
    (graph : Graph) (found : Option (List Str))
    → IsAcyclic graph
    → Finds graph found
    → found ≡ some []
Finds-acyclic graph none a f = absurd f
Finds-acyclic graph (some []) a f = refl
Finds-acyclic graph (some (n ∷ path)) a f = absurd (not-IsCycle_of_acyclic graph (n ∷ path) a f)

Finds-nil :
    (graph : Graph) (found : Option (List Str))
    → found ≡ some []
    → Finds graph found
    → IsAcyclic graph
Finds-nil graph none e f = absurd f
Finds-nil graph (some []) e f = f
Finds-nil graph (some (n ∷ path)) e f = cc

resolve_reaches_kahn : (nodes : List NodeConfig) → IsResolvable nodes → resolve nodes ≡ kahn nodes
unfolding resolve
resolve_reaches_kahn nodes h = rw (
  missing_from-Known (names nodes) nodes h.known,
  Finds-acyclic (build_adjacency_list nodes) (get_circular_path nodes) h.acyclic
      (Finds-get_circular_path nodes),
)

-- A success means that the checks before the loop passed.
resolve_checked :
    (nodes : List NodeConfig) (r : ResolutionResult)
    → resolve nodes ≡ some r
    → r.success ≡ true
    → (get_missing_dependencies nodes ≡ []) × (get_circular_path nodes ≡ some [])
unfolding resolve
resolve_checked nodes r e s = ground arith

after_search_total :
    (nodes : List NodeConfig) (found : Option (List Str))
    → Finds (build_adjacency_list nodes) found
    → is_some (after_search nodes found) ≡ true
after_search_total nodes none f = absurd f
after_search_total nodes (some []) f = kahn_total nodes
after_search_total nodes (some (n ∷ path)) f = refl

after_validation_total :
    (nodes : List NodeConfig) (missing : List Str)
    → is_some (after_search nodes (get_circular_path nodes)) ≡ true
    → is_some (after_validation nodes missing) ≡ true
after_validation_total nodes [] h = h
after_validation_total nodes (d ∷ ds) h = refl

Known-of_missing :
    (nodes : List NodeConfig)
    → get_missing_dependencies nodes ≡ []
    → Every (Known (names nodes)) nodes
unfolding get_missing_dependencies
Known-of_missing nodes e = missing_from-nil (names nodes) nodes e

-- `resolve` returns on every input.
pub resolve_total : (nodes : List NodeConfig) → is_some (resolve nodes) ≡ true
unfolding resolve
resolve_total nodes =
    after_validation_total nodes (get_missing_dependencies nodes)
      (after_search_total nodes (get_circular_path nodes) (Finds-get_circular_path nodes))

-- If the names are distinct, then `resolve` returns, and it succeeds exactly when every
-- dependency names a node, no dependency cycle exists, and no node names a dependency twice.
pub resolve_iff :
    (nodes : List NodeConfig)
    → IsDistinct (names nodes)
    → (r : ResolutionResult) × (resolve nodes ≡ some r) × ((r.success ≡ true) ↔ IsResolvable nodes)
resolve_iff nodes distinct = elim (Option-cases (resolve nodes)) [
  | inl stuck ↦ ground (arith, resolve_total nodes)
  | inr (r, e) ↦ (r, e, (λ s. forward r e s, λ h. backward r e h))
]
  where
    forward :
        (r : ResolutionResult) → resolve nodes ≡ some r → r.success ≡ true → IsResolvable nodes
    forward r e s = record {
      known = Known-of_missing nodes (resolve_checked nodes r e s).0;
      acyclic =
          Finds-nil (build_adjacency_list nodes) (get_circular_path nodes)
            (resolve_checked nodes r e s).1 (Finds-get_circular_path nodes);
      no_repeat = resolve-IsDistinct nodes r distinct e s;
    }

    backward :
        (r : ResolutionResult) → resolve nodes ≡ some r → IsResolvable nodes → r.success ≡ true
    backward r e h =
        let (r', ran, s) = kahn_succeeds nodes distinct h in
        ground (arith, resolve_reaches_kahn nodes h)

-- ===== src/Dependencies/Order.antt =====
-- src/dependency_manager.cpp: the resolved order can be executed as it stands.
use mathlib.Core.Path.{subst}
use launch_cpp.Prelude.{
  if◌then◌else◌, ◌∙◌, contains-append, ℕ, ◌≤◌, ◌≡◌, refl, true, false, some, List, [], ◌∷◌, ◌++◌,
  Str, str_eq_iff, contains, contains_iff, count, count-cons, count-append, arith, Option-cases,
  inl, inr, IsDistinct, append_assoc, sym, is_some, ◌↔◌, Bool-cases,
}
use launch_cpp.Prelude.Ordered.{find, keys, count-keys}
use launch_cpp.Errors.{Error, error, cyclic_dependency}
use launch_cpp.Resolver.Complete.{IsResolvable, resolve_iff}
use launch_cpp.Resolver.{ResolutionResult, names}
use launch_cpp.Resolver.Order.{before-contains, before, Every, resolve_orders}
use launch_cpp.Dependencies.{
  Manager, node_configs, Iteration, IsIteration, resolve_dependencies, is_ready, execute_all,
  execute_resolved,
}
use launch_cpp.Dependencies.Execution.{
  IsPaired, names-node_configs, Every-find, all_completed_of, Startable, in_turn,
  execute_order-in_turn,
}

module _ (m : Manager) (whole : List Str) (once : IsDistinct whole)
    (there : (n : Str)
      → contains n whole ≡ true
      → (is_some (find n m.processes) ≡ true) × (is_some (find n m.dependencies) ≡ true))
    (behind : (n : Str) (deps : List Str)
      → find n m.dependencies ≡ some deps
      → (d : Str) → contains d deps ≡ true
      → before d n whole ≡ true) where
  in_whole : (n : Str) (done order : List Str) → done ++ n ∷ order ≡ whole → contains n whole ≡ true
  unfolding contains
  in_whole n done order e =
      subst (λ xs. contains n xs ≡ true) e
        (ground (arith, contains-append n done (n ∷ order), str_eq_iff n n))

  not_done : (n : Str) (done order : List Str) → done ++ n ∷ order ≡ whole → contains n done ≡ false
  not_done n done order e =
      let le : count n (done ++ n ∷ order) ≤ 1 = subst (λ xs. count n xs ≤ 1) (sym e) (once n) in
      ground (
        arith,
        count-append n done (n ∷ order),
        count-cons n n order,
        str_eq_iff n n,
        contains_iff n done,
      )

  is_ready_of :
      (n : Str) (done completed order : List Str)
      → done ++ n ∷ order ≡ whole
      → ((a : Str) → contains a done ≡ true → contains a completed ≡ true)
      → is_ready m n completed ≡ true
  unfolding is_ready
  is_ready_of n done completed order e h = elim (Option-cases (find n m.dependencies)) [
    | inl missing ↦ ground (arith, there n (in_whole n done order e))
    | inr (deps, found) ↦
        rw (is_ready, found)
          (all_completed_of completed deps (λ d c. h d (
            before-contains d n done order (not_done n done order e)
              (subst (λ xs. before d n xs ≡ true) (sym e) (behind n deps found d c)))))
  ]

  done_more :
      (n : Str) (done completed : List Str)
      → ((a : Str) → contains a done ≡ true → contains a completed ≡ true)
      → (a : Str) → contains a (done ++ n ∷ []) ≡ true
      → contains a (n ∷ completed) ≡ true
  unfolding contains
  done_more n done completed h a c = ground (arith, contains-append a done (n ∷ []), h a)

  Startable-of :
      (order done completed : List Str)
      → done ++ order ≡ whole
      → ((a : Str) → contains a done ≡ true → contains a completed ≡ true)
      → Startable m completed order
  Startable-of [] done completed e h = tt
  Startable-of (n ∷ order) done completed e h = (
    (there n (in_whole n done order e)).0,
    is_ready_of n done completed order e h,
    Startable-of order (done ++ n ∷ []) (n ∷ completed) (append_assoc done (n ∷ []) order ∙ e)
        (done_more n done completed h),
  )

count-names :
    (iterate : Iteration)
    → IsIteration iterate
    → (m : Manager) → IsPaired m
    → (n : Str)
    → count n (names (node_configs (iterate m.dependencies))) ≡ count n (keys m.processes)
count-names iterate visits m paired n =
    ground (arith, names-node_configs (iterate m.dependencies), visits m.dependencies n, paired n)

module _ (iterate : Iteration) (visits : IsIteration iterate) (m : Manager) (paired : IsPaired m)
    (r : ResolutionResult) (e : resolve_dependencies iterate m ≡ some r)
    (s : r.success ≡ true) where
  resolved :
      ((n : Str) → count n r.order ≡ count n (names (node_configs (iterate m.dependencies))))
      × Every
          (λ node.
            (d : Str) → contains d node.dependencies ≡ true → before d node.name r.order ≡ true)
          (node_configs (iterate m.dependencies))
  unfolding resolve_dependencies
  resolved =
      resolve_orders (node_configs (iterate m.dependencies)) r
        (λ n. ground (arith, count-names iterate visits m paired n, paired n)) e s

  Startable-resolved : Startable m [] r.order
  Startable-resolved =
      Startable-of m r.order
        (λ n. ground (arith, resolved.0 n, count-names iterate visits m paired n, paired n))
        (λ n c. (
          ground (
            arith,
            contains_iff n r.order,
            resolved.0 n,
            count-names iterate visits m paired n,
            paired n,
            count-keys n m.processes,
          ),
          ground (
            arith,
            contains_iff n r.order,
            resolved.0 n,
            count-names iterate visits m paired n,
            paired n,
            count-keys n m.dependencies,
          ),
        ))
        (λ n deps found d c.
          Every-find
            (λ node.
              (d : Str) → contains d node.dependencies ≡ true → before d node.name r.order ≡ true)
            n deps (iterate m.dependencies) resolved.1 ((visits m.dependencies n).1 ∙ found) d c)
        r.order [] [] refl (λ a c. c)

execute_all-resolved :
    {World : Type 0} (execute : ℕ → World → Error × World) (iterate : Iteration) (m : Manager)
    (r : ResolutionResult) (w : World)
    → IsIteration iterate
    → IsPaired m
    → resolve_dependencies iterate m ≡ some r
    → execute_all execute iterate m w
      ≡ some (
          if r.success
          then in_turn execute m r.order w
          else (error cyclic_dependency r.error_message, w))
unfolding execute_all execute_resolved
execute_all-resolved execute iterate m r w visits paired e = elim (Bool-cases r.success) [
  | inl s ↦
      rw
        (
          execute_all,
          e,
          execute_resolved,
          s,
          execute_order-in_turn execute m [] r.order w
              (Startable-resolved iterate visits m paired r e s),
        )
        refl
  | inr s ↦ rw (execute_all, e, execute_resolved, s) refl
]

-- When both maps of the manager have the same keys, each once, and iterating the map visits each
-- entry once, `execute_all` returns. The resolution succeeds exactly when every dependency names a
-- process, none depends on itself through others, and none is listed twice by one process. Then the
-- processes are executed in the resolved order up to the first error, and that error or success is
-- returned: no process is missing or not ready in its turn. Where the resolution fails, nothing is
-- executed and the error of a cyclic dependency with the message of the resolver is returned.
pub execute_all-in_turn :
    {World : Type 0} (execute : ℕ → World → Error × World) (iterate : Iteration) (m : Manager)
    (w : World)
    → IsIteration iterate
    → IsPaired m
    → (r : ResolutionResult) × (resolve_dependencies iterate m ≡ some r)
      × ((r.success ≡ true) ↔ IsResolvable (node_configs (iterate m.dependencies)))
      × (execute_all execute iterate m w
          ≡ some (
              if r.success
              then in_turn execute m r.order w
              else (error cyclic_dependency r.error_message, w)))
unfolding resolve_dependencies
execute_all-in_turn execute iterate m w visits paired =
    let (r, e, h) =
      resolve_iff (node_configs (iterate m.dependencies))
        (λ n. ground (arith, count-names iterate visits m paired n, paired n)) in
    (r, e, h, execute_all-resolved execute iterate m r w visits paired e)

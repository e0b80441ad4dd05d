-- ===== src/Dependencies/Execution.antt =====
-- src/dependency_manager.cpp: execute_all starts every process behind its dependencies, so its own
-- checks never fail.
use mathlib.Core.Path.{subst}
use launch_cpp.Prelude.{
  ℕ, ◌≤◌, ◌≡◌, refl, true, Option, none, some, List, [], ◌∷◌, Str, str_eq, str_eq_iff, contains,
  count, if◌then◌else◌, arith, Option-cases, Bool-cases, inl, inr, is_some,
}
use launch_cpp.Prelude.Ordered.{Map, find, keys, count-keys, count-keys-set}
use launch_cpp.Errors.{Error, no_error, is_error}
use launch_cpp.Resolver.{NodeConfig, names}
use launch_cpp.Resolver.Order.{Every}
use launch_cpp.Dependencies.{
  Manager, add_process, node_configs, all_completed, is_ready, get_process, execute_order,
}

-- Both maps have the same keys, each once.
abbrev pub IsPaired : Manager → Type 0
IsPaired m =
    (n : Str)
    → (count n (keys m.processes) ≤ 1)
      × (count n (keys m.dependencies) ≡ count n (keys m.processes))

-- `add_process` keeps the two maps of the manager in step, whatever it is given.
pub add_process-IsPaired :
    (name : Str) (action : Option ℕ) (deps : List Str) (m : Manager)
    → IsPaired m
    → IsPaired (add_process name action deps m).1
unfolding add_process
add_process-IsPaired name none deps m h n = ground (arith, h n)
add_process-IsPaired name (some action) deps m h n = ground (
  arith,
  h n,
  h name,
  count-keys-set name n action m.processes,
  count-keys-set name n deps m.dependencies,
  count-keys name m.processes,
  count-keys name m.dependencies,
  str_eq_iff name n,
)

pub names-node_configs : (m : Map (List Str)) → names (node_configs m) ≡ keys m
unfolding node_configs
names-node_configs [] = refl
names-node_configs ((k, deps) ∷ m) = rw (names-node_configs m) refl

pub Every-find :
    (P : NodeConfig → Type 0) (n : Str) (deps : List Str) (m : Map (List Str))
    → Every P (node_configs m)
    → find n m ≡ some deps
    → P (record { name = n; dependencies = deps })
unfolding node_configs find
Every-find P n deps [] h e = ground arith
Every-find P n deps ((k, ds) ∷ m) h e = elim (Bool-cases (str_eq k n)) [
  | inl here ↦
      subst (λ k. P (record { name = k; dependencies = deps })) ((str_eq_iff k n).0 here)
        (subst (λ ds. P (record { name = k; dependencies = ds })) (find-here here) h.0)
  | inr there ↦ Every-find P n deps m h.1 (ground arith)
]
  where
    find-here : str_eq k n ≡ true → ds ≡ deps
    find-here here = ground arith

pub all_completed_of :
    (completed deps : List Str)
    → ((d : Str) → contains d deps ≡ true → contains d completed ≡ true)
    → all_completed completed deps ≡ true
unfolding all_completed contains
all_completed_of completed [] h = refl
all_completed_of completed (dep ∷ deps) h =
    ground (
      arith,
      h dep,
      str_eq_iff dep dep,
      all_completed_of completed deps (λ d c. h d (ground arith)),
    )

-- The order can be executed after `completed`: each process is there, and ready in its turn.
abbrev pub Startable : Manager → List Str → List Str → Type 0
Startable m completed [] = Unit {0}
Startable m completed (n ∷ order) =
    (is_some (find n m.processes) ≡ true)
    × (is_ready m n completed ≡ true)
    × Startable m (n ∷ completed) order

-- The processes of the order one after another, up to the first error.
unfoldable pub in_turn :
    {World : Type 0} → (ℕ → World → Error × World) → Manager → List Str → World → Error × World
in_turn execute m [] w = (no_error, w)
in_turn execute m (n ∷ order) w = elim (get_process m n) [
  | none ↦ in_turn execute m order w
  | some process ↦
      let rest = in_turn execute m order (execute process w).1 in
      if is_error (execute process w).0 then execute process w else rest
]

pub execute_order-in_turn :
    {World : Type 0} (execute : ℕ → World → Error × World) (m : Manager)
    (completed order : List Str) (w : World)
    → Startable m completed order
    → execute_order execute m completed order w ≡ in_turn execute m order w
unfolding execute_order in_turn get_process
execute_order-in_turn execute m completed [] w h = refl
execute_order-in_turn execute m completed (n ∷ order) w h =
    elim (Option-cases (find n m.processes)) [
      | inl missing ↦ ground (arith, h.0)
      | inr (p, found) ↦
          rw
            (
              execute_order,
              in_turn,
              get_process,
              found,
              h.1,
              execute_order-in_turn execute m (n ∷ completed) order (execute p w).1 h.2,
            )
            refl
    ]

-- ===== src/Resolver/Progress.antt =====
-- The invariant of the `while` loop of `resolve`, for nodes with distinct names.
use mathlib.Core.Logic.{◌⊎◌, inl, inr}
use mathlib.Core.Path.{subst}
use launch_cpp.Prelude.{
  ℕ, zero, suc, ◌+◌, ◌-◌, ◌≡◌, true, Option, none, some, List, [], ◌∷◌, ◌++◌, Str, str_eq_iff,
  contains, count, count-cons, count-singleton, count-append, length, leb, if◌then◌else◌, arith,
  IsDistinct, get_or, Option-cases,
}
use launch_cpp.Prelude.Int.{ℤ, pos}
use launch_cpp.Prelude.Ordered.{Map, find, keys}
use launch_cpp.Resolver.{Graph, degree, relax, process}
use launch_cpp.Resolver.Hits.{hits, hits-snoc, hits-le-length, contains_of_hits}
use launch_cpp.Resolver.Relax.{degree-relax, count-relax}

-- 1 if all the dependencies of `n` have been counted down, 0 if not or if there is no such node.
abbrev pub released : Option (List Str) → List Str → ℕ
released none order = 0
released (some deps) order = if leb (length deps) (hits deps order) then 1 else 0

-- A name stands in `seen`, or before it, for every name of `order`.
abbrev pub StartsAfter : Graph → List Str → List Str → Type 0
StartsAfter graph seen [] = Unit {0}
StartsAfter graph seen (n ∷ order) =
    ((d : Str) → contains d (get_or (find n graph) []) ≡ true → contains d seen ≡ true)
    × StartsAfter graph (n ∷ seen) order

StartsAfter-snoc :
    (graph : Graph) (seen order : List Str) (c : Str)
    → StartsAfter graph seen order
    → ((d : Str)
        → contains d (get_or (find c graph) []) ≡ true
        → (contains d seen ≡ true) ⊎ (contains d order ≡ true))
    → StartsAfter graph seen (order ++ c ∷ [])
unfolding contains
StartsAfter-snoc graph seen [] c s h = (λ d m. ground (arith, h d m), tt)
StartsAfter-snoc graph seen (n ∷ order) c s h =
    (s.0, StartsAfter-snoc graph (n ∷ seen) order c s.1 (λ d m. ground (arith, h d m)))

pub record Inv (graph : Graph) (queue : List Str) (z : Map ℤ) (order : List Str) : Type 0 where
  pub remaining :
      (n : Str) (deps : List Str)
      → find n graph ≡ some deps
      → degree z n ≡ pos (length deps - hits deps order)
  pub placed : (n : Str) → count n order + count n queue ≡ released (find n graph) order
  pub ordered : StartsAfter graph [] order

module _ (graph : Graph) (c : Str) (queue : List Str) (z : Map ℤ) (order : List Str)
    (one_entry : IsDistinct (keys graph)) (inv : Inv graph (c ∷ queue) z order) where
  after : List Str
  after = order ++ c ∷ []

  after-IsDistinct : IsDistinct after
  unfolding after
  after-IsDistinct a = ground (
    arith,
    inv.placed a,
    count-append a order (c ∷ []),
    count-singleton a c,
    count-cons a c queue,
  )

  order-IsDistinct : IsDistinct order
  order-IsDistinct a = ground (arith, inv.placed a)

  next_remaining :
      (n : Str) (deps : List Str)
      → find n graph ≡ some deps
      → degree (relax c graph queue z).1 n ≡ pos (length deps - hits deps after)
  unfolding after
  next_remaining n deps e = ground (
    arith,
    inv.remaining n deps e,
    degree-relax c graph queue z n one_entry,
    hits-snoc deps order c,
    hits-le-length deps after after-IsDistinct,
    hits-le-length deps order order-IsDistinct,
  )

  next_placed :
      (n : Str) → count n after + count n (relax c graph queue z).0 ≡ released (find n graph) after
  unfolding after contains
  next_placed n = elim (Option-cases (find n graph)) [
    | inl e ↦ ground (
      arith,
      e,
      inv.placed n,
      count-relax c graph queue z n one_entry,
      count-append n order (c ∷ []),
      count-singleton n c,
      count-cons n c queue,
    )
    | inr (deps, e) ↦ ground (
      arith,
      e,
      inv.placed n,
      inv.remaining n deps e,
      count-relax c graph queue z n one_entry,
      count-append n order (c ∷ []),
      count-singleton n c,
      count-cons n c queue,
      hits-snoc deps order c,
      hits-le-length deps after after-IsDistinct,
      hits-le-length deps order order-IsDistinct,
    )
  ]

  deps_started :
      (d : Str)
      → contains d (get_or (find c graph) []) ≡ true
      → (contains d [] ≡ true) ⊎ (contains d order ≡ true)
  unfolding contains
  deps_started d m = elim (Option-cases (find c graph)) [
    | inl e ↦ ground (arith, e)
    | inr (deps, e) ↦ inr (
        contains_of_hits deps order order-IsDistinct
          (ground (arith, e, inv.placed c, count-cons c c queue, str_eq_iff c c)) d
          (ground (arith, e)))
  ]

  next-Inv : Inv graph (relax c graph queue z).0 (relax c graph queue z).1 (order ++ c ∷ [])
  unfolding after
  next-Inv = record {
    remaining = next_remaining;
    placed = next_placed;
    ordered = StartsAfter-snoc graph [] order c inv.ordered deps_started;
  }

-- When the loop ends, the queue is empty and the invariant holds of the result.
pub process-Inv :
    (fuel : ℕ) (graph : Graph) (queue : List Str) (z : Map ℤ) (order result : List Str)
    → IsDistinct (keys graph)
    → Inv graph queue z order
    → process fuel graph queue z order ≡ some result
    → (z' : Map ℤ) × Inv graph [] z' result
unfolding process
process-Inv fuel graph [] z order result one inv e =
    let same : order ≡ result = cc in (z, subst (Inv graph [] z) same inv)
process-Inv zero graph (c ∷ queue) z order result one inv e = cc
process-Inv (suc fuel) graph (c ∷ queue) z order result one inv e =
    process-Inv fuel graph (relax c graph queue z).0 (relax c graph queue z).1 (order ++ c ∷ [])
      result one (next-Inv graph c queue z order one inv) e

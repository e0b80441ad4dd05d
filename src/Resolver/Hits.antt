-- ===== src/Resolver/Hits.antt =====
-- How many of the started processes a dependency list waits for: what `in_degree` counts down.
use launch_cpp.Prelude.{
  ℕ, ◌+◌, ◌≤◌, ◌≡◌, refl, true, false, List, [], ◌∷◌, ◌++◌, Str, str_eq_iff, contains, contains_iff,
  count, count-cons, length, if◌then◌else◌, arith, IsDistinct,
}

unfoldable pub hits : List Str → List Str → ℕ
hits deps [] = 0
hits deps (x ∷ order) = (if contains x deps then 1 else 0) + hits deps order

pub hits-snoc :
    (deps order : List Str) (c : Str)
    → hits deps (order ++ c ∷ []) ≡ hits deps order + (if contains c deps then 1 else 0)
unfolding hits
hits-snoc deps [] c = omega arith
hits-snoc deps (x ∷ order) c = omega (arith, hits-snoc deps order c)

hits-nil : (order : List Str) → hits [] order ≡ 0
unfolding hits contains
hits-nil [] = refl
hits-nil (x ∷ order) = ground (arith, hits-nil order)

hits-cons_le :
    (d : Str) (deps order : List Str) → hits (d ∷ deps) order ≤ count d order + hits deps order
unfolding hits contains count
hits-cons_le d deps [] = omega arith
hits-cons_le d deps (x ∷ order) =
    ground (arith, hits-cons_le d deps order, str_eq_iff x d, str_eq_iff d x)

hits-cons_repeated :
    (d : Str) (deps order : List Str)
    → contains d deps ≡ true
    → hits (d ∷ deps) order ≡ hits deps order
unfolding hits contains
hits-cons_repeated d deps [] h = refl
hits-cons_repeated d deps (x ∷ order) h =
    ground (arith, hits-cons_repeated d deps order h, str_eq_iff d x)

hits-cons_fresh :
    (d : Str) (deps order : List Str)
    → contains d deps ≡ false
    → hits (d ∷ deps) order ≡ count d order + hits deps order
unfolding hits contains count
hits-cons_fresh d deps [] h = refl
hits-cons_fresh d deps (x ∷ order) h =
    ground (arith, hits-cons_fresh d deps order h, str_eq_iff d x, str_eq_iff x d)

-- Nobody waits for more processes than it names.
pub hits-le-length : (deps order : List Str) → IsDistinct order → hits deps order ≤ length deps
hits-le-length [] order h = omega (arith, hits-nil order)
hits-le-length (d ∷ deps) order h =
    omega (arith, hits-cons_le d deps order, h d, hits-le-length deps order h)

-- When the count is full, every dependency has started.
pub contains_of_hits :
    (deps order : List Str)
    → IsDistinct order
    → length deps ≤ hits deps order
    → (d : Str) → contains d deps ≡ true
    → contains d order ≡ true
unfolding contains
contains_of_hits [] order h full d m = ground arith
contains_of_hits (x ∷ deps) order h full d m = ground (
  arith,
  hits-cons_le x deps order,
  h x,
  hits-le-length deps order h,
  contains_of_hits deps order h,
  contains_of_hits deps order h (ground (arith, hits-cons_le x deps order, h x)) d,
  contains_iff x order,
  str_eq_iff x d,
)

-- It is never full for a list that repeats a name.
pub IsDistinct-of_hits :
    (deps order : List Str) → IsDistinct order → length deps ≤ hits deps order → IsDistinct deps
unfolding count
IsDistinct-of_hits [] order h full a = omega arith
IsDistinct-of_hits (x ∷ deps) order h full a = ground (
  arith,
  hits-cons_le x deps order,
  hits-cons_repeated x deps order,
  h x,
  hits-le-length deps order h,
  IsDistinct-of_hits deps order h (ground (arith, hits-cons_le x deps order, h x)) a,
  contains_iff x deps,
  str_eq_iff x a,
)

-- It is full for a list without repetition whose names have all started.
pub hits_of_contains :
    (deps order : List Str)
    → IsDistinct deps
    → ((d : Str) → contains d deps ≡ true → 1 ≤ count d order)
    → length deps ≤ hits deps order
unfolding hits contains
hits_of_contains [] order h all = omega arith
hits_of_contains (x ∷ deps) order h all = omega (
  arith,
  hits-cons_fresh x deps order (fresh),
  all x (ground (arith, str_eq_iff x x)),
  hits_of_contains deps order (λ a. rest a) (λ d m. all d (ground arith)),
)
  where
    fresh : contains x deps ≡ false
    fresh = ground (arith, h x, contains_iff x deps, count-cons x x deps, str_eq_iff x x)

    rest : IsDistinct deps
    rest a = ground (arith, h a, count-cons a x deps)

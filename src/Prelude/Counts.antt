-- ===== src/Prelude/Counts.antt =====
-- Lists of names compared by how often each name stands in them.
use Prim.Native.Nat.{suc, ◌+◌, ◌≤◌}
use mathlib.Core.Path.{◌≡◌, refl}
use mathlib.Core.List.{List, [], ◌∷◌}
use native.Mathlib.Omega.{arith}
use launch_cpp.Prelude.Tests.{if◌then◌else◌}
use launch_cpp.Prelude.Lists.{length}
use launch_cpp.Prelude.Text.{Str, str_eq, str_eq_iff, count, str_eq_refl}

-- Takes away the first occurrence.
remove : Str → List Str → List Str
remove a [] = []
remove a (x ∷ xs) = if str_eq x a then xs else x ∷ remove a xs

count-remove :
    (a n : Str) (xs : List Str)
    → 1 ≤ count a xs
    → count n xs ≡ (if str_eq a n then 1 else 0) + count n (remove a xs)
unfolding count remove
count-remove a n [] h = ground arith
count-remove a n (x ∷ xs) h =
    ground (arith, count-remove a n xs, str_eq_iff x a, str_eq_iff a n, str_eq_iff x n)

length-remove : (a : Str) (xs : List Str) → 1 ≤ count a xs → length xs ≡ suc (length (remove a xs))
unfolding count remove
length-remove a [] h = ground arith
length-remove a (x ∷ xs) h = ground (arith, length-remove a xs)

count-head : (x : Str) (xs : List Str) → 1 ≤ count x (x ∷ xs)
unfolding count
count-head x xs = ground (arith, str_eq_refl x)

module _ (x : Str) (xs ys : List Str) (h : (a : Str) → count a (x ∷ xs) ≤ count a ys) where
  head_in : 1 ≤ count x ys
  head_in = omega (arith, h x, count-head x xs)

  tail_le : (a : Str) → count a xs ≤ count a (remove x ys)
  unfolding count
  tail_le a = omega (arith, h a, count-remove x a ys head_in)

-- A list that lies within another is no longer than it.
pub length-le_of_count :
    (xs ys : List Str) → ((a : Str) → count a xs ≤ count a ys) → length xs ≤ length ys
length-le_of_count [] ys h = omega arith
length-le_of_count (x ∷ xs) ys h = omega (
  arith,
  length-le_of_count xs (remove x ys) (tail_le x xs ys h),
  length-remove x ys (head_in x xs ys h),
)

-- If it is as long, both hold the same names, each as often.
pub count-eq_of_length :
    (xs ys : List Str)
    → ((a : Str) → count a xs ≤ count a ys)
    → length xs ≡ length ys
    → (a : Str) → count a xs ≡ count a ys
unfolding count
count-eq_of_length [] [] h e a = refl
count-eq_of_length [] (y ∷ ys) h e a = omega arith
count-eq_of_length (x ∷ xs) ys h e a = omega (
  arith,
  count-eq_of_length xs (remove x ys) (tail_le x xs ys h)
      (omega (arith, length-remove x ys (head_in x xs ys h))) a,
  count-remove x a ys (head_in x xs ys h),
)

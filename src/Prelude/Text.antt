-- ===== src/Prelude/Text.antt =====
-- `std::string` as the list of its bytes, with the comparisons that `std::string` and the
-- containers keyed by it use.
use Prim.Native.Nat.{ℕ, ◌+◌, ◌≤◌}
use Prim.Native.Char.{code}
use Prim.Native.String.{String}
use mathlib.Core.Path.{◌≡◌, refl}
use mathlib.Core.Logic.{◌↔◌}
use mathlib.Core.Bool.{Bool, true, false, ◌&&◌, ◌||◌}
use mathlib.Core.List.{List, [], ◌∷◌, ◌++◌}
use native.Mathlib.Omega.{arith}
use launch_cpp.Prelude.Tests.{ltb, ◌==◌, if◌then◌else◌}

abbrev pub Str : Type 0
Str = List ℕ

-- The bytes of a literal of the source.
abbrev pub codes : String → Str
codes String.[] = []
codes (String.◌∷◌ c s) = code c ∷ codes s

unfoldable pub str_eq : Str → Str → Bool
str_eq [] [] = true
str_eq [] (y ∷ ys) = false
str_eq (x ∷ xs) [] = false
str_eq (x ∷ xs) (y ∷ ys) = x == y && str_eq xs ys

-- Lexicographic, by bytes.
unfoldable pub str_lt : Str → Str → Bool
str_lt [] [] = false
str_lt [] (y ∷ ys) = true
str_lt (x ∷ xs) [] = false
str_lt (x ∷ xs) (y ∷ ys) = ltb x y || (x == y && str_lt xs ys)

pub str_eq_refl : (s : Str) → str_eq s s ≡ true
unfolding str_eq
str_eq_refl [] = refl
str_eq_refl (x ∷ xs) = ground (arith, str_eq_refl xs)

str_eq→eq : (s t : Str) → str_eq s t ≡ true → s ≡ t
unfolding str_eq
str_eq→eq [] [] h = refl
str_eq→eq [] (y ∷ ys) h = cc
str_eq→eq (x ∷ xs) [] h = cc
str_eq→eq (x ∷ xs) (y ∷ ys) h = ground (arith, str_eq→eq xs ys)

pub str_eq_iff : (s t : Str) → (str_eq s t ≡ true) ↔ (s ≡ t)
str_eq_iff s t = (str_eq→eq s t, λ e. rw e (str_eq_refl t))

-- `std::find(xs.begin(), xs.end(), a) != xs.end()`, and the same of a `std::set`.
unfoldable pub contains : Str → List Str → Bool
contains a [] = false
contains a (x ∷ xs) = str_eq x a || contains a xs

unfoldable pub count : Str → List Str → ℕ
count a [] = 0
count a (x ∷ xs) = (if str_eq x a then 1 else 0) + count a xs

pub count-append : (a : Str) (xs ys : List Str) → count a (xs ++ ys) ≡ count a xs + count a ys
unfolding count
count-append a [] ys = omega arith
count-append a (x ∷ xs) ys = omega (arith, count-append a xs ys)

pub count-cons :
    (a x : Str) (xs : List Str) → count a (x ∷ xs) ≡ (if str_eq x a then 1 else 0) + count a xs
unfolding count
count-cons a x xs = refl

pub count-singleton : (a x : Str) → count a (x ∷ []) ≡ (if str_eq x a then 1 else 0)
unfolding count
count-singleton a x = omega arith

pub count-nil : (a : Str) → count a [] ≡ 0
unfolding count
count-nil a = refl

pub contains_iff : (a : Str) (xs : List Str) → (contains a xs ≡ true) ↔ (1 ≤ count a xs)
unfolding contains count
contains_iff a [] = (λ h. ground arith, λ h. ground arith)
contains_iff a (x ∷ xs) =
    (λ h. ground (arith, contains_iff a xs), λ h. ground (arith, contains_iff a xs))

pub contains-append :
    (a : Str) (xs ys : List Str) → contains a (xs ++ ys) ≡ (contains a xs || contains a ys)
unfolding contains
contains-append a [] ys = refl
contains-append a (x ∷ xs) ys = ground (arith, contains-append a xs ys)

-- No name stands twice.
abbrev pub IsDistinct : List Str → Type 0
IsDistinct xs = (a : Str) → count a xs ≤ 1

unfoldable pub is_distinct : List Str → Bool
is_distinct [] = true
is_distinct (x ∷ xs) = if contains x xs then false else is_distinct xs

count_of_distinct : (xs : List Str) → is_distinct xs ≡ true → (a : Str) → count a xs ≤ 1
unfolding is_distinct count
count_of_distinct [] h a = omega arith
count_of_distinct (x ∷ xs) h a =
    ground (arith, count_of_distinct xs (ground arith) a, contains_iff x xs, str_eq_iff x a)

pub is_distinct-IsDistinct : (xs : List Str) → is_distinct xs ≡ true → IsDistinct xs
is_distinct-IsDistinct xs h = count_of_distinct xs h

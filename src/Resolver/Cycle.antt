-- ===== src/Resolver/Cycle.antt =====
-- What a cycle of the dependency graph is, and that the path which `dfs_visit` reports is one.
use mathlib.Core.Logic.{inl, inr}
use mathlib.Core.Option.{some-injective}
use mathlib.Core.List.{reverse, reverse-cons}
use launch_cpp.Prelude.{
  ◌≤◌, ◌≡◌, refl, Bool, true, Option, none, some, List, [], ◌∷◌, ◌++◌, Str, str_eq, str_eq_iff,
  contains, arith, get_or, Bool-cases, length, length-append, ap, ◌∙◌,
}
use launch_cpp.Prelude.Ordered.{find}
use launch_cpp.Resolver.{Graph, back_to}

-- `a` depends on `b`.
abbrev pub edge : Graph → Str → Str → Bool
edge graph a b = contains b (get_or (find a graph) [])

-- Each name depends on the next one.
abbrev pub Chain : Graph → List Str → Type 0
Chain graph [] = Unit {0}
Chain graph (a ∷ []) = Unit {0}
Chain graph (a ∷ b ∷ rest) = (edge graph a b ≡ true) × Chain graph (b ∷ rest)

-- Each name is a dependency of the next one, as on the search's stack.
abbrev pub Linked : Graph → List Str → Type 0
Linked graph [] = Unit {0}
Linked graph (a ∷ []) = Unit {0}
Linked graph (a ∷ b ∷ rest) = (edge graph b a ≡ true) × Linked graph (b ∷ rest)

abbrev pub first : List Str → Option Str
first [] = none
first (x ∷ xs) = some x

abbrev pub last : List Str → Option Str
last [] = none
last (x ∷ []) = some x
last (x ∷ y ∷ rest) = last (y ∷ rest)

-- A walk along dependencies that comes back to the name it starts from.
pub record IsCycle (graph : Graph) (path : List Str) : Type 0 where
  pub origin : Str
  pub leaves : first path ≡ some origin
  pub returns : last path ≡ some origin
  pub chain : Chain graph path
  pub long : 2 ≤ length path

pub last-snoc : (xs : List Str) (x : Str) → last (xs ++ x ∷ []) ≡ some x
last-snoc [] x = refl
last-snoc (y ∷ []) x = refl
last-snoc (y ∷ z ∷ rest) x = last-snoc (z ∷ rest) x

pub Chain-snoc :
    (graph : Graph) (xs : List Str) (a b : Str)
    → Chain graph xs
    → last xs ≡ some a
    → edge graph a b ≡ true
    → Chain graph (xs ++ b ∷ [])
Chain-snoc graph [] a b c e h = tt
Chain-snoc graph (x ∷ []) a b c e h = (rw (some-injective x a e) h, tt)
Chain-snoc graph (x ∷ y ∷ rest) a b c e h = (c.0, Chain-snoc graph (y ∷ rest) a b c.1 e h)

last-reverse : (x : Str) (xs : List Str) → last (reverse (x ∷ xs)) ≡ some x
last-reverse x xs = rw (reverse-cons x xs) (last-snoc (reverse xs) x)

Chain-reverse : (graph : Graph) (xs : List Str) → Linked graph xs → Chain graph (reverse xs)
Chain-reverse graph [] h = tt
Chain-reverse graph (x ∷ []) h = tt
Chain-reverse graph (x ∷ y ∷ rest) h = rw (reverse-cons x (y ∷ rest)) (
    Chain-snoc graph (reverse (y ∷ rest)) y x (Chain-reverse graph (y ∷ rest) h.1)
      (last-reverse y rest) h.0)

-- The stack, cut behind `stop`, still hangs together and ends at `stop`.
Linked-back_to :
    (graph : Graph) (n stop : Str) (path : List Str)
    → Linked graph (n ∷ path)
    → contains stop path ≡ true
    → Linked graph (n ∷ back_to stop path) × (last (n ∷ back_to stop path) ≡ some stop)
unfolding back_to contains
Linked-back_to graph n stop [] h m = cc
Linked-back_to graph n stop (x ∷ path) h m = elim (Bool-cases (str_eq x stop)) [
  | inl e ↦ rw e ((h.0, tt), ground (arith, str_eq_iff x stop))
  | inr e ↦
      let (l, ends) = Linked-back_to graph x stop path h.1 (ground arith) in rw e ((h.0, l), ends)
]

first-snoc : (xs : List Str) (y x : Str) → first ((xs ++ y ∷ []) ++ x ∷ []) ≡ first (xs ++ y ∷ [])
first-snoc [] y x = refl
first-snoc (z ∷ xs) y x = refl

first-reverse : (xs : List Str) → first (reverse xs) ≡ last xs
first-reverse [] = refl
first-reverse (x ∷ []) = refl
first-reverse (x ∷ y ∷ rest) =
    rw (reverse-cons x (y ∷ rest), reverse-cons y rest)
      (first-snoc (reverse rest) y x ∙ (rw (← reverse-cons y rest) (first-reverse (y ∷ rest))))

length-reverse : (xs : List Str) → length (reverse xs) ≡ length xs
length-reverse [] = refl
length-reverse (x ∷ xs) =
    omega
      (arith, ap length (reverse-cons x xs), length-append (reverse xs) (x ∷ []), length-reverse xs)

length-back_to : (n : Str) (path : List Str) → contains n path ≡ true → 1 ≤ length (back_to n path)
unfolding back_to contains
length-back_to n [] m = cc
length-back_to n (x ∷ path) m = ground arith

-- A back edge closes a cycle.
pub back_to-IsCycle :
    (graph : Graph) (n : Str) (path : List Str)
    → Linked graph (n ∷ path)
    → contains n path ≡ true
    → IsCycle graph (reverse (n ∷ back_to n path))
back_to-IsCycle graph n path h m =
    let (linked, ends) = Linked-back_to graph n n path h m in
    record {
      origin = n;
      leaves = first-reverse (n ∷ back_to n path) ∙ ends;
      returns = last-reverse n (back_to n path);
      chain = Chain-reverse graph (n ∷ back_to n path) linked;
      long = omega (arith, length-reverse (n ∷ back_to n path), length-back_to n path m);
    }

-- Along a chain the walk stays inside: from a name whose dependencies are well-founded there is
-- no way back.
pub data Grounded (graph : Graph) : Str → Type 0 where
  ground_at : {n : Str} → ((d : Str) → edge graph n d ≡ true → Grounded graph d) → Grounded graph n

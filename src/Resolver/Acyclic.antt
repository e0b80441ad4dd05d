-- ===== src/Resolver/Acyclic.antt =====
-- `get_circular_path` finds a cycle exactly when there is one.
use mathlib.Core.Logic.{inl, inr}
use launch_cpp.Prelude.{
  ℕ, suc, ◌≤◌, ◌≡◌, ◌↔◌, refl, Bool, true, false, Option, none, some, List, [], ◌∷◌, ◌++◌, Str,
  str_eq_iff, contains, contains-append, arith, get_or, Bool-cases, length, length-append, ◌==◌,
  ◌∙◌,
}
use launch_cpp.Prelude.Ordered.{Map, find, set, keys, find-set}
use launch_cpp.Resolver.{
  NodeConfig, Graph, Search, Outcome, cycle, clean, out_of_fuel, color_of, if_clean, dfs_visit,
  search_from, mentioned, whiten, start_search, cycle_of, detect_cycle_dfs, get_circular_path,
  not_empty, has_circular_dependency, build_adjacency_list,
}
use launch_cpp.Resolver.Cycle.{
  edge, Chain, last, IsCycle, Grounded, ground_at, Chain-snoc, last-snoc,
}
use launch_cpp.Resolver.Dfs.{
  whites, State, Later, Good, Blackened, Closed, if_clean-Good, Good-weaken, Later-refl,
  dfs_visit-Good,
}

color-whiten :
    (n : Str) (m : Map ℕ) (ns : List Str)
    → get_or (find n m) 0 ≡ 0
    → get_or (find n (whiten m ns)) 0 ≡ 0
unfolding whiten
color-whiten n m [] h = h
color-whiten n m (k ∷ ns) h = color-whiten n (set k 0 m) ns (ground (arith, find-set k n 0 m))

start-white : (graph : Graph) (n : Str) → color_of (start_search graph) n ≡ 0
unfolding start_search find
start-white graph n = color-whiten n [] (keys graph) refl

whites-le-length : (ns : List Str) (s : Search) → whites ns s ≤ length ns
unfolding whites
whites-le-length [] s = omega arith
whites-le-length (n ∷ ns) s = ground (arith, whites-le-length ns s)

keys-mentioned :
    (graph : Graph) (n : Str) → contains n (keys graph) ≡ true → contains n (mentioned graph) ≡ true
unfolding contains
keys-mentioned [] n m = m
keys-mentioned ((k, deps) ∷ graph) n m =
    ground (arith, contains-append n deps (mentioned graph), keys-mentioned graph n)

edges-mentioned : (graph : Graph) → Closed graph (mentioned graph)
unfolding contains find
edges-mentioned [] n d e = cc
edges-mentioned ((k, deps) ∷ graph) n d e =
    ground (arith, contains-append d deps (mentioned graph), edges-mentioned graph n d)

module _ (fuel : ℕ) (graph : Graph) where
  search_from-white :
      (n : Str) (ns : List Str) (s : Search)
      → (color_of s n == 0) ≡ true
      → search_from fuel graph (n ∷ ns) s
        ≡ if_clean (dfs_visit fuel graph n s) (search_from fuel graph ns)
  unfolding search_from
  search_from-white n ns s e = ground arith

  search_from-other :
      (n : Str) (ns : List Str) (s : Search)
      → (color_of s n == 0) ≡ false
      → search_from fuel graph (n ∷ ns) s ≡ search_from fuel graph ns s
  unfolding search_from
  search_from-other n ns s e = ground arith

  search_from-nil : (s : Search) → search_from fuel graph [] s ≡ clean s
  unfolding search_from
  search_from-nil s = refl

  abbrev all : List Str
  all = mentioned graph

  search_from-Good :
      (ns : List Str) (s : Search)
      → State graph all [] s
      → ((n : Str) → contains n ns ≡ true → contains n all ≡ true)
      → whites all s ≤ fuel
      → Good graph all [] s (Blackened graph all ns) (search_from fuel graph ns s)
  unfolding contains
  search_from-Good [] s h r w = rw (search_from-nil s) (Later-refl graph all [] s h, λ n m. cc)
  search_from-Good (k ∷ ns) s h r w = elim (Bool-cases (color_of s k == 0)) [
    | inl white ↦ rw (search_from-white k ns s white) (
        if_clean-Good graph all [] s (λ s'. 2 ≤ color_of s' k) (Blackened graph all (k ∷ ns))
          (dfs_visit fuel graph k s) (search_from fuel graph ns)
          (dfs_visit-Good graph all (edges-mentioned graph) fuel [] k s h tt (r k self)
            (ground arith) w)
          (λ s' l b.
            next s' l b (search_from-Good ns s' l.state rest (omega (arith, l.fewer_white)))))
    | inr other ↦ rw (search_from-other k ns s other) (
        next s (Later-refl graph all [] s h) (ground (arith, h.gray k))
          (search_from-Good ns s h rest w))
  ]
    where
      self : contains k (k ∷ ns) ≡ true
      self = ground (arith, str_eq_iff k k)

      rest : (n : Str) → contains n ns ≡ true → contains n all ≡ true
      rest n m = r n (ground arith)

      next :
          (s' : Search)
          → Later graph all [] s s'
          → 2 ≤ color_of s' k
          → Good graph all [] s' (Blackened graph all ns) (search_from fuel graph ns s')
          → Good graph all [] s (Blackened graph all (k ∷ ns)) (search_from fuel graph ns s')
      next s' l b =
          Good-weaken graph all [] s s' (Blackened graph all ns) (Blackened graph all (k ∷ ns))
            (search_from fuel graph ns s') l
            (λ u later done n m. ground (arith, done n, later.stays_black k b, str_eq_iff k n))

-- Everything that a name depends on, directly or not, is free of cycles, for every name.
abbrev pub IsAcyclic : Graph → Type 0
IsAcyclic graph = (n : Str) → Grounded graph n

cycle_free :
    (graph : Graph) (n : Str) (xs : List Str)
    → Grounded graph n
    → Chain graph (n ∷ xs)
    → last (n ∷ xs) ≡ some n
    → 1 ≤ length xs
    → ⊥
cycle_free graph n [] (ground_at g) c e l = omega arith
cycle_free graph n (x ∷ rest) (ground_at g) c e l =
    cycle_free graph x (rest ++ x ∷ []) (g x c.0) (Chain-snoc graph (x ∷ rest) n x c.1 e c.0)
      (last-snoc (x ∷ rest) x) (omega (arith, length-append rest (x ∷ [])))

-- A graph is not both.
pub not-IsCycle_of_acyclic :
    (graph : Graph) (path : List Str) → IsAcyclic graph → ¬ IsCycle graph path
not-IsCycle_of_acyclic graph [] a c = omega (arith, c.long)
not-IsCycle_of_acyclic graph (x ∷ xs) a c =
    let same : x ≡ c.origin = cc c.leaves in
    cycle_free graph x xs (a x) c.chain (c.returns ∙ rw same) (omega (arith, c.long))

abbrev pub Finds : Graph → Option (List Str) → Type 0
Finds graph none = ⊥
Finds graph (some []) = IsAcyclic graph
Finds graph (some (n ∷ path)) = IsCycle graph (n ∷ path)

-- A name that is no key depends on nothing.
edge-key : (graph : Graph) (n d : Str) → edge graph n d ≡ true → contains n (keys graph) ≡ true
unfolding contains find
edge-key [] n d e = cc
edge-key ((k, deps) ∷ graph) n d e = ground (arith, edge-key graph n d)

IsAcyclic-of_keys :
    (graph : Graph)
    → ((n : Str) → contains n (keys graph) ≡ true → Grounded graph n)
    → IsAcyclic graph
unfolding contains
IsAcyclic-of_keys graph h n = elim (Bool-cases (contains n (keys graph))) [
  | inl key ↦ h n key
  | inr other ↦ ground_at (λ d e. cc (edge-key graph n d e, other))
]

Finds-cycle_of :
    (graph : Graph) (o : Outcome)
    → Good graph
        (mentioned graph)
        []
        (start_search graph)
        (Blackened graph (mentioned graph) (keys graph))
        o
    → Finds graph (cycle_of o)
Finds-cycle_of graph (clean s) (l, black) =
    IsAcyclic-of_keys graph (λ n m. l.state.black n (black n m))
Finds-cycle_of graph (cycle []) c = absurd (omega (arith, c.long))
Finds-cycle_of graph (cycle (n ∷ path)) c = c
Finds-cycle_of graph out_of_fuel g = g

start-State : (graph : Graph) → State graph (mentioned graph) [] (start_search graph)
unfolding start_search
start-State graph = record {
  stack = refl;
  gray = λ n e. ground (arith, start-white graph n);
  black = λ n b. absurd (omega (arith, start-white graph n));
}

pub Finds-detect_cycle_dfs : (graph : Graph) → Finds graph (detect_cycle_dfs graph)
unfolding detect_cycle_dfs
Finds-detect_cycle_dfs graph =
    Finds-cycle_of graph
      (search_from (suc (length (mentioned graph))) graph (keys graph) (start_search graph))
      (search_from-Good (suc (length (mentioned graph))) graph (keys graph) (start_search graph)
        (start-State graph) (keys-mentioned graph)
        (omega (arith, whites-le-length (mentioned graph) (start_search graph))))

-- On every input `get_circular_path` returns: either the empty path, and then no node depends on
-- itself through its dependencies (they are well-founded), or a path of at least two names in
-- which each name depends on the next one and the last name is the first.
pub Finds-get_circular_path :
    (nodes : List NodeConfig) → Finds (build_adjacency_list nodes) (get_circular_path nodes)
unfolding get_circular_path
Finds-get_circular_path nodes = Finds-detect_cycle_dfs (build_adjacency_list nodes)

not_empty-Finds :
    (graph : Graph) (found : Option (List Str))
    → Finds graph found
    → (answer : Bool) × (not_empty found ≡ some answer)
      × ((answer ≡ true) ↔ ((path : List Str) × IsCycle graph path))
not_empty-Finds graph none f = absurd f
not_empty-Finds graph (some []) f =
    (false, refl, (λ e. cc, λ c. absurd (not-IsCycle_of_acyclic graph c.0 f c.1)))
not_empty-Finds graph (some (n ∷ path)) f = (true, refl, (λ e. (n ∷ path, f), λ c. refl))

-- On every input `has_circular_dependency` returns, and it answers true exactly when the nodes'
-- dependencies hold a cycle: a walk from a node along dependencies back to itself.
pub has_circular_dependency_iff :
    (nodes : List NodeConfig)
    → (answer : Bool) × (has_circular_dependency nodes ≡ some answer)
      × ((answer ≡ true) ↔ ((path : List Str) × IsCycle (build_adjacency_list nodes) path))
unfolding has_circular_dependency
has_circular_dependency_iff nodes =
    not_empty-Finds (build_adjacency_list nodes) (get_circular_path nodes)
      (Finds-get_circular_path nodes)

-- ===== src/Resolver/Dfs.antt =====
-- `dfs_visit` ends within its fuel, reports cycles only, and blackens a name only when
-- everything that it depends on is free of cycles.
use mathlib.Core.Path.{subst}
use mathlib.Core.List.{reverse}
use mathlib.Core.Logic.{inl, inr}
use launch_cpp.Prelude.{
  ℕ, zero, suc, ◌+◌, ◌≤◌, ◌≡◌, refl, true, false, List, [], ◌∷◌, Str, str_eq, str_eq_iff, contains,
  if◌then◌else◌, arith, get_or, Bool-cases, ap, ◌==◌,
}
use launch_cpp.Prelude.Ordered.{find, set, find-set}
use launch_cpp.Resolver.{
  Graph, Search, Outcome, cycle, clean, out_of_fuel, color_of, back_to, enter, finish, if_clean,
  pop_back, visit_neighbors, dfs_visit,
}
use launch_cpp.Resolver.Cycle.{edge, Linked, IsCycle, back_to-IsCycle, Grounded, ground_at}

-- How many names of `all` are white.
unfoldable pub whites : List Str → Search → ℕ
whites [] s = 0
whites (n ∷ all) s = (if color_of s n == 0 then 1 else 0) + whites all s

module _ (graph : Graph) (all : List Str) where
  -- The search's state with the stack `path`.
  pub record State (path : List Str) (s : Search) : Type 0 where
    pub stack : s.path ≡ path
    pub gray : (n : Str) → color_of s n ≡ 1 → contains n path ≡ true
    pub black : (n : Str) → 2 ≤ color_of s n → Grounded graph n

  pub record Later (path : List Str) (s s' : Search) : Type 0 where
    pub state : State path s'
    pub stays_black : (n : Str) → 2 ≤ color_of s n → 2 ≤ color_of s' n
    pub fewer_white : whites all s' ≤ whites all s

  abbrev pub Good : List Str → Search → (Search → Type 0) → Outcome → Type 0
  Good path s Post (clean s') = Later path s s' × Post s'
  Good path s Post (cycle c) = IsCycle graph c
  Good path s Post out_of_fuel = ⊥

  pub if_clean-Good :
      (path : List Str) (s : Search) (Mid Post : Search → Type 0) (o : Outcome)
      (next : Search → Outcome)
      → Good path s Mid o
      → ((s' : Search) → Later path s s' → Mid s' → Good path s Post (next s'))
      → Good path s Post (if_clean o next)
  if_clean-Good path s Mid Post (clean s') next g k = k s' g.0 g.1
  if_clean-Good path s Mid Post (cycle c) next g k = g
  if_clean-Good path s Mid Post out_of_fuel next g k = absurd g

  pub Later-refl : (path : List Str) (s : Search) → State path s → Later path s s
  Later-refl path s h = record { state = h; stays_black = λ n b. b; fewer_white = omega arith }

  Later-trans :
      (path : List Str) (s t u : Search) → Later path s t → Later path t u → Later path s u
  Later-trans path s t u a b = record {
    state = b.state;
    stays_black = λ n h. b.stays_black n (a.stays_black n h);
    fewer_white = omega (arith, a.fewer_white, b.fewer_white);
  }

  pub Good-weaken :
      (path : List Str) (s t : Search) (Post Post' : Search → Type 0) (o : Outcome)
      → Later path s t
      → ((u : Search) → Later path t u → Post u → Post' u)
      → Good path t Post o
      → Good path s Post' o
  Good-weaken path s t Post Post' (clean u) l f g = (Later-trans path s t u l g.0, f u g.0 g.1)
  Good-weaken path s t Post Post' (cycle c) l f g = g
  Good-weaken path s t Post Post' out_of_fuel l f g = g

  -- What a recursive call is good for.
  abbrev pub Visits : List Str → ℕ → (Str → Search → Outcome) → Type 0
  Visits path fuel visit =
      (n : Str) (s : Search)
      → State path s
      → Linked graph (n ∷ path)
      → contains n all ≡ true
      → color_of s n ≡ 0
      → whites all s ≤ fuel
      → Good path s (λ s'. 2 ≤ color_of s' n) (visit n s)

  abbrev pub Blackened : List Str → Search → Type 0
  Blackened ns s = (n : Str) → contains n ns ≡ true → 2 ≤ color_of s n

  abbrev Reachable : List Str → List Str → Type 0
  Reachable path ns =
      (n : Str) → contains n ns ≡ true → Linked graph (n ∷ path) × (contains n all ≡ true)

  module _ (visit : Str → Search → Outcome) (k : Str) (ns : List Str) (s : Search) where
    visit_neighbors-gray :
        (color_of s k == 1) ≡ true
        → visit_neighbors visit (k ∷ ns) s ≡ cycle (reverse (k ∷ back_to k s.path))
    unfolding visit_neighbors
    visit_neighbors-gray e = ground arith

    visit_neighbors-white :
        (color_of s k == 1) ≡ false
        → (color_of s k == 0) ≡ true
        → visit_neighbors visit (k ∷ ns) s ≡ if_clean (visit k s) (visit_neighbors visit ns)
    unfolding visit_neighbors
    visit_neighbors-white e h = ground arith

    visit_neighbors-black :
        (color_of s k == 1) ≡ false
        → (color_of s k == 0) ≡ false
        → visit_neighbors visit (k ∷ ns) s ≡ visit_neighbors visit ns s
    unfolding visit_neighbors
    visit_neighbors-black e h = ground arith

  visit_neighbors-nil :
      (visit : Str → Search → Outcome) (s : Search) → visit_neighbors visit [] s ≡ clean s
  unfolding visit_neighbors
  visit_neighbors-nil visit s = refl

  visit_neighbors-Good :
      (path : List Str) (fuel : ℕ) (visit : Str → Search → Outcome) (ns : List Str) (s : Search)
      → Visits path fuel visit
      → State path s
      → Reachable path ns
      → whites all s ≤ fuel
      → Good path s (Blackened ns) (visit_neighbors visit ns s)
  unfolding contains
  visit_neighbors-Good path fuel visit [] s v h r w =
      rw (visit_neighbors-nil visit s) (Later-refl path s h, λ n m. cc)
  visit_neighbors-Good path fuel visit (k ∷ ns) s v h r w = elim (Bool-cases (color_of s k == 1)) [
    | inl gray ↦
        rw (visit_neighbors-gray visit k ns s gray, h.stack)
          (back_to-IsCycle graph k path (r k self).0 (h.gray k (ground arith)))
    | inr other ↦ elim (Bool-cases (color_of s k == 0)) [
      | inl white ↦ rw (visit_neighbors-white visit k ns s other white) (
          if_clean-Good path s (λ s'. 2 ≤ color_of s' k) (Blackened (k ∷ ns)) (visit k s)
            (visit_neighbors visit ns) (v k s h (r k self).0 (r k self).1 (ground arith) w)
            (λ s' l b. next s' l b (
              visit_neighbors-Good path fuel visit ns s' v l.state rest
                (omega (arith, l.fewer_white)))))
      | inr black ↦ rw (visit_neighbors-black visit k ns s other black) (
          next s (Later-refl path s h) (ground arith)
            (visit_neighbors-Good path fuel visit ns s v h rest w))
    ]
  ]
    where
      self : contains k (k ∷ ns) ≡ true
      self = ground (arith, str_eq_iff k k)

      rest : Reachable path ns
      rest n m = r n (ground arith)

      next :
          (s' : Search)
          → Later path s s'
          → 2 ≤ color_of s' k
          → Good path s' (Blackened ns) (visit_neighbors visit ns s')
          → Good path s (Blackened (k ∷ ns)) (visit_neighbors visit ns s')
      next s' l b =
          Good-weaken path s s' (Blackened ns) (Blackened (k ∷ ns)) (visit_neighbors visit ns s') l
            (λ u later done n m. ground (arith, done n, later.stays_black k b, str_eq_iff k n))

  -- Colouring.
  whites-set :
      (ns : List Str) (s : Search) (path : List Str) (k : Str) (c : ℕ)
      → 1 ≤ c
      → whites ns (record { color = set k c s.color; path = path }) ≤ whites ns s
  unfolding whites
  whites-set [] s path k c h = omega arith
  whites-set (n ∷ ns) s path k c h =
      ground (arith, whites-set ns s path k c h, find-set k n c s.color)

  whites-enter :
      (ns : List Str) (s : Search) (k : Str)
      → contains k ns ≡ true
      → color_of s k ≡ 0
      → whites ns (enter k s) + 1 ≤ whites ns s
  unfolding whites contains
  whites-enter [] s k m z = cc
  whites-enter (n ∷ ns) s k m z = ground (
    arith,
    whites-enter ns s k,
    whites-set ns s (k ∷ s.path) k 1,
    find-set k n 1 s.color,
    str_eq_iff n k,
    str_eq_iff k n,
  )

  enter-State :
      (path : List Str) (s : Search) (k : Str) → State path s → State (k ∷ path) (enter k s)
  unfolding contains
  enter-State path s k h = record {
    stack = rw h.stack;
    gray = λ n e. ground (arith, find-set k n 1 s.color, h.gray n, str_eq_iff k n);
    black = λ n b. h.black n (ground (arith, find-set k n 1 s.color));
  }

  -- The node turns black, and is taken off the stack.
  finish-Good :
      (path : List Str) (s : Search) (k : Str) (o : Outcome)
      → whites all (enter k s) ≤ whites all s
      → ((n : Str) → 2 ≤ color_of s n → 2 ≤ color_of (enter k s) n)
      → Good (k ∷ path) (enter k s) (λ _. Grounded graph k) o
      → Good path s (λ s'. 2 ≤ color_of s' k) (finish k o)
  unfolding contains
  finish-Good path s k (cycle c) w b g = g
  finish-Good path s k out_of_fuel w b g = g
  finish-Good path s k (clean t) w b (l, grounded) = (
    record {
      state = record {
        stack = ap pop_back l.state.stack;
        gray = λ n e. ground (arith, find-set k n 2 t.color, l.state.gray n);
        black = λ n h. elim (Bool-cases (str_eq k n)) [
          | inl e ↦ subst (Grounded graph) ((str_eq_iff k n).0 e) grounded
          | inr e ↦ l.state.black n (ground (arith, find-set k n 2 t.color))
        ];
      };
      stays_black = λ n h. ground (arith, find-set k n 2 t.color, l.stays_black n, b n);
      fewer_white = omega (arith, whites-set all t (pop_back t.path) k 2, l.fewer_white);
    },
    ground (arith, find-set k k 2 t.color, str_eq_iff k k),
  )

  -- Every name of the graph is among `all`.
  abbrev pub Closed : Type 0
  Closed = (n d : Str) → edge graph n d ≡ true → contains d all ≡ true

  pub dfs_visit-Good :
      Closed → (fuel : ℕ) (path : List Str) → Visits path fuel (dfs_visit fuel graph)
  unfolding dfs_visit
  dfs_visit-Good closed zero path n s h linked m z w = omega (arith, whites-enter all s n m z)
  dfs_visit-Good closed (suc fuel) path n s h linked m z w =
      finish-Good path s n _ (omega (arith, whites-enter all s n m z)) (λ k b. stays k b)
        (Good-weaken (n ∷ path) (enter n s) (enter n s) _ (λ _. Grounded graph n) _
          (Later-refl (n ∷ path) (enter n s) (enter-State path s n h))
          (λ u l done. ground_at (λ d e. l.state.black d (done d e)))
          (visit_neighbors-Good (n ∷ path) fuel (dfs_visit fuel graph) (get_or (find n graph) [])
            (enter n s) (dfs_visit-Good closed fuel (n ∷ path)) (enter-State path s n h)
            (λ d e. ((e, linked), closed n d e)) (omega (arith, whites-enter all s n m z))))
    where
      stays : (k : Str) → 2 ≤ color_of s k → 2 ≤ color_of (enter n s) k
      stays k b = ground (arith, find-set n k 1 s.color, str_eq_iff n k)

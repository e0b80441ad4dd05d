-- ===== src/Singleton/Once.antt =====
-- The constructor behind include/launch_cpp/singleton.hpp runs once.
use launch_cpp.Prelude.{
  ℕ, ◌+◌, ◌≤◌, false, Option, none, some, ◌≡◌, ◌≢◌, refl, ◌==◌, if_split, arith, ==_iff,
}
use launch_cpp.Singleton.{
  Place, outside, waiting, locked, building, built, leaving, returned, State, new_state, move,
  first_load, second_load, Step, loads, locks, loads_again, constructs, stores, unlocks, calls,
  Steps, here, next,
}

-- What holds where a thread `t` stands at a place.
abbrev At : Option ℕ → Option ℕ → ℕ → ℕ → Place → Type 0
At instance holder constructed t outside = Unit {0}
At instance holder constructed t waiting = Unit
At instance holder constructed t locked = holder ≡ some t × ((instance ≡ none) → constructed ≡ 0)
At instance holder constructed t building =
    (holder ≡ some t) × (instance ≡ none) × (constructed ≡ 0)
At instance holder constructed t (built n) =
    (holder ≡ some t) × (instance ≡ none) × (constructed ≡ 1) × (n ≡ 0)
At instance holder constructed t (leaving n) = (holder ≡ some t) × (instance ≡ some 0) × (n ≡ 0)
At instance holder constructed t (returned n) = (instance ≡ some 0) × (n ≡ 0)

-- The shared part: an instance is the first object, and with a free lock and no instance nothing was
-- built.
abbrev Shared : Option ℕ → Option ℕ → ℕ → Type 0
Shared i h c = ((n : ℕ) → i ≡ some n → (n ≡ 0) × (c ≡ 1)) × (i ≡ none → h ≡ none → c ≡ 0) × (c ≤ 1)

abbrev IsSafe : State → Type 0
IsSafe s =
    Shared s.instance s.holder s.constructed
    × ((t : ℕ) → At s.instance s.holder s.constructed t (s.places t))

-- A thread that does not hold the lock keeps what holds of it.
other :
    (i i' h h' : Option ℕ) (c c' u : ℕ) (p : Place)
    → h ≢ some u
    → (i ≡ some 0 → i' ≡ some 0)
    → At i h c u p
    → At i' h' c' u p
other i i' h h' c c' u outside free keep a = tt
other i i' h h' c c' u waiting free keep a = tt
other i i' h h' c c' u locked free keep a = absurd (free a.0)
other i i' h h' c c' u building free keep a = absurd (free a.0)
other i i' h h' c c' u (built n) free keep a = absurd (free a.0)
other i i' h h' c c' u (leaving n) free keep a = absurd (free a.0)
other i i' h h' c c' u (returned n) free keep a = (keep a.0, a.1)

-- One thread moves, and the others do not hold the lock.
moved :
    (places : ℕ → Place) (i i' h h' : Option ℕ) (c c' t : ℕ) (p : Place)
    → ((u : ℕ) → (t == u) ≡ false → h ≢ some u)
    → (i ≡ some 0 → i' ≡ some 0)
    → At i' h' c' t p
    → ((u : ℕ) → At i h c u (places u))
    → (u : ℕ) → At i' h' c' u (move t p places u)
moved places i i' h h' c c' t p free keep a all u =
    if_split (At i' h' c' u) (t == u) p (places u) (λ e. rw (← (==_iff t u).0 e) a)
      (λ e. other i i' h h' c c' u (places u) (free u e) keep (all u))

-- One thread moves, and what is shared stays.
moved_alone :
    (places : ℕ → Place) (i h : Option ℕ) (c t : ℕ) (p : Place)
    → At i h c t p
    → ((u : ℕ) → At i h c u (places u))
    → (u : ℕ) → At i h c u (move t p places u)
moved_alone places i h c t p a all u =
    if_split (At i h c u) (t == u) p (places u) (λ e. rw (← (==_iff t u).0 e) a) (λ e. all u)

holds_alone : (h : Option ℕ) (t u : ℕ) → h ≡ some t → (t == u) ≡ false → h ≢ some u
holds_alone h t u held ne e = ground arith

first_load-At : (i h : Option ℕ) (c t : ℕ) → Shared i h c → At i h c t (first_load i)
unfolding first_load
first_load-At none h c t s = tt
first_load-At (some n) h c t s = ground (arith, s.0 n refl)

second_load-At :
    (i h : Option ℕ) (c t : ℕ)
    → Shared i h c
    → h ≡ some t
    → (i ≡ none → c ≡ 0)
    → At i h c t (second_load i)
unfolding second_load
second_load-At none h c t s held z = (held, refl, z refl)
second_load-At (some n) h c t s held z = ground (arith, s.0 n refl)

Step-IsSafe : {s s' : State} → Step s s' → IsSafe s → IsSafe s'
Step-IsSafe {s} (loads t e) (sh, all) =
    (sh, moved_alone s.places _ _ _ t _ (first_load-At s.instance s.holder s.constructed t sh) all)
Step-IsSafe {s} (locks t e free) (sh, all) = (
  (sh.0, λ i h. cc, sh.2),
  moved s.places s.instance s.instance s.holder (some t) s.constructed s.constructed t locked
      (λ u ne h. cc) (λ k. k) (refl, λ i. sh.1 i free) all,
)
Step-IsSafe {s} (loads_again t e) (sh, all) =
    let a : At s.instance s.holder s.constructed t locked = rw e at (all t) in
    (
      sh,
      moved_alone s.places _ _ _ t _ (second_load-At s.instance s.holder s.constructed t sh a.0 a.1)
          all,
    )
Step-IsSafe {s} (constructs t e) (sh, all) =
    let a : At s.instance s.holder s.constructed t building = rw e at (all t) in
    (
      (λ n i. cc, λ i h. cc, omega arith),
      moved s.places s.instance s.instance s.holder s.holder s.constructed (s.constructed + 1) t
          (built s.constructed) (λ u. holds_alone s.holder t u a.0) (λ k. k)
          (a.0, a.1, omega arith, a.2) all,
    )
Step-IsSafe {s} (stores t n e) (sh, all) =
    let a : At s.instance s.holder s.constructed t (built n) = rw e at (all t) in
    (
      (λ m i. ground arith, λ i h. cc, sh.2),
      moved s.places s.instance (some n) s.holder s.holder s.constructed s.constructed t (leaving n)
          (λ u. holds_alone s.holder t u a.0) (λ k. ground arith) (a.0, ground arith, a.3) all,
    )
Step-IsSafe {s} (unlocks t n e) (sh, all) =
    let a : At s.instance s.holder s.constructed t (leaving n) = rw e at (all t) in
    (
      (sh.0, λ i h. cc, sh.2),
      moved s.places s.instance s.instance s.holder none s.constructed s.constructed t (returned n)
          (λ u. holds_alone s.holder t u a.0) (λ k. k) (a.1, a.2) all,
    )
Step-IsSafe {s} (calls t n e) (sh, all) = (sh, moved_alone s.places _ _ _ t outside tt all)

Steps-IsSafe : {s s' : State} → Steps s s' → IsSafe s → IsSafe s'
Steps-IsSafe here h = h
Steps-IsSafe (next steps step) h = Step-IsSafe step (Steps-IsSafe steps h)

new_state-IsSafe : IsSafe new_state
new_state-IsSafe = ((λ n i. cc, λ i h. refl, omega arith), λ t. tt)

returned_holds : (i h : Option ℕ) (c t n : ℕ) → At i h c t (returned n) → (i ≡ some n) × (n ≡ 0)
returned_holds i h c t n a = ground arith

-- Whatever threads call `instance()` and however their steps interleave, the constructor has run at
-- most once, and all that returned hold the same object, which is the stored instance.
pub instance_once :
    {s : State}
    → Steps new_state s
    → (s.constructed ≤ 1) × ((t n : ℕ) → s.places t ≡ returned n → (s.instance ≡ some n) × (n ≡ 0))
instance_once {s} steps =
    let (sh, all) = Steps-IsSafe steps new_state-IsSafe in
    (sh.2, λ t n e. returned_holds s.instance s.holder s.constructed t n (rw e at (all t)))

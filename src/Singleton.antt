-- ===== src/Singleton.antt =====
-- include/launch_cpp/singleton.hpp: the one instance of a type, made by whichever thread comes first.
-- A thread's calls of `instance()` are steps between its accesses to the shared pointer and to the
-- lock; an object is the number of its construction.
pub mod Once
use launch_cpp.Prelude.{
  ℕ, suc, ◌+◌, Bool, true, false, Option, none, some, ◌≡◌, ◌==◌, is_some, if◌then◌else◌,
}

-- Where a thread stands in `instance()`.
pub data Place : Type 0 where
  -- Before the first load; it found no instance and wants the lock; it holds the lock.
  outside waiting locked : Place
  -- The second load found no instance; the object is built; the lock is about to be released.
  building : Place
  built leaving returned : ℕ → Place

pub record State : Type 0 where
  pub instance : Option ℕ
  pub holder : Option ℕ
  -- How often the constructor ran.
  pub constructed : ℕ
  pub places : ℕ → Place

abbrev pub new_state : State
new_state = record { instance = none; holder = none; constructed = 0; places = λ t. outside }

abbrev pub move : ℕ → Place → (ℕ → Place) → ℕ → Place
move t p places u = if t == u then p else places u

-- `instance_.load(std::memory_order_acquire)`.
unfoldable pub first_load : Option ℕ → Place
first_load none = waiting
first_load (some n) = returned n

-- `instance_.load(std::memory_order_relaxed)`, under the lock.
unfoldable pub second_load : Option ℕ → Place
second_load none = building
second_load (some n) = leaving n

pub data Step (s : State) : State → Type 0 where
  loads :
      (t : ℕ)
      → s.places t ≡ outside
      → Step s (record s { places = move t (first_load s.instance) s.places })
  locks :
      (t : ℕ)
      → s.places t ≡ waiting
      → s.holder ≡ none
      → Step s (record s { holder = some t; places = move t locked s.places })
  loads_again :
      (t : ℕ)
      → s.places t ≡ locked
      → Step s (record s { places = move t (second_load s.instance) s.places })
  constructs :
      (t : ℕ)
      → s.places t ≡ building
      → Step s (record s {
        constructed = s.constructed + 1;
        places = move t (built s.constructed) s.places;
      })
  stores :
      (t n : ℕ)
      → s.places t ≡ built n
      → Step s (record s { instance = some n; places = move t (leaving n) s.places })
  unlocks :
      (t n : ℕ)
      → s.places t ≡ leaving n
      → Step s (record s { holder = none; places = move t (returned n) s.places })
  -- The same thread calls again.
  calls :
      (t n : ℕ) → s.places t ≡ returned n → Step s (record s { places = move t outside s.places })

pub data Steps (s : State) : State → Type 0 where
  here : Steps s s
  next : {t u : State} → Steps s t → Step t u → Steps s u

-- `is_initialized()`.
unfoldable pub is_initialized : State → Bool
is_initialized s = is_some s.instance

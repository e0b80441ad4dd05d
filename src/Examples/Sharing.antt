-- ===== src/Examples/Sharing.antt =====
-- Two threads that ask for the same instance at once.
use launch_cpp.Prelude.{ℕ, ◌≤◌, some, ◌≡◌, refl}
use launch_cpp.Singleton.{
  State, new_state, returned, loads, locks, loads_again, constructs, stores, unlocks, Steps, here,
  next, first_load, second_load,
}
use launch_cpp.Singleton.Once.{instance_once}

-- Both find no instance; thread 0 builds it, and thread 1 finds it under the lock.
shared : (s : State) × (Steps new_state s) × (s.places 1 ≡ returned 0)
unfolding first_load second_load
shared = (
  _,
  next
      (next
        (next
          (next
            (next
              (next
                (next (next (next (next here (loads 0 refl)) (loads 1 refl)) (locks 0 refl refl))
                  (loads_again 0 refl))
                (constructs 0 refl))
              (stores 0 0 refl))
            (unlocks 0 0 refl))
          (locks 1 refl refl))
        (loads_again 1 refl))
      (unlocks 1 0 refl),
  refl,
)

instance_once_example :
    (shared.0.constructed ≤ 1)
    × ((t n : ℕ) → shared.0.places t ≡ returned n → (shared.0.instance ≡ some n) × (n ≡ 0))
instance_once_example = instance_once shared.1

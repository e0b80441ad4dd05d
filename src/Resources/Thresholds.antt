-- ===== src/Resources/Thresholds.antt =====
-- The thresholds and the thread of the monitor in src/safety/posix_resource_monitor.cpp.
use launch_cpp.Prelude.{
  ◌&&◌, not, ℕ, Bool, true, false, ◌||◌, List, [], ◌∷◌, ◌==◌, ◌≡◌, refl, arith,
}
use launch_cpp.Executor.{answer}
use launch_cpp.Resources.{
  Machine, SystemResources, Callbacks, Monitor, new_monitor, set_callback,
  register_threshold_callback, calls_of, round_of, monitor_round, stop_monitoring,
  get_system_resources,
}

unfoldable pub calls : ℕ → List ℕ → Bool
calls c [] = false
calls c (d ∷ ds) = d == c || calls c ds

module _ (machine : Machine) where
  open machine use {Double, lt, gt}

  pub data Call : Type 0 where
    register : Double → ℕ → Call
    stop : Call

  unfoldable pub run : List Call → Monitor machine → Monitor machine
  run [] m = m
  run (register threshold callback ∷ rest) m =
      run rest (register_threshold_callback machine threshold callback m)
  run (stop ∷ rest) m = run rest (stop_monitoring machine m)

  run-threads :
      (list : List Call) (m : Monitor machine)
      → m.has_thread ≡ m.monitoring
      → m.terminated ≡ false
      → ((run list m).has_thread ≡ (run list m).monitoring) × ((run list m).terminated ≡ false)
  unfolding run register_threshold_callback stop_monitoring
  run-threads [] m h k = (h, k)
  run-threads (register t c ∷ rest) m h k = run-threads rest _ (ground arith) (ground arith)
  run-threads (stop ∷ rest) m h k = run-threads rest _ refl k

  -- After any registrations and stops on a new monitor, there is a thread exactly when it monitors,
  -- and no thread was started over one that was not joined, which would call `std::terminate`.
  pub new_monitor-run :
      (list : List Call)
      → let m = run list (new_monitor machine) in
        (m.has_thread ≡ m.monitoring) × (m.terminated ≡ false)
  new_monitor-run list = run-threads list (new_monitor machine) refl refl

  -- `lt` and `gt` on thresholds that are numbers: none is below itself, and two of which neither
  -- is below the other compare alike.
  pub record IsOrdered : Type 0 where
    pub irreflexive : (a : Double) → lt a a ≡ false
    pub alike_above : (u a b : Double) → lt a b ≡ false → lt b a ≡ false → lt u a ≡ lt u b
    pub alike_below : (u a b : Double) → lt a b ≡ false → lt b a ≡ false → lt a u ≡ lt b u
    pub alike_gt : (u a b : Double) → lt a b ≡ false → lt b a ≡ false → gt u a ≡ gt u b

  -- The callback stands at this threshold.
  stands : Double → ℕ → Callbacks machine → Bool
  stands t c [] = false
  stands t c ((a, d) ∷ callbacks) =
      (d == c && (not (lt a t) && not (lt t a))) || stands t c callbacks

  -- Only other thresholds are registered.
  abbrev pub AreOthers : Double → List (Double × ℕ) → Type 0
  AreOthers t [] = Unit
  AreOthers t ((s, d) ∷ later) = (lt s t || lt t s ≡ true) × AreOthers t later

  abbrev pub register_all : List (Double × ℕ) → Monitor machine → Monitor machine
  register_all [] m = m
  register_all ((s, d) ∷ later) m = register_all later (register_threshold_callback machine s d m)

  module _ (ordered : IsOrdered) where
    stands-set_callback :
        (t : Double) (c : ℕ) (callbacks : Callbacks machine)
        → stands t c (set_callback machine t c callbacks) ≡ true
    unfolding stands set_callback
    stands-set_callback t c [] = ground (arith, ordered.irreflexive t)
    stands-set_callback t c ((a, d) ∷ callbacks) =
        ground (arith, stands-set_callback t c callbacks, ordered.irreflexive t)

    -- Another threshold takes no callback away.
    stands-other :
        (t s : Double) (c d : ℕ) (callbacks : Callbacks machine)
        → lt s t || lt t s ≡ true
        → stands t c callbacks ≡ true
        → stands t c (set_callback machine s d callbacks) ≡ true
    unfolding stands set_callback
    stands-other t s c d [] other h = ground arith
    stands-other t s c d ((a, e) ∷ callbacks) other h = ground (
      arith,
      stands-other t s c d callbacks other,
      ordered.alike_above s a t,
      ordered.alike_below s a t,
    )

    calls_of-stands :
        (u t : Double) (c : ℕ) (callbacks : Callbacks machine)
        → gt u t ≡ true
        → stands t c callbacks ≡ true
        → calls c (calls_of machine u callbacks) ≡ true
    unfolding calls calls_of stands
    calls_of-stands u t c [] h k = ground arith
    calls_of-stands u t c ((a, d) ∷ callbacks) h k =
        ground (arith, calls_of-stands u t c callbacks h, ordered.alike_gt u a t)

    register_all-stands :
        (t : Double) (c : ℕ) (later : List (Double × ℕ)) (m : Monitor machine)
        → AreOthers t later
        → m.monitoring ≡ true
        → stands t c m.callbacks ≡ true
        → let m' = register_all later m in (m'.monitoring ≡ true) × (stands t c m'.callbacks ≡ true)
    unfolding register_threshold_callback
    register_all-stands t c [] m others on h = (on, h)
    register_all-stands t c ((s, d) ∷ later) m others on h =
        register_all-stands t c later (register_threshold_callback machine s d m) others.1
          (ground arith) (ground (arith, stands-other t s c d m.callbacks others.0 h))

    -- When the thresholds are ordered as numbers are, a monitor calls a callback in each round in
    -- which the resources can be read and the share of memory in use, from 0 to 1, is above its
    -- threshold: right after its registration and after any later registrations at other
    -- thresholds, until the monitoring is stopped or the threshold is registered again.
    pub monitor_round-register :
        (threshold : Double) (callback : ℕ) (later : List (Double × ℕ)) (m : Monitor machine)
        (resources : SystemResources machine)
        → AreOthers threshold later
        → get_system_resources machine ≡ answer resources
        → gt
            (machine.memory_usage resources.available_memory_bytes resources.total_memory_bytes)
            threshold
          ≡ true
        → calls callback (
            monitor_round machine
              (register_all later (register_threshold_callback machine threshold callback m)))
          ≡ true
    unfolding monitor_round register_threshold_callback round_of
    monitor_round-register threshold callback later m resources others e h =
        let m' = register_threshold_callback machine threshold callback m in
        let (on, there) =
          register_all-stands threshold callback later m' others (ground arith)
            (ground (arith, stands-set_callback threshold callback m.callbacks)) in
        rw (monitor_round, on, e) (calls_of-stands _ threshold callback _ h there)

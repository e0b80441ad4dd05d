-- ===== src/Resources.antt =====
-- src/safety/posix_resource_monitor.cpp: the memory and the load of the system, the memory of a
-- process, and the thread that calls back when memory runs short. Files, limits and `double` are
-- parameters. Every callback is a number; what a round calls is returned.
pub mod Texts
pub mod Usage
pub mod Availability
pub mod Thresholds
use launch_cpp.Prelude.{
  ℕ, zero, suc, ◌+◌, ◌-◌, ◌*◌, ◌%◌, Bool, true, false, not, ◌&&◌, Option, none, some, List, [], ◌∷◌,
  ◌++◌, Str, codes, str_eq, ltb, if◌then◌else◌, ◌||◌,
}
use launch_cpp.Watchdog.{OsalStatus, error, not_found}
use launch_cpp.Executor.{Answer, answer, refusal}
use launch_cpp.Resources.Texts.{
  range, lines_from, read_word, Number, missing, too_large, number, read_unsigned, read_long,
  skip_white,
}

pub record Machine : Type 1 where
  pub Double : Type 0
  pub zero : Double
  -- `a > b`, and `a < b` as the map of the callbacks orders its keys.
  pub gt : Double → Double → Bool
  pub lt : Double → Double → Bool
  -- 0.8, `static_cast<double>(ticks) / 100.0`, and 1.0 less the share of the first number in the
  -- second.
  pub load_limit : Double
  pub percent : ℕ → Double
  pub memory_usage : (available total : ℕ) → Double
  -- `file >> load1 >> load5 >> load15` where none of them fails.
  pub read_loads : Str → Option (Double × Double × Double)
  -- The text of a file, or `none` where it cannot be opened.
  pub read_file : Str → Option Str
  pub to_string : ℕ → Str
  -- `sysconf(_SC_NPROCESSORS_ONLN)`, and the soft and hard limit of RLIMIT_NOFILE, as `uint32_t`.
  pub processors : ℕ
  pub file_limits : Option (ℕ × ℕ)
  -- Whether `setrlimit(RLIMIT_AS, …)` accepts the limit.
  pub accepts_limit : ℕ → Bool

module _ (machine : Machine) where
  open machine use {Double}

  pub record SystemResources : Type 0 where
    pub total_memory_bytes : ℕ
    pub available_memory_bytes : ℕ
    pub cpu_load_1min : Double
    pub cpu_load_5min : Double
    pub cpu_load_15min : Double
    pub total_processes : ℕ
    pub max_file_descriptors : ℕ
    pub used_file_descriptors : ℕ

  -- `value * 1024` in `uint64_t`.
  abbrev pub kilobytes : ℕ → ℕ
  kilobytes n = n * 1024 % range

  -- The total and the available memory so far.
  abbrev pub Memory : Type 0
  Memory = ℕ × ℕ

  abbrev pub store_memory : Str → ℕ → Memory → Memory
  store_memory key n (total, available) =
      if str_eq key (codes "MemTotal:")
      then (kilobytes n, available)
      else if str_eq key (codes "MemAvailable:")
      then (total, kilobytes n)
      else (total, available)

  abbrev pub store_unit : Str → ℕ → Option (Str × Str) → Memory → Memory
  store_unit key n none m = m
  store_unit key n (some unit) m = store_memory key n m

  abbrev pub store_number : Str → Number → Memory → Memory
  store_number key missing m = m
  store_number key too_large m = m
  store_number key (number n rest) m = store_unit key n (read_word rest) m

  abbrev pub store_word : Option (Str × Str) → Memory → Memory
  store_word none m = m
  store_word (some (key, rest)) m = store_number key (read_unsigned rest) m

  -- `iss >> key >> value >> unit` on a line.
  unfoldable pub mem_line : Str → Memory → Memory
  unfolding read_word read_unsigned
  mem_line line m = store_word (read_word line) m

  unfoldable pub mem_lines : List Str → Memory → Memory
  unfolding mem_line
  mem_lines [] m = m
  mem_lines (line ∷ lines) m = mem_lines lines (mem_line line m)

  abbrev pub known_memory : Memory → Option Memory
  known_memory (total, available) = if ltb 0 total then some (total, available) else none

  unfoldable pub memory_in : Option Str → Option Memory
  unfolding mem_lines lines_from
  memory_in none = none
  memory_in (some text) = known_memory (mem_lines (lines_from [] text) (0, 0))

  unfoldable pub parse_mem_info : Option Memory
  unfolding memory_in
  parse_mem_info = memory_in (machine.read_file (codes "/proc/meminfo"))

  unfoldable pub parse_cpu_stat : Option (Double × Double × Double)
  parse_cpu_stat = elim (machine.read_file (codes "/proc/loadavg")) [
    | none ↦ none
    | some text ↦ machine.read_loads text
  ]

  -- Where the loads cannot be read, they count as 0.
  abbrev pub loads_or_zero : Option (Double × Double × Double) → Double × Double × Double
  loads_or_zero none = (machine.zero, machine.zero, machine.zero)
  loads_or_zero (some loads) = loads

  abbrev pub limits_or_zero : Option (ℕ × ℕ) → ℕ × ℕ
  limits_or_zero none = (0, 0)
  limits_or_zero (some limits) = limits

  unfoldable pub system_resources :
      Option Memory → Double × Double × Double → ℕ × ℕ → Answer SystemResources
  system_resources none loads limits = refusal error (codes "Failed to parse /proc/meminfo")
  system_resources (some memory) loads limits = answer (record {
    total_memory_bytes = memory.0;
    available_memory_bytes = memory.1;
    cpu_load_1min = loads.0;
    cpu_load_5min = loads.1;
    cpu_load_15min = loads.2;
    total_processes = machine.processors;
    max_file_descriptors = limits.1;
    used_file_descriptors = limits.0;
  })

  unfoldable pub get_system_resources : Answer SystemResources
  unfolding system_resources parse_mem_info parse_cpu_stat
  get_system_resources =
      system_resources parse_mem_info (loads_or_zero parse_cpu_stat)
        (limits_or_zero machine.file_limits)

  unfoldable pub available_among : ℕ → Answer SystemResources → Answer Bool
  available_among estimated_memory (refusal status message) = refusal status message
  available_among estimated_memory (answer resources) =
      if ltb resources.available_memory_bytes estimated_memory
      then answer false
      else if machine.gt resources.cpu_load_1min machine.load_limit
      then answer false
      else answer true

  unfoldable pub are_resources_available : ℕ → Answer Bool
  unfolding available_among get_system_resources
  are_resources_available estimated_memory = available_among estimated_memory get_system_resources

  -- The limits are those of the calling process, whatever `pid` is.
  unfoldable pub set_resource_limits : (pid max_memory : ℕ) → Double → Answer (Unit {0})
  set_resource_limits pid max_memory max_cpu_percent =
      if machine.accepts_limit max_memory
      then answer tt
      else refusal error (codes "Failed to set memory limit")

  -- `std::map<double, …>`, in the order of its keys.
  abbrev pub Callbacks : Type 0
  Callbacks = List (Double × ℕ)

  unfoldable pub set_callback : Double → ℕ → Callbacks → Callbacks
  set_callback threshold callback [] = (threshold, callback) ∷ []
  set_callback threshold callback ((t, c) ∷ callbacks) =
      let rest = set_callback threshold callback callbacks in
      if machine.lt threshold t
      then (threshold, callback) ∷ (t, c) ∷ callbacks
      else if machine.lt t threshold
      then (t, c) ∷ rest
      else (t, callback) ∷ callbacks

  pub record Monitor : Type 0 where
    pub callbacks : Callbacks
    pub monitoring : Bool
    -- Whether there is a thread that can be joined.
    pub has_thread : Bool
    -- Whether `std::terminate` was called: so it is when a thread is assigned to one that can be
    -- joined.
    pub terminated : Bool

  abbrev pub new_monitor : Monitor
  new_monitor = record {
    callbacks = [];
    monitoring = false;
    has_thread = false;
    terminated = false;
  }

  -- `monitor_thread_ = std::thread(…)`.
  abbrev pub start_thread : Monitor → Monitor
  start_thread m = record {
    callbacks = m.callbacks;
    monitoring = true;
    has_thread = true;
    terminated = m.terminated || m.has_thread;
  }

  unfoldable pub register_threshold_callback : Double → ℕ → Monitor → Monitor
  unfolding set_callback
  register_threshold_callback threshold callback m =
      let stored = record m { callbacks = set_callback threshold callback m.callbacks } in
      if not m.monitoring then start_thread stored else stored

  -- The callbacks that one round of the loop calls, in order.
  unfoldable pub calls_of : Double → Callbacks → List ℕ
  calls_of usage [] = []
  calls_of usage ((threshold, callback) ∷ callbacks) =
      let rest = calls_of usage callbacks in
      if machine.gt usage threshold then callback ∷ rest else rest

  unfoldable pub round_of : Answer SystemResources → Monitor → List ℕ
  unfolding calls_of
  round_of (refusal status message) m = []
  round_of (answer resources) m =
      calls_of (machine.memory_usage resources.available_memory_bytes resources.total_memory_bytes)
        m.callbacks

  -- One round of the loop of `monitor_thread`, before it sleeps.
  unfoldable pub monitor_round : Monitor → List ℕ
  unfolding round_of get_system_resources
  monitor_round m = if m.monitoring then round_of get_system_resources m else []

  -- The join returns, since the thread leaves its loop when it sees the flag.
  unfoldable pub stop_monitoring : Monitor → Monitor
  stop_monitoring m = record {
    callbacks = m.callbacks;
    monitoring = false;
    has_thread = false;
    terminated = m.terminated;
  }

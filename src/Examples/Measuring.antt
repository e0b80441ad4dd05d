-- ===== src/Examples/Measuring.antt =====
-- The resource monitor on texts as Linux writes them.
use launch_cpp.Prelude.{
  ℕ, ◌*◌, ◌-◌, ◌/◌, ◌%◌, ◌<◌, ◌≤◌, true, false, Option, none, some, List, [], ◌∷◌, ◌++◌, Str, codes,
  ◌≡◌, refl, ◌↔◌, ltb, str_eq, if◌then◌else◌, arith,
}
use launch_cpp.Executor.{answer}
use launch_cpp.Resources.Texts.{range}
use launch_cpp.Resources.{
  Machine, SystemResources, Memory, new_monitor, parse_mem_info, parse_cpu_stat, loads_or_zero,
  get_system_resources, are_resources_available, register_threshold_callback, monitor_round,
}
use launch_cpp.Resources.Usage.{get_process_resources}
use launch_cpp.Resources.Availability.{get_system_resources_bounds, are_resources_available_iff}
use launch_cpp.Resources.Thresholds.{
  IsOrdered, register_all, Call, register, stop, run, calls, new_monitor-run,
  monitor_round-register,
}

abbrev line : Str → Str → Str
line s rest = s ++ 10 ∷ rest

abbrev meminfo : Str
meminfo =
    line (codes "MemTotal:       16000 kB")
      (line (codes "MemFree:         100 kB") (line (codes "MemAvailable:    4000 kB") []))

abbrev status : Str
status =
    line (codes "Name: talker")
      (line (codes "VmSize:    900 kB") (line (codes "VmRSS:     300 kB") []))

abbrev read_file : Str → Option Str
read_file path =
    if str_eq path (codes "/proc/meminfo")
    then some meminfo
    else if str_eq path (codes "/proc/7/status")
    then some status
    else none

-- `double` as whole percent.
abbrev machine : Machine
machine = record {
  Double = ℕ;
  zero = 0;
  gt = λ a b. ltb b a;
  lt = ltb;
  load_limit = 80;
  percent = λ ticks. ticks;
  memory_usage = λ available total. 100 - available * 100 / total;
  read_loads = λ text. none;
  read_file = read_file;
  to_string = λ n. codes "7";
  processors = 4;
  file_limits = some (1024, 4096);
  accepts_limit = λ limit. true;
}

abbrev resources : SystemResources machine
resources = record {
  total_memory_bytes = 16384000;
  available_memory_bytes = 4096000;
  cpu_load_1min = 0;
  cpu_load_5min = 0;
  cpu_load_15min = 0;
  total_processes = 4;
  max_file_descriptors = 4096;
  used_file_descriptors = 1024;
}

measured : get_system_resources machine ≡ answer resources
unfolding get_system_resources str_eq
measured = refl

usage_test :
    get_process_resources machine 7
    ≡ answer (record {
      memory_bytes = 307200;
      virtual_memory_bytes = 921600;
      cpu_percent = 0;
      file_descriptors = 0;
    })
unfolding get_process_resources str_eq
usage_test = refl

get_system_resources_bounds_example :
    (0 < resources.total_memory_bytes)
    × (resources.total_memory_bytes < range)
    × (resources.total_memory_bytes % 1024 ≡ 0)
    × (resources.available_memory_bytes < range)
    × (resources.available_memory_bytes % 1024 ≡ 0)
get_system_resources_bounds_example = get_system_resources_bounds machine resources measured

are_resources_available_iff_example : (are_resources_available machine 1000000 ≡ answer true) ↔ (
    (m : Memory machine) × (parse_mem_info machine ≡ some m)
    × (1000000 ≤ m.1)
    × (machine.gt (loads_or_zero machine (parse_cpu_stat machine)).0 machine.load_limit ≡ false))
are_resources_available_iff_example = are_resources_available_iff machine 1000000

abbrev some_calls : List (Call machine)
some_calls = register 90 1 ∷ register 70 2 ∷ stop ∷ register 70 3 ∷ []

new_monitor-run_example :
    let m = run machine some_calls (new_monitor machine) in
    (m.has_thread ≡ m.monitoring) × (m.terminated ≡ false)
new_monitor-run_example = new_monitor-run machine some_calls

machine-IsOrdered : IsOrdered machine
machine-IsOrdered = record {
  irreflexive = λ a. ground arith;
  alike_above = λ u a b h k. ground arith;
  alike_below = λ u a b h k. ground arith;
  alike_gt = λ u a b h k. ground arith;
}

monitor_round-register_example :
    calls 5 (
      monitor_round machine (
        register_all machine ((80, 6) ∷ (60, 5) ∷ []) (
          register_threshold_callback machine 70 5 (run machine some_calls (new_monitor machine)))))
    ≡ true
monitor_round-register_example =
    monitor_round-register machine machine-IsOrdered 70 5 ((80, 6) ∷ (60, 5) ∷ [])
      (run machine some_calls (new_monitor machine)) resources (refl, (refl, tt)) measured refl

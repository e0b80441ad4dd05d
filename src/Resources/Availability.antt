-- ===== src/Resources/Availability.antt =====
-- What the memory numbers of src/safety/posix_resource_monitor.cpp can be, and when resources count as
-- available.
use launch_cpp.Prelude.{
  ℕ, ◌%◌, ◌<◌, ◌≤◌, true, false, Option, none, some, List, [], ◌∷◌, Str, codes, str_eq, ◌≡◌, refl,
  ◌↔◌, arith, if_both,
}
use launch_cpp.Executor.{answer}
use launch_cpp.Resources.Texts.{
  range, lines_from, read_word, Number, missing, too_large, number, read_unsigned,
}
use launch_cpp.Resources.{
  Machine, SystemResources, Memory, store_memory, store_unit, store_number, store_word, mem_line,
  mem_lines, known_memory, memory_in, parse_mem_info, parse_cpu_stat, loads_or_zero, limits_or_zero,
  system_resources, get_system_resources, available_among, are_resources_available,
}

module _ (machine : Machine) where
  -- Numbers of whole kilobytes that a `uint64_t` holds.
  abbrev AreKilobytes : Memory machine → Type 0
  AreKilobytes (total, available) =
      (total < range) × (total % 1024 ≡ 0) × (available < range) × (available % 1024 ≡ 0)

  store_memory-AreKilobytes :
      (key : Str) (n : ℕ) (m : Memory machine)
      → AreKilobytes m
      → AreKilobytes (store_memory machine key n m)
  store_memory-AreKilobytes key n (total, available) h =
      if_both AreKilobytes (str_eq key (codes "MemTotal:")) _ _ (omega arith)
        (if_both AreKilobytes (str_eq key (codes "MemAvailable:")) _ _ (omega arith) h)

  store_unit-AreKilobytes :
      (key : Str) (n : ℕ) (unit : Option (Str × Str)) (m : Memory machine)
      → AreKilobytes m
      → AreKilobytes (store_unit machine key n unit m)
  store_unit-AreKilobytes key n none m h = h
  store_unit-AreKilobytes key n (some unit) m h = store_memory-AreKilobytes key n m h

  store_number-AreKilobytes :
      (key : Str) (n : Number) (m : Memory machine)
      → AreKilobytes m
      → AreKilobytes (store_number machine key n m)
  store_number-AreKilobytes key missing m h = h
  store_number-AreKilobytes key too_large m h = h
  store_number-AreKilobytes key (number n rest) m h =
      store_unit-AreKilobytes key n (read_word rest) m h

  store_word-AreKilobytes :
      (word : Option (Str × Str)) (m : Memory machine)
      → AreKilobytes m
      → AreKilobytes (store_word machine word m)
  store_word-AreKilobytes none m h = h
  store_word-AreKilobytes (some (key, rest)) m h =
      store_number-AreKilobytes key (read_unsigned rest) m h

  mem_lines-AreKilobytes :
      (lines : List Str) (m : Memory machine)
      → AreKilobytes m
      → AreKilobytes (mem_lines machine lines m)
  unfolding mem_lines
  mem_lines-AreKilobytes [] m h = h
  mem_lines-AreKilobytes (line ∷ lines) m h =
      mem_lines-AreKilobytes lines (mem_line machine line m)
        (unfold mem_line in store_word-AreKilobytes (read_word line) m h)

  known_memory-AreKilobytes :
      (m found : Memory machine)
      → AreKilobytes m
      → known_memory machine m ≡ some found
      → (0 < found.0) × AreKilobytes found
  known_memory-AreKilobytes (total, available) found h e = ground arith

  parse_mem_info-AreKilobytes :
      (text : Option Str) (found : Memory machine)
      → memory_in machine text ≡ some found
      → (0 < found.0) × AreKilobytes found
  unfolding memory_in
  parse_mem_info-AreKilobytes none found e = cc
  parse_mem_info-AreKilobytes (some text) found e =
      known_memory-AreKilobytes (mem_lines machine (lines_from [] text) (0, 0)) found
        (mem_lines-AreKilobytes (lines_from [] text) (0, 0) (omega arith)) e

  system_resources_bounds :
      (memory : Option (Memory machine)) (loads : machine.Double × machine.Double × machine.Double)
      (limits : ℕ × ℕ) (resources : SystemResources machine)
      → ((m : Memory machine) → memory ≡ some m → (0 < m.0) × AreKilobytes m)
      → system_resources machine memory loads limits ≡ answer resources
      → (0 < resources.total_memory_bytes)
        × AreKilobytes (resources.total_memory_bytes, resources.available_memory_bytes)
  unfolding system_resources
  system_resources_bounds none loads limits resources h e = cc
  system_resources_bounds (some m) loads limits resources h e = ground (arith, h m refl)

  -- Whatever stands in the files, the memory that is reported is in whole kilobytes and in the range of
  -- `uint64_t`, for the total and for what is available, and the total is not 0.
  pub get_system_resources_bounds :
      (resources : SystemResources machine)
      → get_system_resources machine ≡ answer resources
      → (0 < resources.total_memory_bytes)
        × (resources.total_memory_bytes < range)
        × (resources.total_memory_bytes % 1024 ≡ 0)
        × (resources.available_memory_bytes < range)
        × (resources.available_memory_bytes % 1024 ≡ 0)
  unfolding get_system_resources
  get_system_resources_bounds resources e =
      let (p, k) =
        system_resources_bounds (parse_mem_info machine)
          (loads_or_zero machine (parse_cpu_stat machine))
          (limits_or_zero machine machine.file_limits) resources
          (unfold parse_mem_info in
            parse_mem_info-AreKilobytes (machine.read_file (codes "/proc/meminfo")))
          e in
      (p, k.0, k.1, k.2, k.3)

  available_among-true :
      (estimate : ℕ) (memory : Option (Memory machine))
      (loads : machine.Double × machine.Double × machine.Double) (limits : ℕ × ℕ)
      → (available_among machine estimate (system_resources machine memory loads limits)
          ≡ answer true)
        ↔ ((m : Memory machine) × (memory ≡ some m)
            × (estimate ≤ m.1)
            × (machine.gt loads.0 machine.load_limit ≡ false))
  unfolding available_among system_resources
  available_among-true estimate none loads limits = (λ h. cc, λ h. cc (h.1))
  available_among-true estimate (some m) loads limits =
      (λ h. (m, refl, ground arith, ground arith), λ (n, e, le, l). ground arith)

  -- Resources are available for an estimate exactly when the memory can be read, no less than the
  -- estimate is available, and the load of the last minute, 0 where it cannot be read, is not above
  -- the limit.
  pub are_resources_available_iff :
      (estimate : ℕ)
      → (are_resources_available machine estimate ≡ answer true) ↔ (
          (m : Memory machine) × (parse_mem_info machine ≡ some m)
          × (estimate ≤ m.1)
          × (machine.gt (loads_or_zero machine (parse_cpu_stat machine)).0 machine.load_limit
              ≡ false))
  unfolding are_resources_available get_system_resources
  are_resources_available_iff estimate =
      available_among-true estimate (parse_mem_info machine)
        (loads_or_zero machine (parse_cpu_stat machine))
        (limits_or_zero machine machine.file_limits)

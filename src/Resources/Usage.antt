-- ===== src/Resources/Usage.antt =====
-- src/safety/posix_resource_monitor.cpp: the memory and the processor time of one process.
use launch_cpp.Prelude.{
  ℕ, zero, suc, ◌+◌, ◌-◌, ◌%◌, Bool, true, false, ◌&&◌, Option, none, some, List, [], ◌∷◌, ◌++◌,
  Str, codes, str_eq, if◌then◌else◌,
}
use launch_cpp.Watchdog.{not_found}
use launch_cpp.Executor.{Answer, answer, refusal}
use launch_cpp.Resources.Texts.{
  range, lines_from, read_word, Number, missing, too_large, number, read_unsigned, read_long,
  skip_white,
}
use launch_cpp.Resources.{Machine, Memory, kilobytes}

module _ (machine : Machine) where
  open machine use {Double}

  pub record ResourceUsage : Type 0 where
    pub memory_bytes : ℕ
    pub virtual_memory_bytes : ℕ
    pub cpu_percent : Double
    pub file_descriptors : ℕ

  -- `iss >> key >> value >> unit` without a look at the result: a number that cannot be read is 0, one
  -- out of range the largest.
  abbrev pub value_of : Number → ℕ
  value_of missing = 0
  value_of too_large = range - 1
  value_of (number n rest) = n

  abbrev pub second_value : Option (Str × Str) → ℕ
  second_value none = 0
  second_value (some (key, rest)) = value_of (read_unsigned rest)

  unfoldable pub starts_with : Str → Str → Bool
  starts_with [] s = true
  starts_with (p ∷ prefix) [] = false
  starts_with (p ∷ prefix) (c ∷ s) = str_eq (p ∷ []) (c ∷ []) && starts_with prefix s

  -- The resident and the virtual memory so far.
  abbrev pub status_line : Str → Memory machine → Memory machine
  status_line line (rss, size) =
      if starts_with (codes "VmRSS:") line
      then (kilobytes machine (second_value (read_word line)), size)
      else if starts_with (codes "VmSize:") line
      then (rss, kilobytes machine (second_value (read_word line)))
      else (rss, size)

  unfoldable pub status_lines : List Str → Memory machine → Memory machine
  unfolding starts_with read_word read_unsigned
  status_lines [] m = m
  status_lines (line ∷ lines) m = status_lines lines (status_line line m)

  abbrev pub process_file : ℕ → Str → Str
  process_file pid name = codes "/proc/" ++ (machine.to_string pid ++ name)

  unfoldable pub parse_process_status : ℕ → Option (Memory machine)
  unfolding status_lines lines_from
  parse_process_status pid = elim (machine.read_file (process_file pid (codes "/status"))) [
    | none ↦ none
    | some text ↦ some (status_lines (lines_from [] text) (0, 0))
  ]

  -- What follows `count` numbers of type `long` and of type `unsigned long`.
  unfoldable pub skip_longs : (count : ℕ) → Str → Option Str
  skip_longs zero s = some s
  skip_longs (suc count) s = elim (read_long s) [
    | missing ↦ none
    | too_large ↦ none
    | number n rest ↦ skip_longs count rest
  ]

  unfoldable pub skip_unsigned : (count : ℕ) → Str → Option Str
  skip_unsigned zero s = some s
  skip_unsigned (suc count) s = elim (read_unsigned s) [
    | missing ↦ none
    | too_large ↦ none
    | number n rest ↦ skip_unsigned count rest
  ]

  abbrev pub then_skip : (Str → Option Str) → Option Str → Option Str
  then_skip f none = none
  then_skip f (some s) = f s

  -- The command's name is one word, the state one character.
  abbrev pub after_word : Str → Option Str
  after_word s = elim (read_word s) [ none ↦ none | some parts ↦ some parts.1 ]

  abbrev pub after_char : Str → Option Str
  after_char s = elim (skip_white s) [ [] ↦ none | c ∷ rest ↦ some rest ]

  abbrev pub add_times : ℕ → Number → Option ℕ
  add_times utime missing = none
  add_times utime too_large = none
  add_times utime (number stime rest) = some ((utime + stime) % range)

  abbrev pub read_times : Option Str → Option ℕ
  read_times none = none
  read_times (some s) = elim (read_unsigned s) [
    | missing ↦ none
    | too_large ↦ none
    | number utime rest ↦ add_times utime (read_unsigned rest)
  ]

  -- pid, comm, state, five `long`s from ppid to tpgid, and five numbers from flags to cmajflt.
  unfoldable pub stat_line : Str → Option ℕ
  unfolding skip_longs skip_unsigned read_word read_unsigned skip_white
  stat_line line = read_times (
      then_skip (skip_unsigned 5) (
        then_skip (skip_longs 5) (then_skip after_char (then_skip after_word (skip_longs 1 line)))))

  abbrev pub first_line : List Str → Str
  first_line [] = []
  first_line (line ∷ lines) = line

  unfoldable pub parse_process_stat : ℕ → Option Double
  unfolding stat_line lines_from
  parse_process_stat pid = elim (machine.read_file (process_file pid (codes "/stat"))) [
    | none ↦ none
    | some text ↦ elim (stat_line (first_line (lines_from [] text))) [
      | none ↦ none
      | some total_time ↦ some (machine.percent total_time)
    ]
  ]

  abbrev pub or_zero : Option Double → Double
  or_zero none = machine.zero
  or_zero (some d) = d

  unfoldable pub process_resources : Option (Memory machine) → Option Double → Answer ResourceUsage
  process_resources none cpu = refusal not_found (codes "Failed to read process status")
  process_resources (some memory) cpu = answer (record {
    memory_bytes = memory.0;
    virtual_memory_bytes = memory.1;
    cpu_percent = or_zero cpu;
    file_descriptors = 0;
  })

  unfoldable pub get_process_resources : ℕ → Answer ResourceUsage
  unfolding process_resources parse_process_status parse_process_stat
  get_process_resources pid = process_resources (parse_process_status pid) (parse_process_stat pid)

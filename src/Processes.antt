-- ===== src/Processes.antt =====
-- src/actions/execute_process.cpp: an action that starts a process, watches it and starts it again
-- when that fails. The operating system is the record of operations `Osal`.
pub mod Outcomes
pub mod Attempts
pub mod Control
pub mod Identity
use launch_cpp.Osal.{
  OsalResult, done, failed, CommandLine, ProcessOptions, Signal, sigterm, sigkill, Osal,
}
use launch_cpp.Prelude.{
  ℕ, zero, suc, ◌+◌, ◌*◌, Bool, true, false, not, ◌&&◌, ◌||◌, Option, none, some, List, [], ◌∷◌,
  ◌++◌, Str, codes, str_eq, ◌==◌, ltb, is_some, is_empty, if◌then◌else◌,
}
use launch_cpp.Errors.{
  ErrorCode, Error, Result, ok, err, error, no_error, has_value, process_spawn_failed, timeout,
  resource_exhausted, max_retries_exceeded, invalid_argument, internal_error,
}
use launch_cpp.Context.{Context}
use launch_cpp.Substitutions.{System, Substitution, perform}
use launch_cpp.Commands.{escape_argument}
use launch_cpp.Retry.{Doubles, multiply}

-- `Process`, where the return code -1 is `none`.
pub record Process : Type 0 where
  pub pid : ℕ
  pub return_code : Option ℕ

unfoldable pub validate : List Str → Result (List Str)
validate [] = ok []
validate (arg ∷ args) =
    let rest = validate args in
    if is_empty arg
    then err (error invalid_argument (codes "Empty argument in command"))
    else elim rest [ err e ↦ err e | ok escaped ↦ ok (escape_argument arg ∷ escaped) ]

unfoldable pub validate_and_escape_command : List Str → Result (List Str)
unfolding validate
validate_and_escape_command cmd =
    if is_empty cmd then err (error invalid_argument (codes "Empty command")) else validate cmd

unfoldable pub is_retryable_error : ErrorCode → Bool
is_retryable_error process_spawn_failed = true
is_retryable_error timeout = true
is_retryable_error resource_exhausted = true
is_retryable_error _ = false

abbrev pub failure_code : Result (Unit {0}) → ErrorCode
failure_code (ok u) = no_error.code
failure_code (err e) = e.code

abbrev pub exhausted : Result (Unit {0})
exhausted = err (error max_retries_exceeded (codes "Max retry attempts exceeded"))

unfoldable pub command_line : List Str → CommandLine
command_line [] = record { program = []; arguments = []; working_directory = []; environment = [] }
command_line (program ∷ arguments) = record {
  program = program;
  arguments = arguments;
  working_directory = [];
  environment = [];
}

module _ (osal : Osal) where
  open osal use {doubles, World}

  pub record Options : Type 0 where
    pub cmd : List (Option Substitution)
    pub output : Str
    pub sigterm_timeout : ℕ
    pub enable_safety : Bool
    pub max_memory_bytes : ℕ
    pub max_cpu_percent : doubles.Double
    pub watchdog_timeout_ms : ℕ
    pub max_retries : ℕ
    pub retry_delay : ℕ
    pub retry_backoff_multiplier : doubles.Double

  -- Whether each safety interface is there, and the state.
  pub record ExecuteProcess : Type 0 where
    pub options : Options
    pub process : Option Process
    pub process_id : ℕ
    pub process_executor : Bool
    pub resource_monitor : Bool
    pub watchdog : Bool

  abbrev pub State : Type 0
  State = ExecuteProcess × World

  abbrev pub with_process : ExecuteProcess → Option Process → ℕ → ExecuteProcess
  with_process p process id = record {
    options = p.options;
    process = process;
    process_id = id;
    process_executor = p.process_executor;
    resource_monitor = p.resource_monitor;
    watchdog = p.watchdog;
  }

  -- A null pointer is skipped.
  unfoldable pub resolve_command : Context → List (Option Substitution) → List Str
  resolve_command context [] = []
  resolve_command context (none ∷ subs) = resolve_command context subs
  resolve_command context (some sub ∷ subs) =
      perform osal.system sub context ∷ resolve_command context subs

  unfoldable pub estimated_memory : Options → ℕ
  estimated_memory options =
      if ltb 0 options.max_memory_bytes then options.max_memory_bytes else 100 * 1024 * 1024

  abbrev pub is_available : OsalResult Bool → Bool
  is_available (done b) = b
  is_available (failed m) = false

  -- The check of the resources, when it is made, and the world after it.
  unfoldable pub check_resources : State → Bool × World
  unfolding estimated_memory
  check_resources (p, w) =
      let answer = osal.are_resources_available (estimated_memory p.options) w in
      if p.options.enable_safety && p.resource_monitor
      then (is_available answer.0, answer.1)
      else (true, w)

  unfoldable pub process_options : Options → ProcessOptions
  process_options options = record {
    startup_timeout = 5000;
    shutdown_timeout = 1000 * options.sigterm_timeout;
    auto_restart = false;
    max_restarts = 3;
    restart_delay = 10000;
    capture_stdout = not (str_eq options.output (codes "log"));
    capture_stderr = not (str_eq options.output (codes "log"));
  }

  unfoldable pub warn_unless_done : OsalResult (Unit {0}) × World → World
  warn_unless_done (done u, w) = w
  warn_unless_done (failed m, w) =
      osal.log (codes "Warning: Failed to register process with watchdog: " ++ m) w

  unfoldable pub register_with_watchdog : ExecuteProcess → ℕ → World → World
  unfolding warn_unless_done
  register_with_watchdog p id w =
      if p.watchdog && ltb 0 p.options.watchdog_timeout_ms
      then warn_unless_done (osal.register_node id p.options.watchdog_timeout_ms w)
      else w

  unfoldable pub limit_resources : ExecuteProcess → ℕ → World → World
  limit_resources p id w =
      if p.resource_monitor
        && (ltb 0 p.options.max_memory_bytes || osal.is_positive p.options.max_cpu_percent)
      then osal.set_resource_limits id p.options.max_memory_bytes p.options.max_cpu_percent w
      else w

  unfoldable pub wait_for_screen : Options → ℕ → World → World
  wait_for_screen options id w =
      if str_eq options.output (codes "screen") then osal.wait id w else w

  -- The rest of an attempt after `process_executor_->execute`.
  unfoldable pub started : ExecuteProcess → OsalResult ℕ × World → Result (Unit {0}) × State
  unfolding register_with_watchdog limit_resources wait_for_screen
  started p (failed m, w) = (err (error process_spawn_failed m), (p, w))
  started p (done id, w) = (
    ok tt,
    (
      with_process p (some (record { pid = id; return_code = none })) id,
      wait_for_screen p.options id (limit_resources p id (register_with_watchdog p id w)),
    ),
  )

  -- `fork` and, in the parent, `Process::wait` for screen output.
  unfoldable pub spawned : ExecuteProcess → Option ℕ × World → Result (Unit {0}) × State
  spawned p (none, w) = (err (error process_spawn_failed (codes "Fork failed")), (p, w))
  spawned p (some id, w) =
      if str_eq p.options.output (codes "screen")
      then (
        ok tt,
        (
          with_process p (some (record { pid = id; return_code = (osal.waitpid id w).0 }))
              p.process_id,
          (osal.waitpid id w).1,
        ),
      )
      else (
        ok tt,
        (with_process p (some (record { pid = id; return_code = none })) p.process_id, w),
      )

  unfoldable pub execute_single_attempt : List Str → State → Result (Unit {0}) × State
  unfolding check_resources process_options started spawned command_line
  execute_single_attempt cmd (p, w) =
      let checked = check_resources (p, w) in
      if not checked.0
      then (
        err (error process_spawn_failed (codes "Insufficient resources to start process")),
        (p, checked.1),
      )
      else if p.options.enable_safety && p.process_executor
      then started p (osal.start (command_line cmd) (process_options p.options) checked.1)
      else spawned p (osal.spawn cmd checked.1)

  -- The doubling loop is the one of the retry policy.
  unfoldable pub calculate_retry_delay : Options → ℕ → ℕ
  calculate_retry_delay options zero = options.retry_delay
  calculate_retry_delay options (suc rounds) =
      if not (osal.is_positive options.retry_backoff_multiplier)
      then options.retry_delay
      else doubles.scale options.retry_delay
          (multiply doubles options.retry_backoff_multiplier rounds doubles.one)

  unfoldable pub stop_leftover : Option Process → World → World
  stop_leftover none w = w
  stop_leftover (some process) w =
      let (alive, v) = osal.waitpid_nohang process.pid w in
      if alive then osal.sleep 100 (osal.send process.pid sigterm v) else v

  unfoldable pub unregister : ExecuteProcess → World → World
  unregister p w =
      if p.watchdog && not (p.process_id == 0) then osal.unregister_node p.process_id w else w

  unfoldable pub cleanup_before_retry : State → State
  unfolding stop_leftover unregister
  cleanup_before_retry (p, w) = (with_process p none 0, unregister p (stop_leftover p.process w))

  -- The clean-up and the wait between two attempts; the message to the user is left out.
  unfoldable pub prepare_retry : ℕ → State → State
  unfolding cleanup_before_retry calculate_retry_delay
  prepare_retry attempt (p, w) =
      let (q, v) = cleanup_before_retry (p, w) in
      (q, osal.sleep (calculate_retry_delay p.options attempt) v)

  -- The `while` loop, by the retries left: `left + attempt` is `max_retries`, which is less than
  -- the largest `uint32_t`, so the counter does not wrap around.
  unfoldable pub retry_from : List Str → (left attempt : ℕ) → State → Result (Unit {0}) × State
  unfolding execute_single_attempt is_retryable_error prepare_retry
  retry_from cmd zero attempt s =
      let (r, t) = execute_single_attempt cmd s in if has_value r then (r, t) else (exhausted, t)
  retry_from cmd (suc left) attempt s =
      let (r, t) = execute_single_attempt cmd s in
      let rest = retry_from cmd left (suc attempt) (prepare_retry (suc attempt) t) in
      if has_value r
      then (r, t)
      else if not (is_retryable_error (failure_code r))
      then (r, t)
      else rest

  unfoldable pub execute_with_retry : List Str → State → Result (Unit {0}) × State
  unfolding retry_from
  execute_with_retry cmd (p, w) = retry_from cmd p.options.max_retries 0 (p, w)

  unfoldable pub execute_validated : Result (List Str) → State → Result (Unit {0}) × State
  unfolding execute_with_retry execute_single_attempt
  execute_validated (err e) s = (err e, s)
  execute_validated (ok cmd) (p, w) =
      if ltb 0 p.options.max_retries
      then execute_with_retry cmd (p, w)
      else execute_single_attempt cmd (p, w)

  unfoldable pub execute : Context → State → Result (Unit {0}) × State
  unfolding resolve_command validate_and_escape_command execute_validated
  execute context (p, w) =
      execute_validated (validate_and_escape_command (resolve_command context p.options.cmd)) (p, w)

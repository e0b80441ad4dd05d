-- ===== src/Osal.antt =====
-- include/launch_cpp/safety/osal.hpp: the interfaces between the process action and the operating
-- system, as a record of operations on a world. Numbers that the source compares with 0 only, and
-- process identifiers, are natural numbers.
use launch_cpp.Prelude.{ℕ, Bool, List, Str, Option}
use launch_cpp.Retry.{Doubles}
use launch_cpp.Substitutions.{System}

-- `OsalResult<T>`, whose status is read only for success.
pub data OsalResult (A : Type 0) : Type 0 where
  done : A → OsalResult A
  failed : Str → OsalResult A

pub record CommandLine : Type 0 where
  pub program : Str
  pub arguments : List Str
  pub working_directory : Str
  pub environment : List (Str × Str)

-- Times are milliseconds.
pub record ProcessOptions : Type 0 where
  pub startup_timeout : ℕ
  pub shutdown_timeout : ℕ
  pub auto_restart : Bool
  pub max_restarts : ℕ
  pub restart_delay : ℕ
  pub capture_stdout : Bool
  pub capture_stderr : Bool

pub data Signal : Type 0 where
  sigterm sigkill : Signal
  other : ℕ → Signal

pub record Osal : Type 1 where
  pub doubles : Doubles
  pub is_positive : doubles.Double → Bool
  pub system : System
  pub World : Type 0
  -- The executor, the resource monitor and the watchdog.
  pub start : CommandLine → ProcessOptions → World → OsalResult ℕ × World
  pub wait : ℕ → World → World
  pub terminate_within : ℕ → ℕ → World → OsalResult (Unit {0}) × World
  pub kill_process : ℕ → World → OsalResult (Unit {0}) × World
  pub signal_process : ℕ → Signal → World → World
  pub process_is_running : ℕ → World → OsalResult Bool × World
  pub are_resources_available : ℕ → World → OsalResult Bool × World
  pub set_resource_limits : ℕ → ℕ → doubles.Double → World → World
  pub register_node : ℕ → ℕ → World → OsalResult (Unit {0}) × World
  pub unregister_node : ℕ → World → World
  -- `fork` with the child's `execvp`; `none` when it fails.
  pub spawn : List Str → World → Option ℕ × World
  -- `waitpid`, with the exit status when the process exited, and with WNOHANG.
  pub waitpid : ℕ → World → Option ℕ × World
  pub waitpid_nohang : ℕ → World → Bool × World
  pub send : ℕ → Signal → World → World
  pub sleep : ℕ → World → World
  pub log : Str → World → World

-- ===== src/Supervision.antt =====
-- src/actions/execute_process.cpp with src/safety/posix_watchdog.cpp: the process action whose
-- watchdog is the POSIX one. The other operations of the interface are those of a given one.
pub mod Registration
use launch_cpp.Prelude.{ℕ, Bool, false, List, Str, Option, []}
use launch_cpp.Osal.{Osal, OsalResult, done, failed, CommandLine, ProcessOptions, Signal}
use launch_cpp.Watchdog.{
  Watchdog, OsalStatus, success, error, timeout, resource_exhausted, permission_denied, not_found,
  invalid_argument, register_node, unregister_node,
}

-- `reg_result.is_success()`.
abbrev pub status_result : OsalStatus → OsalResult (Unit {0})
status_result success = done tt
status_result _ = failed []

-- An operation that leaves the watchdog alone.
abbrev pub aside :
    {World A : Type 0} → (World → A × World) → World × Watchdog → A × (World × Watchdog)
aside f (w, d) = ((f w).0, ((f w).1, d))

abbrev pub beside : {World : Type 0} → (World → World) → World × Watchdog → World × Watchdog
beside f (w, d) = (f w, d)

-- The watchdog reads the clock of the world when a node is registered; the action gives it no
-- heartbeat callback.
abbrev pub supervised : (osal : Osal) → (osal.World → ℕ) → Osal
supervised osal now = record {
  doubles = osal.doubles;
  is_positive = osal.is_positive;
  system = osal.system;
  World = osal.World × Watchdog;
  start = λ command options. aside (osal.start command options);
  wait = λ pid. beside (osal.wait pid);
  terminate_within = λ pid period. aside (osal.terminate_within pid period);
  kill_process = λ pid. aside (osal.kill_process pid);
  signal_process = λ pid signal. beside (osal.signal_process pid signal);
  process_is_running = λ pid. aside (osal.process_is_running pid);
  are_resources_available = λ memory. aside (osal.are_resources_available memory);
  set_resource_limits = λ pid memory cpu. beside (osal.set_resource_limits pid memory cpu);
  register_node = λ id period s. (
    status_result (register_node id period false (now s.0) s.1).0,
    (s.0, (register_node id period false (now s.0) s.1).1),
  );
  unregister_node = λ id s. (s.0, (unregister_node id s.1).1);
  spawn = λ cmd. aside (osal.spawn cmd);
  waitpid = λ pid. aside (osal.waitpid pid);
  waitpid_nohang = λ pid. aside (osal.waitpid_nohang pid);
  send = λ pid signal. beside (osal.send pid signal);
  sleep = λ period. beside (osal.sleep period);
  log = λ line. beside (osal.log line);
}

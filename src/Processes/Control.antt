-- ===== src/Processes/Control.antt =====
-- src/actions/execute_process.cpp: stopping and signalling the process, and what is known of it.
use launch_cpp.Prelude.{
  ℕ, Bool, false, not, ◌&&◌, Option, none, some, codes, ◌==◌, ◌*◌, if◌then◌else◌,
}
use launch_cpp.Errors.{Error, error, no_error, internal_error, Result, ok, err}
use launch_cpp.Osal.{OsalResult, done, failed, Signal, sigterm, sigkill, Osal}
use launch_cpp.Processes.{Process, ExecuteProcess, State, is_available}

module _ (osal : Osal) where
  open osal use {World}

  abbrev pub is_safe : ExecuteProcess osal → Bool
  is_safe p = p.options.enable_safety && p.process_executor && not (p.process_id == 0)

  abbrev pub outcome : OsalResult (Unit {0}) → Error
  outcome (done u) = no_error
  outcome (failed m) = error internal_error m

  -- The signal of the legacy path, to a process that is running.
  unfoldable pub signal_running : Signal → Option Process → World → World
  signal_running signal none w = w
  signal_running signal (some process) w =
      let (alive, v) = osal.waitpid_nohang process.pid w in
      if alive then osal.send process.pid signal v else v

  -- `shutdown`, and `terminate` with the same body.
  unfoldable pub terminate : State osal → Error × World
  unfolding signal_running
  terminate (p, w) =
      let answer = osal.terminate_within p.process_id (1000 * p.options.sigterm_timeout) w in
      if is_safe p
      then (outcome answer.0, answer.1)
      else (no_error, signal_running sigterm p.process w)

  unfoldable pub kill : State osal → Error × World
  unfolding signal_running
  kill (p, w) =
      let answer = osal.kill_process p.process_id w in
      if is_safe p
      then (outcome answer.0, answer.1)
      else (no_error, signal_running sigkill p.process w)

  unfoldable pub signal_started : Signal → Option Process → World → World
  signal_started signal none w = w
  signal_started signal (some process) w = osal.send process.pid signal w

  unfoldable pub send_signal : Signal → State osal → World
  unfolding signal_started
  send_signal signal (p, w) =
      if is_safe p
      then osal.signal_process p.process_id signal w
      else signal_started signal p.process w

  unfoldable pub legacy_is_running : Option Process → World → Bool × World
  legacy_is_running none w = (false, w)
  legacy_is_running (some process) w = osal.waitpid_nohang process.pid w

  unfoldable pub is_running : State osal → Bool × World
  unfolding legacy_is_running
  is_running (p, w) =
      let answer = osal.process_is_running p.process_id w in
      if is_safe p then (is_available osal answer.0, answer.1) else legacy_is_running p.process w

  abbrev not_started : {A : Type 0} → Result A
  not_started = err (error internal_error (codes "Process not started"))

  -- `none` is the return code -1.
  unfoldable pub get_return_code : ExecuteProcess osal → Result (Option ℕ)
  get_return_code p = elim p.process [
    | some process ↦ ok process.return_code
    | none ↦ if p.options.enable_safety && not (p.process_id == 0) then ok none else not_started
  ]

  unfoldable pub get_pid : ExecuteProcess osal → Result ℕ
  get_pid p =
      if p.options.enable_safety && not (p.process_id == 0)
      then ok p.process_id
      else elim p.process [ some process ↦ ok process.pid | none ↦ not_started ]

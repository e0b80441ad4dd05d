-- ===== src/Executor.antt =====
-- src/safety/posix_process_executor.cpp: starting, polling and stopping processes with the POSIX
-- calls. The calls and the steady clock, in nanoseconds, are operations on a world; limits and sleeps
-- are milliseconds.
pub mod Polling
pub mod Limits
use launch_cpp.Prelude.{
  ℕ, zero, suc, ◌+◌, ◌-◌, ◌*◌, ◌/◌, Bool, true, false, not, Option, none, some, List, [], ◌∷◌, ◌++◌,
  Str, codes, str_eq, ◌==◌, leb, ltb, is_empty, if◌then◌else◌,
}
use launch_cpp.Osal.{CommandLine, ProcessOptions, Signal, sigterm, sigkill}
use launch_cpp.Watchdog.{
  ProcessState, running, stopped, crashed, state_unknown, OsalStatus, success, error, timeout,
  invalid_argument,
}

-- `OsalResult<T>` with its status and message.
pub data Answer (A : Type 0) : Type 0 where
  answer : A → Answer A
  refusal : OsalStatus → Str → Answer A

-- What `kill` returns: 0, or -1 with ESRCH, EPERM, or another errno, and
-- its text.
pub data Sent : Type 0 where
  sent : Sent
  no_process : Str → Sent
  not_permitted : Str → Sent
  send_failed : Str → Sent

-- The status word of `waitpid`: an exit code, a signal number, or neither.
pub data Status : Type 0 where
  exits : ℕ → Status
  signals : ℕ → Status
  other_status : Status

-- What `waitpid` returns: the process identifier with a status, 0, or an error.
pub data Polled : Type 0 where
  ended : Status → Polled
  alive : Polled
  poll_failed : Str → Polled

-- What the child does before `execvp`, and the arguments of `execvp`.
pub record Child : Type 0 where
  pub directory : Str
  pub environment : List (Str × Str)
  pub discard_stdout : Bool
  pub discard_stderr : Bool
  pub argv : List Str

pub record Posix : Type 1 where
  pub World : Type 0
  -- The process identifier for the parent, or the error text.
  pub fork : Child → World → Answer ℕ × World
  pub getenv : Str → Option Str
  -- A signal, or `none` for the signal 0.
  pub send : ℕ → Option Signal → World → Sent × World
  -- `waitpid` with WNOHANG, and without.
  pub poll : ℕ → World → Polled × World
  pub wait : ℕ → World → Polled × World
  pub now : World → ℕ
  pub sleep : ℕ → World → World

-- An exit code; a signal number counts as its negative.
pub data ExitCode : Type 0 where
  code : ℕ → ExitCode
  minus : ℕ → ExitCode

pub record ProcessResult : Type 0 where
  pub pid : ℕ
  pub exit_code : ExitCode
  pub end_time : ℕ
  pub final_state : ProcessState

unfoldable pub begins_with_slash : Str → Bool
begins_with_slash [] = false
begins_with_slash (c ∷ cs) = c == 47

unfoldable pub build_result : ℕ → ℕ → Status → ProcessResult
build_result pid now (exits n) = record {
  pid = pid;
  exit_code = code n;
  end_time = now;
  final_state = if n == 0 then stopped else crashed;
}
build_result pid now (signals n) = record {
  pid = pid;
  exit_code = minus n;
  end_time = now;
  final_state = crashed;
}
build_result pid now other_status = record {
  pid = pid;
  exit_code = minus 1;
  end_time = now;
  final_state = state_unknown;
}

module _ (posix : Posix) where
  open posix use {World}

  unfoldable pub resolve_program_path : Str → Str
  unfolding begins_with_slash
  resolve_program_path program =
      if begins_with_slash program
      then program
      else if str_eq program (codes "ros2")
      then elim (posix.getenv (codes "ROS2_PATH")) [
        | some path ↦ path ++ codes "/bin/ros2"
        | none ↦ program
      ]
      else program

  unfoldable pub execute : CommandLine → ProcessOptions → World → Answer ℕ × World
  unfolding resolve_program_path
  execute command options w =
      if is_empty command.program
      then (refusal invalid_argument (codes "Program path is empty"), w)
      else posix.fork
          (record {
            directory = command.working_directory;
            environment = command.environment;
            discard_stdout = not options.capture_stdout;
            discard_stderr = not options.capture_stderr;
            argv = resolve_program_path command.program ∷ command.arguments;
          })
          w

  unfoldable pub waited : ℕ → Polled × World → Answer ProcessResult × World
  unfolding build_result
  waited pid (ended status, w) = (answer (build_result pid (posix.now w) status), w)
  waited pid (alive, w) = (answer (build_result pid (posix.now w) other_status), w)
  waited pid (poll_failed m, w) = (refusal error (codes "Wait failed: " ++ m), w)

  -- One round of the polling loop: `some` when the loop is left.
  unfoldable pub wait_round :
      (pid start limit : ℕ) → Polled × World → Option (Answer ProcessResult × World)
  unfolding waited
  wait_round pid start limit (alive, w) =
      if leb (limit * 1000000) (posix.now w - start)
      then some (refusal timeout (codes "Wait timeout"), w)
      else none
  wait_round pid start limit (ended status, w) = some (waited pid (ended status, w))
  wait_round pid start limit (poll_failed m, w) = some (waited pid (poll_failed m, w))

  -- The polling loop; `none` would mean that the fuel ran out.
  unfoldable pub wait_from :
      (fuel pid start limit : ℕ) → World → Option (Answer ProcessResult × World)
  unfolding wait_round
  wait_from zero pid start limit w = none
  wait_from (suc fuel) pid start limit w =
      let polled = posix.poll pid w in
      let rest = wait_from fuel pid start limit (posix.sleep 10 polled.1) in
      elim (wait_round pid start limit polled) [ some result ↦ some result | none ↦ rest ]

  -- Rounds of at least 10 ms, until the limit.
  abbrev pub rounds : ℕ → ℕ
  rounds limit = suc (suc (limit / 10))

  -- A limit of 0 waits for ever, as the source's negative limits do.
  unfoldable pub wait : (pid limit : ℕ) → World → Option (Answer ProcessResult × World)
  unfolding wait_from
  wait pid limit w =
      if ltb 0 limit
      then wait_from (rounds limit) pid (posix.now w) limit w
      else some (waited pid (posix.wait pid w))

  unfoldable pub is_running : ℕ → World → Answer Bool × World
  is_running pid w =
      let (result, v) = posix.send pid none w in
      (
        elim result [
          | sent ↦ answer true
          | no_process m ↦ answer false
          | not_permitted m ↦ answer true
          | send_failed m ↦ refusal error (codes "Check failed: " ++ m)
        ],
        v,
      )

  -- SIGKILL, and the wait for the process to die.
  unfoldable pub force : ℕ → World → World
  force pid w = (posix.wait pid (posix.send pid (some sigkill) w).1).1

  -- One round of the loop after SIGTERM: the world when the loop is left.
  unfoldable pub terminate_round : (pid start limit : ℕ) → Polled × World → Option World
  unfolding force
  terminate_round pid start limit (alive, w) =
      if leb (limit * 1000000) (posix.now w - start) then some (force pid w) else none
  terminate_round pid start limit (ended status, w) = some w
  terminate_round pid start limit (poll_failed m, w) = some w

  unfoldable pub terminate_from : (fuel pid start limit : ℕ) → World → Option World
  unfolding terminate_round
  terminate_from zero pid start limit w = none
  terminate_from (suc fuel) pid start limit w =
      let polled = posix.poll pid w in
      let rest = terminate_from fuel pid start limit (posix.sleep 10 polled.1) in
      elim (terminate_round pid start limit polled) [ some v ↦ some v | none ↦ rest ]

  abbrev pub succeed : Option World → Option (Answer (Unit {0}) × World)
  succeed none = none
  succeed (some w) = some (answer tt, w)

  unfoldable pub terminate_sent :
      (pid limit : ℕ) → Sent × World → Option (Answer (Unit {0}) × World)
  unfolding terminate_from
  terminate_sent pid limit (sent, w) =
      succeed (terminate_from (rounds limit) pid (posix.now w) limit w)
  terminate_sent pid limit (no_process m, w) = some (answer tt, w)
  terminate_sent pid limit (not_permitted m, w) =
      some (refusal error (codes "SIGTERM failed: " ++ m), w)
  terminate_sent pid limit (send_failed m, w) =
      some (refusal error (codes "SIGTERM failed: " ++ m), w)

  unfoldable pub terminate : (pid limit : ℕ) → World → Option (Answer (Unit {0}) × World)
  unfolding terminate_sent
  terminate pid limit w = terminate_sent pid limit (posix.send pid (some sigterm) w)

  unfoldable pub kill : ℕ → World → Answer (Unit {0}) × World
  kill pid w =
      let (result, v) = posix.send pid (some sigkill) w in
      elim result [
        | sent ↦ (answer tt, (posix.wait pid v).1)
        | no_process m ↦ (answer tt, v)
        | not_permitted m ↦ (refusal error (codes "SIGKILL failed: " ++ m), v)
        | send_failed m ↦ (refusal error (codes "SIGKILL failed: " ++ m), v)
      ]

  unfoldable pub get_state : ℕ → World → Answer ProcessState × World
  unfolding is_running
  get_state pid w =
      let (result, v) = is_running pid w in
      (
        elim result [
          | refusal status m ↦ refusal status m
          | answer alive_now ↦ answer (if alive_now then running else stopped)
        ],
        v,
      )

  unfoldable pub send_signal : ℕ → Signal → World → Answer (Unit {0}) × World
  send_signal pid signal w =
      let (result, v) = posix.send pid (some signal) w in
      elim result [
        | sent ↦ (answer tt, v)
        | no_process m ↦ (refusal error (codes "Send signal failed: " ++ m), v)
        | not_permitted m ↦ (refusal error (codes "Send signal failed: " ++ m), v)
        | send_failed m ↦ (refusal error (codes "Send signal failed: " ++ m), v)
      ]

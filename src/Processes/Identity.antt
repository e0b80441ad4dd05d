-- ===== src/Processes/Identity.antt =====
-- src/actions/execute_process.cpp: which process an attempt leaves behind.
use mathlib.Core.Path.{subst, sym}
use launch_cpp.Prelude.{
  if◌then◌else◌, ◌&&◌, ◌∙◌, ap, ℕ, ◌≡◌, refl, true, false, none, List, Str, ◌==◌, arith, Bool, not,
}
use launch_cpp.Errors.{ok, has_value, Result}
use launch_cpp.Osal.{Osal, OsalResult, done}
use launch_cpp.Processes.{
  ExecuteProcess, check_resources, command_line, process_options, started, execute_single_attempt,
  cleanup_before_retry, State,
}
use launch_cpp.Processes.Control.{get_pid, get_return_code}

second_branch :
    {A : Type 0} (b c : Bool) (x y z : A)
    → b ≡ true
    → c ≡ true
    → (if not b then x else if c then y else z) ≡ y
second_branch true true x y z h k = refl
second_branch true false x y z h k = cc
second_branch false c x y z h k = cc

module _ (osal : Osal) where
  pub execute_single_attempt-started :
      (cmd : List Str) (p : ExecuteProcess osal) (w : osal.World) (a : OsalResult ℕ × osal.World)
      → p.options.enable_safety ≡ true
      → p.process_executor ≡ true
      → (check_resources osal (p, w)).0 ≡ true
      → osal.start
          (command_line cmd)
          (process_options osal p.options)
          (check_resources osal (p, w)).1
        ≡ a
      → execute_single_attempt osal cmd (p, w) ≡ started osal p a
  unfolding execute_single_attempt
  execute_single_attempt-started cmd p w a safe executor enough starts =
      second_branch (check_resources osal (p, w)).0 (p.options.enable_safety && p.process_executor)
        _ _ _ enough (ground arith)
      ∙ ap (started osal p) starts

  -- In safety mode, with an executor and enough resources, when the executor starts a process
  -- with a number other than 0, the attempt succeeds, `get_pid` then gives this number, and the
  -- return code is not known yet. The clean-up before a retry forgets the process.
  pub execute_single_attempt-get_pid :
      (cmd : List Str) (p : ExecuteProcess osal) (w v : osal.World) (id : ℕ)
      → p.options.enable_safety ≡ true
      → p.process_executor ≡ true
      → (check_resources osal (p, w)).0 ≡ true
      → osal.start
          (command_line cmd)
          (process_options osal p.options)
          (check_resources osal (p, w)).1
        ≡ (done id, v)
      → id == 0 ≡ false
      → let after = execute_single_attempt osal cmd (p, w) in
        (has_value after.0 ≡ true)
        × (get_pid osal after.1.0 ≡ ok id)
        × (get_return_code osal after.1.0 ≡ ok none)
        × (has_value (get_pid osal (cleanup_before_retry osal after.1).0) ≡ false)
  unfolding started get_pid get_return_code cleanup_before_retry
  execute_single_attempt-get_pid cmd p w v id safe executor enough starts positive =
      subst Started
        (sym (execute_single_attempt-started cmd p w (done id, v) safe executor enough starts))
        (refl, ground arith, ground arith, ground arith)
    where
      Started : Result (Unit {0}) × State osal → Type 0
      Started after =
          (has_value after.0 ≡ true)
          × (get_pid osal after.1.0 ≡ ok id)
          × (get_return_code osal after.1.0 ≡ ok none)
          × (has_value (get_pid osal (cleanup_before_retry osal after.1).0) ≡ false)

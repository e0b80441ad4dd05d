-- ===== src/Processes/Outcomes.antt =====
-- src/actions/execute_process.cpp: which errors an execution can end with.
use launch_cpp.Prelude.{
  ◌∙◌, ℕ, ◌≡◌, refl, Bool, false, not, ◌&&◌, List, [], ◌∷◌, Str, if◌then◌else◌, arith, ltb,
  is_empty, contains, str_eq,
}
use launch_cpp.Errors.{
  ErrorCode, Error, Result, ok, err, has_value, process_spawn_failed, max_retries_exceeded,
  invalid_argument,
}
use launch_cpp.Context.{Context}
use launch_cpp.Osal.{Osal}
use launch_cpp.Processes.{
  ExecuteProcess, failure_code, execute_validated, execute, validate_and_escape_command, validate,
  resolve_command,
}

has_value-validate : (cmd : List Str) → has_value (validate cmd) ≡ not (contains [] cmd)
unfolding validate contains str_eq
has_value-validate [] = refl
has_value-validate ([] ∷ args) = refl
has_value-validate ((c ∷ arg) ∷ args) = ground (arith, has_value-validate args)

validate-code : (cmd : List Str) (e : Error) → validate cmd ≡ err e → e.code ≡ invalid_argument
unfolding validate
validate-code [] e h = ground arith
validate-code ([] ∷ args) e h = ground arith
validate-code ((c ∷ arg) ∷ args) e h = later (validate args) refl h (validate-code args)
  where
    later :
        (r : Result (List Str))
        → validate args ≡ r
        → validate ((c ∷ arg) ∷ args) ≡ err e
        → ((e' : Error) → validate args ≡ err e' → e'.code ≡ invalid_argument)
        → e.code ≡ invalid_argument
    later (ok cmd) same h before = ground arith
    later (err e') same h before = ground (arith, before e' same)

-- The arguments are there, and none of them is empty.
unfoldable pub is_runnable : List Str → Bool
is_runnable cmd = not (is_empty cmd) && not (contains [] cmd)

has_value-validate_and_escape_command :
    (cmd : List Str) → has_value (validate_and_escape_command cmd) ≡ is_runnable cmd
unfolding validate_and_escape_command is_runnable
has_value-validate_and_escape_command cmd = ground (arith, has_value-validate cmd)

validate_and_escape_command-code :
    (cmd : List Str) (e : Error)
    → validate_and_escape_command cmd ≡ err e
    → e.code ≡ invalid_argument
unfolding validate_and_escape_command
validate_and_escape_command-code cmd e h = ground (arith, validate-code cmd e)

module _ (osal : Osal) where
  -- Which error an execution of this command can end with.
  unfoldable pub final_code : (max_retries : ℕ) → List Str → ErrorCode
  final_code max_retries cmd =
      if not (is_runnable cmd)
      then invalid_argument
      else if ltb 0 max_retries
      then max_retries_exceeded
      else process_spawn_failed

  execute_validated-refuses :
      (r : Result (List Str)) (p : ExecuteProcess osal) (w : osal.World)
      → ((e : Error) → r ≡ err e → e.code ≡ invalid_argument)
      → has_value r ≡ false
      → ((execute_validated osal r (p, w)).1 ≡ (p, w))
        × (failure_code (execute_validated osal r (p, w)).0 ≡ invalid_argument)
  unfolding execute_validated
  execute_validated-refuses (err e) p w h fails = (refl, h e refl)
  execute_validated-refuses (ok cmd) p w h fails = ground arith

  -- A command that is empty or has an empty argument is refused with an error for an invalid
  -- argument, and neither the process nor the world changes.
  pub execute-refuses :
      (context : Context) (p : ExecuteProcess osal) (w : osal.World)
      → is_runnable (resolve_command osal context p.options.cmd) ≡ false
      → ((execute osal context (p, w)).1 ≡ (p, w))
        × (failure_code (execute osal context (p, w)).0 ≡ invalid_argument)
  unfolding execute
  execute-refuses context p w h =
      let cmd = resolve_command osal context p.options.cmd in
      execute_validated-refuses (validate_and_escape_command cmd) p w
        (validate_and_escape_command-code cmd) (has_value-validate_and_escape_command cmd ∙ h)

-- ===== src/Processes/Attempts.antt =====
-- src/actions/execute_process.cpp: the attempts of a process that is started again.
use launch_cpp.Prelude.{
  Bool, if◌then◌else◌, ◌⊎◌, inl, inr, ℕ, zero, suc, ◌≡◌, refl, true, false, List, Str, arith, ◌≤◌,
  ◌<◌, ◌∙◌, Option, none, some,
}
use launch_cpp.Errors.{ErrorCode, Result, has_value, process_spawn_failed}
use launch_cpp.Osal.{sigterm, Osal, OsalResult, done, failed}
use launch_cpp.Processes.{
  Process, with_process, calculate_retry_delay, stop_leftover, unregister, cleanup_before_retry,
  ExecuteProcess, State, failure_code, execute_single_attempt, started, spawned, is_retryable_error,
  prepare_retry, exhausted, retry_from, execute_with_retry,
}

-- A result that is a success or an error with this code.
abbrev pub EndsWith : ErrorCode → Result (Unit {0}) → Type 0
EndsWith code r = (has_value r ≡ true) ⊎ (failure_code r ≡ code)

module _ (osal : Osal) where
  started-EndsWith :
      (p : ExecuteProcess osal) (a : OsalResult ℕ × osal.World)
      → EndsWith process_spawn_failed (started osal p a).0
  unfolding started
  started-EndsWith p (done id, w) = inl refl
  started-EndsWith p (failed m, w) = inr refl

  spawned-EndsWith :
      (p : ExecuteProcess osal) (a : Option ℕ × osal.World)
      → EndsWith process_spawn_failed (spawned osal p a).0
  unfolding spawned
  spawned-EndsWith p (none, w) = inr refl
  spawned-EndsWith p (some id, w) = ground arith

  -- A failed attempt always reports that the process could not be spawned.
  pub attempt-EndsWith :
      (cmd : List Str) (s : State osal)
      → EndsWith process_spawn_failed (execute_single_attempt osal cmd s).0
  unfolding execute_single_attempt
  attempt-EndsWith cmd (p, w) = ground (arith, started-EndsWith p, spawned-EndsWith p)

  retryable_of :
      (r : Result (Unit {0}))
      → EndsWith process_spawn_failed r
      → has_value r ≡ false
      → is_retryable_error (failure_code r) ≡ true
  unfolding is_retryable_error
  retryable_of r h e = ground arith

  -- What is left of an earlier attempt gets SIGTERM and 100 ms when `waitpid` finds it alive.
  abbrev pub left_alone : Option Process → osal.World → osal.World
  left_alone none w = w
  left_alone (some p) w =
      if (osal.waitpid_nohang p.pid w).0
      then osal.sleep 100 (osal.send p.pid sigterm (osal.waitpid_nohang p.pid w).1)
      else (osal.waitpid_nohang p.pid w).1

  -- With a watchdog, a process whose number is known is watched no longer.
  abbrev pub unwatched : (watchdog : Bool) (process_id : ℕ) → osal.World → osal.World
  unwatched false id w = w
  unwatched true zero w = w
  unwatched true (suc id) w = osal.unregister_node (suc id) w

  -- The clean-up after a failed attempt and the delay before the attempt with this number.
  abbrev pub cleaned : ℕ → State osal → State osal
  cleaned number (p, w) = (
    with_process osal p none 0,
    osal.sleep (calculate_retry_delay osal p.options number)
        (unwatched p.watchdog p.process_id (left_alone p.process w)),
  )

  stop_leftover_lem :
      (process : Option Process) (w : osal.World)
      → stop_leftover osal process w ≡ left_alone process w
  unfolding stop_leftover
  stop_leftover_lem none w = refl
  stop_leftover_lem (some p) w = refl

  unregister_lem :
      (p : ExecuteProcess osal) (w : osal.World)
      → unregister osal p w ≡ unwatched p.watchdog p.process_id w
  unfolding unregister
  unregister_lem p w = ground arith

  pub prepare_retry_lem :
      (number : ℕ) (s : State osal) → prepare_retry osal number s ≡ cleaned number s
  unfolding prepare_retry cleanup_before_retry
  prepare_retry_lem number (p, w) =
      rw (stop_leftover_lem p.process w, unregister_lem p (left_alone p.process w)) refl

  module _ (cmd : List Str) where
    abbrev pub attempt : State osal → Result (Unit {0}) × State osal
    attempt s = execute_single_attempt osal cmd s

    -- The state before the attempt number k, counted from 0, when the earlier ones failed.
    unfoldable pub after_failures : (k number : ℕ) → State osal → State osal
    after_failures zero number s = s
    after_failures (suc k) number s =
        after_failures k (suc number) (cleaned (suc number) (attempt s).1)

    pub retry_from-success :
        (left number : ℕ) (s : State osal)
        → has_value (attempt s).0 ≡ true
        → retry_from osal cmd left number s ≡ attempt s
    unfolding retry_from
    retry_from-success zero number s h = ground arith
    retry_from-success (suc left) number s h = ground arith

    pub retry_from-failure :
        (left number : ℕ) (s : State osal)
        → has_value (attempt s).0 ≡ false
        → retry_from osal cmd (suc left) number s
          ≡ retry_from osal cmd left (suc number) (cleaned (suc number) (attempt s).1)
    unfolding retry_from
    retry_from-failure left number s h = ground (
      arith,
      retryable_of (attempt s).0 (attempt-EndsWith cmd s) h,
      prepare_retry_lem (suc number) (attempt s).1,
    )

    pub retry_from-last :
        (number : ℕ) (s : State osal)
        → has_value (attempt s).0 ≡ false
        → retry_from osal cmd 0 number s ≡ (exhausted, (attempt s).1)
    unfolding retry_from
    retry_from-last number s h = ground arith

    retry_from-stops :
        (left k number : ℕ) (s : State osal)
        → k ≤ left
        → ((i : ℕ) → i < k → has_value (attempt (after_failures i number s)).0 ≡ false)
        → has_value (attempt (after_failures k number s)).0 ≡ true
        → retry_from osal cmd left number s ≡ attempt (after_failures k number s)
    unfolding after_failures
    retry_from-stops left zero number s h fails works = retry_from-success left number s works
    retry_from-stops zero (suc k) number s h fails works = ground arith
    retry_from-stops (suc left) (suc k) number s h fails works =
        retry_from-failure left number s (fails 0 (omega arith))
        ∙ retry_from-stops left k (suc number) (cleaned (suc number) (attempt s).1) (omega arith)
            (λ i lt. fails (suc i) (omega arith)) works

    retry_from-gives_up :
        (left number : ℕ) (s : State osal)
        → ((i : ℕ) → i ≤ left → has_value (attempt (after_failures i number s)).0 ≡ false)
        → retry_from osal cmd left number s
          ≡ (exhausted, (attempt (after_failures left number s)).1)
    unfolding after_failures
    retry_from-gives_up zero number s fails = retry_from-last number s (fails 0 (omega arith))
    retry_from-gives_up (suc left) number s fails =
        retry_from-failure left number s (fails 0 (omega arith))
        ∙ retry_from-gives_up left (suc number) (cleaned (suc number) (attempt s).1)
            (λ i le. fails (suc i) (omega arith))

    -- When k attempts fail, attempt k + 1 succeeds, and at least k retries are allowed,
    -- `execute_with_retry` returns the success of attempt k + 1 and the state it leaves. After each
    -- failed attempt a process that is left gets SIGTERM if it is alive, its number is taken off
    -- the watchdog, process and number are cleared, and the delay of the coming attempt passes.
    pub execute_with_retry-stops :
        (p : ExecuteProcess osal) (w : osal.World) (k : ℕ)
        → k ≤ p.options.max_retries
        → ((i : ℕ) → i < k → has_value (attempt (after_failures i 0 (p, w))).0 ≡ false)
        → has_value (attempt (after_failures k 0 (p, w))).0 ≡ true
        → execute_with_retry osal cmd (p, w) ≡ attempt (after_failures k 0 (p, w))
    unfolding execute_with_retry
    execute_with_retry-stops p w k = retry_from-stops p.options.max_retries k 0 (p, w)

    -- When the first attempt and every allowed retry fail, `execute_with_retry` reports exhausted
    -- retries and leaves what the last attempt left, with no clean-up after it.
    pub execute_with_retry-gives_up :
        (p : ExecuteProcess osal) (w : osal.World)
        → ((i : ℕ)
            → i ≤ p.options.max_retries
            → has_value (attempt (after_failures i 0 (p, w))).0 ≡ false)
        → execute_with_retry osal cmd (p, w)
          ≡ (exhausted, (attempt (after_failures p.options.max_retries 0 (p, w))).1)
    unfolding execute_with_retry
    execute_with_retry-gives_up p w = retry_from-gives_up p.options.max_retries 0 (p, w)

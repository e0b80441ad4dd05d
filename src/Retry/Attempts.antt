-- ===== src/Retry/Attempts.antt =====
-- include/launch_cpp/safety/retry_policy.hpp: how often RetryPolicy::execute calls the operation
-- and how long it waits in between.
use mathlib.Core.Path.{subst, sym}
use launch_cpp.Prelude.{
  ℕ, zero, suc, ◌+◌, ◌<◌, ◌≡◌, Bool, true, false, not, List, [], ◌∷◌, if◌then◌else◌, arith, ◌∙◌, ap,
}
use launch_cpp.Retry.{
  Doubles, Run, RetryableResult, RetryConfig, is_success, get_error_code, should_retry,
  calculate_delay, attempts, execute, called, again, slept, returned, max_retries,
}

abbrev pub run : {A : Type 0} → RetryableResult A → ℕ → List ℕ → Run A
run r calls delays = record { result = r; calls = calls; delays = delays }

-- `attempt + k`, one attempt after another.
abbrev onward : ℕ → ℕ → ℕ
onward zero attempt = attempt
onward (suc k) attempt = onward k (suc attempt)

onward_lem : (k attempt : ℕ) → onward k attempt ≡ k + attempt
onward_lem zero attempt = omega arith
onward_lem (suc k) attempt = ground (arith, onward_lem k (suc attempt))

onward_zero : (k : ℕ) → onward k 0 ≡ k
onward_zero k = ground (arith, onward_lem k 0)

-- The delays after the attempts number `attempt`, `attempt + 1`, …, `count` of them.
unfoldable pub backoff : (doubles : Doubles) → RetryConfig doubles → (attempt count : ℕ) → List ℕ
backoff doubles config attempt zero = []
backoff doubles config attempt (suc count) =
    calculate_delay doubles config attempt ∷ backoff doubles config (suc attempt) count

module _ (doubles : Doubles) {A : Type 0} where
  -- A result that ends the run: a success, or an error that is not to be retried.
  unfoldable pub is_final : RetryConfig doubles → RetryableResult A → Bool
  is_final config r =
      if is_success r then true else not (should_retry doubles config (get_error_code r))

  module _ (config : RetryConfig doubles) (operation : ℕ → RetryableResult A) where
    attempts-final :
        (left attempt : ℕ)
        → is_final config (operation attempt) ≡ true
        → attempts doubles config operation (suc left) attempt ≡ run (operation attempt) 1 []
    unfolding attempts is_final called returned
    attempts-final left attempt h = ground arith

    attempts-again :
        (left attempt : ℕ)
        → is_final config (operation attempt) ≡ false
        → attempts doubles config operation (suc left) attempt
          ≡ called (
              again doubles config left
                (suc attempt)
                (attempts doubles config operation left (suc attempt)))
    unfolding attempts is_final
    attempts-again left attempt h = ground arith

    attempts_stop :
        (left attempt k : ℕ)
        → k < left
        → ((i : ℕ) → i < k → is_final config (operation (onward i attempt)) ≡ false)
        → is_final config (operation (onward k attempt)) ≡ true
        → attempts doubles config operation left attempt
          ≡ run (operation (onward k attempt)) (suc k) (backoff doubles config (suc attempt) k)
    unfolding backoff called again slept
    attempts_stop zero attempt k h retried final = ground arith
    attempts_stop (suc left) attempt zero h retried final = attempts-final left attempt final
    attempts_stop (suc zero) attempt (suc k) h retried final = ground arith
    attempts_stop (suc (suc left)) attempt (suc k) h retried final =
        attempts-again (suc left) attempt (retried 0 (omega arith))
        ∙ ap (λ r. called (again doubles config (suc left) (suc attempt) r))
            (attempts_stop (suc left) (suc attempt) k (omega arith)
              (λ i lt. retried (suc i) (omega arith)) final)

    attempts-run_out :
        (left attempt : ℕ)
        → ((i : ℕ) → i < suc left → is_final config (operation (onward i attempt)) ≡ false)
        → attempts doubles config operation (suc left) attempt
          ≡ run (max_retries doubles config) (suc left) (backoff doubles config (suc attempt) left)
    unfolding backoff called again slept attempts returned
    attempts-run_out zero attempt retried = attempts-again zero attempt (retried 0 (omega arith))
    attempts-run_out (suc left) attempt retried =
        attempts-again (suc left) attempt (retried 0 (omega arith))
        ∙ ap (λ r. called (again doubles config (suc left) (suc attempt) r))
            (attempts-run_out left (suc attempt) (λ i lt. retried (suc i) (omega arith)))

    -- When the first k results are errors to retry, the next one is a success or an error not to
    -- be retried, and k + 1 attempts are allowed, `execute` returns that result after k + 1 calls
    -- and has slept `calculate_delay` of 1, …, k.
    pub execute_stops :
        (k : ℕ)
        → k < config.max_attempts
        → ((i : ℕ) → i < k → is_final config (operation i) ≡ false)
        → is_final config (operation k) ≡ true
        → execute doubles config operation ≡ run (operation k) (suc k) (backoff doubles config 1 k)
    unfolding execute
    execute_stops k h retried final =
        subst
          (λ n.
            execute doubles config operation
            ≡ run (operation n) (suc k) (backoff doubles config 1 k))
          (onward_zero k)
          (attempts_stop config.max_attempts 0 k h
            (λ i lt.
              subst (λ n. is_final config (operation n) ≡ false) (sym (onward_zero i))
                (retried i lt))
            (subst (λ n. is_final config (operation n) ≡ true) (sym (onward_zero k)) final))

    -- When every allowed attempt returns an error to retry, and at least one is allowed,
    -- `execute` returns the error for exhausted retries, whatever the last error was, after exactly
    -- the allowed calls, and has slept between them, never after the last.
    pub execute_gives_up :
        (left : ℕ)
        → config.max_attempts ≡ suc left
        → ((i : ℕ) → i < suc left → is_final config (operation i) ≡ false)
        → execute doubles config operation
          ≡ run (max_retries doubles config) (suc left) (backoff doubles config 1 left)
    unfolding execute
    execute_gives_up left h retried =
        ap (λ n. attempts doubles config operation n 0) h
        ∙ attempts-run_out left 0 (λ i lt.
          subst (λ n. is_final config (operation n) ≡ false) (sym (onward_zero i)) (retried i lt))

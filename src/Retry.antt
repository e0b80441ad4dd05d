-- ===== src/Retry.antt =====
-- include/launch_cpp/safety/retry_policy.hpp: running an operation again when it fails. What the
-- operation returns at its first, second, … call is a sequence, so the operation may keep state.
pub mod Attempts
use launch_cpp.Prelude.{
  ℕ, zero, suc, ◌+◌, ◌-◌, Bool, true, false, not, List, [], ◌∷◌, ◌++◌, Str, codes, ◌/◌, ◌%◌, ◌==◌,
  ltb, if◌then◌else◌,
}

-- The error codes of this header, not those of error_code.hpp.
pub data ErrorCode : Type 0 where
  success fork_failed exec_failed timeout resource_exhausted : ErrorCode
  permission_denied config_invalid max_retries_exceeded unknown : ErrorCode

abbrev pub number : ErrorCode → ℕ
number success = 0
number fork_failed = 1
number exec_failed = 2
number timeout = 3
number resource_exhausted = 4
number permission_denied = 5
number config_invalid = 6
number max_retries_exceeded = 7
number unknown = 999

-- `double`, as far as this header uses it.
pub record Doubles : Type 1 where
  pub Double : Type 0
  pub one : Double
  pub times : Double → Double → Double
  -- `static_cast<uint32_t>(count * multiplier)`.
  pub scale : ℕ → Double → ℕ

-- `RetryableResult<T>`.
pub data RetryableResult (A : Type 0) : Type 0 where
  succeeded : A → RetryableResult A
  failed : ErrorCode → Str → RetryableResult A

-- What a run returns, how often it called the operation, and how long it slept each time.
pub record Run (A : Type 0) : Type 0 where
  pub result : RetryableResult A
  pub calls : ℕ
  pub delays : List ℕ

unfoldable pub is_success : {A : Type 0} → RetryableResult A → Bool
is_success (succeeded a) = true
is_success (failed c m) = false

unfoldable pub get_error_code : {A : Type 0} → RetryableResult A → ErrorCode
get_error_code (succeeded a) = success
get_error_code (failed c m) = c

-- The rest of a run after one more call.
unfoldable pub called : {A : Type 0} → Run A → Run A
called rest = record { result = rest.result; calls = suc rest.calls; delays = rest.delays }

unfoldable pub slept : {A : Type 0} → ℕ → Run A → Run A
slept delay rest = record { result = rest.result; calls = rest.calls; delays = delay ∷ rest.delays }

unfoldable pub returned : {A : Type 0} → RetryableResult A → Run A
returned r = record { result = r; calls = 0; delays = [] }

unfoldable pub has_code : ErrorCode → List ErrorCode → Bool
has_code code [] = false
has_code code (c ∷ cs) = if number c == number code then true else has_code code cs

-- `std::to_string`, by the digits still allowed.
unfoldable pub digits : ℕ → ℕ → Str
digits zero n = []
digits (suc fuel) n =
    let front = digits fuel (n / 10) in
    if ltb n 10 then (48 + n) ∷ [] else front ++ (48 + n % 10) ∷ []

unfoldable pub to_string : ℕ → Str
unfolding digits
to_string n = digits (suc n) n

module _ (doubles : Doubles) where
  open doubles use {Double, one, times, scale}

  pub record RetryConfig : Type 0 where
    pub max_attempts : ℕ
    pub initial_delay : ℕ
    pub backoff_multiplier : Double
    pub retryable_errors : List ErrorCode

  abbrev pub default_config : RetryConfig
  default_config = record {
    max_attempts = 3;
    initial_delay = 5000;
    backoff_multiplier = one;
    retryable_errors = fork_failed ∷ resource_exhausted ∷ timeout ∷ [];
  }

  unfoldable pub is_retryable : RetryConfig → ErrorCode → Bool
  unfolding has_code
  is_retryable config code = has_code code config.retryable_errors

  unfoldable pub should_retry : RetryConfig → ErrorCode → Bool
  unfolding is_retryable
  should_retry config code = is_retryable config code

  -- `for (i = 1; i < attempt_number; ++i) multiplier *= backoff`, by the rounds left.
  unfoldable pub multiply : Double → ℕ → Double → Double
  multiply backoff zero multiplier = multiplier
  multiply backoff (suc rounds) multiplier = multiply backoff rounds (times multiplier backoff)

  unfoldable pub calculate_delay : RetryConfig → ℕ → ℕ
  unfolding multiply
  calculate_delay config zero = 0
  calculate_delay config (suc rounds) =
      scale config.initial_delay (multiply config.backoff_multiplier rounds one)

  unfoldable pub max_retries : {A : Type 0} → RetryConfig → RetryableResult A
  unfolding to_string
  max_retries config =
      failed max_retries_exceeded
        (codes "Max retry attempts (" ++ (to_string config.max_attempts ++ codes ") exceeded"))

  -- The end of a round: `attempt >= max_attempts` when no attempt is left.
  unfoldable pub again : {A : Type 0} → RetryConfig → (left attempt : ℕ) → Run A → Run A
  unfolding slept
  again config zero attempt rest = rest
  again config (suc left) attempt rest = slept (calculate_delay config attempt) rest

  -- The `while` loop, by the attempts left: `left + attempt` is `max_attempts`.
  unfoldable pub attempts : {A : Type 0} → RetryConfig → (ℕ → RetryableResult A) → ℕ → ℕ → Run A
  unfolding called returned again is_success get_error_code should_retry max_retries
  attempts config operation zero attempt = returned (max_retries config)
  attempts config operation (suc left) attempt =
      let rest = attempts config operation left (suc attempt) in
      let last = operation attempt in
      called (
        if is_success last
        then returned last
        else if not (should_retry config (get_error_code last))
        then returned last
        else again config left (suc attempt) rest)

  unfoldable pub execute : {A : Type 0} → RetryConfig → (ℕ → RetryableResult A) → Run A
  unfolding attempts
  execute config operation = attempts config operation config.max_attempts 0

-- `NoRetryPolicy::execute`.
unfoldable pub execute_once : {A : Type 0} → (ℕ → RetryableResult A) → Run A
unfolding called returned
execute_once operation = called (returned (operation 0))

-- `FixedRetryPolicy::execute`; the last result starts as the default one, a success.
unfoldable pub fixed_attempts :
    {A : Type 0} → ℕ → (ℕ → RetryableResult A) → ℕ → ℕ → RetryableResult A → Run A
unfolding called returned slept is_success
fixed_attempts delay operation zero attempt last = returned last
fixed_attempts delay operation (suc left) attempt last =
    let result = operation attempt in
    let rest = fixed_attempts delay operation left (suc attempt) result in
    called
      (if is_success result then returned result else if ltb 0 left then slept delay rest else rest)

unfoldable pub execute_fixed : {A : Type 0} → A → ℕ → ℕ → (ℕ → RetryableResult A) → Run A
unfolding fixed_attempts
execute_fixed initial max_attempts delay operation =
    fixed_attempts delay operation max_attempts 0 (succeeded initial)

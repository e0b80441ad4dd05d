-- ===== src/Examples/Starting.antt =====
-- Starting a process that fails twice, running an operation again, and quoting.
use launch_cpp.Substitutions.{perform}
use launch_cpp.Prelude.{◌==◌}
use launch_cpp.Processes.{check_resources, command_line, process_options, execute_single_attempt}
use launch_cpp.Prelude.{contains, str_eq}
use launch_cpp.Processes.{execute_single_attempt}
use launch_cpp.Retry.{calculate_delay, get_error_code, is_success, should_retry}
use launch_cpp.Prelude.{
  ℕ, zero, suc, ◌*◌, ◌≡◌, ◌≤◌, ◌<◌, refl, true, false, Option, none, some, List, [], ◌∷◌, Str,
  codes, ltb, arith, ◌++◌,
}
use launch_cpp.Errors.{has_value}
use launch_cpp.Context.{new_context}
use launch_cpp.Substitutions.{Substitution, text}
use launch_cpp.Retry.{
  Doubles, RetryConfig, RetryableResult, succeeded, failed, timeout, permission_denied, max_retries,
  default_config,
}
use launch_cpp.Retry
use launch_cpp.Retry.Attempts.{run, is_final, backoff, execute_stops, execute_gives_up}
use launch_cpp.Commands.{NodeActionOptions, escape_argument, validate_options, success}
use launch_cpp.Commands.Quoting.{is_operator, has_meaning, read_word, read_word-escape_argument}
use launch_cpp.Osal
use launch_cpp.Osal.{Osal, OsalResult, CommandLine, ProcessOptions}
use launch_cpp.Processes.{
  ExecuteProcess, exhausted, execute_with_retry, execute, resolve_command, calculate_retry_delay,
}
use launch_cpp.Osal
use launch_cpp.Processes.Attempts.{
  attempt, after_failures, execute_with_retry-stops, execute_with_retry-gives_up,
}
use launch_cpp.Processes.Outcomes.{is_runnable}

abbrev doubles : Doubles
doubles = record { Double = ℕ; one = 1; times = λ a b. a * b; scale = λ n d. n * d }

abbrev config : RetryConfig doubles
config = record {
  max_attempts = 3;
  initial_delay = 100;
  backoff_multiplier = 2;
  retryable_errors = timeout ∷ [];
}

-- Two timeouts, then a value.
abbrev operation : ℕ → RetryableResult ℕ
operation zero = failed timeout []
operation (suc zero) = failed timeout []
operation (suc (suc n)) = succeeded 42

operation_fails : (i : ℕ) → i < 2 → is_final doubles config (operation i) ≡ false
unfolding is_final is_success should_retry get_error_code
operation_fails zero h = refl
operation_fails (suc zero) h = refl
operation_fails (suc (suc i)) h = ground arith

operation_works : is_final doubles config (operation 2) ≡ true
unfolding is_final is_success
operation_works = refl

two_below_three : 2 < config.max_attempts
two_below_three = omega arith

execute_stops_example :
    Retry.execute doubles config operation ≡ run (operation 2) 3 (backoff doubles config 1 2)
execute_stops_example =
    execute_stops doubles config operation 2 two_below_three operation_fails operation_works

delays_test : backoff doubles config 1 2 ≡ 100 ∷ 200 ∷ []
unfolding backoff calculate_delay
delays_test = refl

abbrev times_out : ℕ → RetryableResult ℕ
times_out n = failed timeout []

times_out_fails : (i : ℕ) → i < 3 → is_final doubles config (times_out i) ≡ false
unfolding is_final is_success should_retry get_error_code
times_out_fails i h = refl

three_attempts : config.max_attempts ≡ 3
three_attempts = refl

execute_gives_up_example :
    Retry.execute doubles config times_out
    ≡ run (max_retries doubles config) 3 (backoff doubles config 1 2)
execute_gives_up_example =
    execute_gives_up doubles config times_out 2 three_attempts times_out_fails

-- `say "hi" \`
abbrev spoken : Str
spoken = codes "say \"hi\" \\"

spoken_has_none : has_meaning spoken ≡ false
unfolding has_meaning is_operator
spoken_has_none = refl

read_word-escape_argument_example :
    read_word (escape_argument spoken ++ 32 ∷ codes "next") ≡ some (spoken, 32 ∷ codes "next")
read_word-escape_argument_example =
    read_word-escape_argument 115 (codes "ay \"hi\" \\") (codes "next") spoken_has_none

abbrev options : NodeActionOptions
options = record {
  package_name = codes "demo_nodes_cpp";
  executable = codes "talker";
  name = codes "test_talker";
  namespace = codes "/test_ns";
}

options_are_valid : (validate_options options).status ≡ success
unfolding validate_options
options_are_valid = refl

-- A world is the number of attempts made; the third and later ones start process 42.
abbrev start_third : CommandLine → ProcessOptions → ℕ → OsalResult ℕ × ℕ
start_third command process_options zero = (Osal.failed (codes "no memory"), 1)
start_third command process_options (suc zero) = (Osal.failed (codes "no memory"), 2)
start_third command process_options (suc (suc n)) = (Osal.done 42, suc (suc (suc n)))

abbrev pub osal : Osal
osal = record {
  doubles = doubles;
  is_positive = λ d. ltb 0 d;
  system = record { popen = λ cmd. none; is_executable = λ path. false };
  World = ℕ;
  start = start_third;
  wait = λ pid w. w;
  terminate_within = λ pid period w. (Osal.done tt, w);
  kill_process = λ pid w. (Osal.done tt, w);
  signal_process = λ pid signal w. w;
  process_is_running = λ pid w. (Osal.done true, w);
  are_resources_available = λ memory w. (Osal.done true, w);
  set_resource_limits = λ pid memory cpu w. w;
  register_node = λ id period w. (Osal.done tt, w);
  unregister_node = λ id w. w;
  spawn = λ cmd w. (none, w);
  waitpid = λ pid w. (none, w);
  waitpid_nohang = λ pid w. (false, w);
  send = λ pid signal w. w;
  sleep = λ period w. w;
  log = λ line w. w;
}

abbrev with_retries : ℕ → List (Option Substitution) → ExecuteProcess osal
with_retries n cmd = record {
  options = record {
    cmd = cmd;
    output = codes "log";
    sigterm_timeout = 5;
    enable_safety = true;
    max_memory_bytes = 0;
    max_cpu_percent = 0;
    watchdog_timeout_ms = 1000;
    max_retries = n;
    retry_delay = 5000;
    retry_backoff_multiplier = 1;
  };
  process = none;
  process_id = 0;
  process_executor = true;
  resource_monitor = true;
  watchdog = true;
}

abbrev talker : List Str
talker = codes "talker" ∷ []

abbrev talker_texts : List (Option Substitution)
talker_texts = none ∷ some (text (codes "talker")) ∷ []

two_attempts_fail :
    (i : ℕ)
    → i < 2
    → has_value
        (attempt osal talker (after_failures osal talker i 0 (with_retries 2 talker_texts, 0))).0
      ≡ false
unfolding execute_single_attempt after_failures calculate_retry_delay
two_attempts_fail zero h = refl
two_attempts_fail (suc zero) h = refl
two_attempts_fail (suc (suc i)) h = ground arith

third_attempt_works :
    has_value
      (attempt osal talker (after_failures osal talker 2 0 (with_retries 2 talker_texts, 0))).0
    ≡ true
unfolding execute_single_attempt after_failures calculate_retry_delay
third_attempt_works = refl

two_retries : 2 ≤ (with_retries 2 talker_texts).options.max_retries
two_retries = omega arith

execute_with_retry-stops_example :
    execute_with_retry osal talker (with_retries 2 talker_texts, 0)
    ≡ attempt osal talker (after_failures osal talker 2 0 (with_retries 2 talker_texts, 0))
execute_with_retry-stops_example =
    execute_with_retry-stops osal talker (with_retries 2 talker_texts) 0 2 two_retries
      two_attempts_fail third_attempt_works

two_retries_fail :
    (i : ℕ)
    → i ≤ 1
    → has_value
        (attempt osal talker (after_failures osal talker i 0 (with_retries 1 talker_texts, 0))).0
      ≡ false
unfolding execute_single_attempt after_failures calculate_retry_delay
two_retries_fail zero h = refl
two_retries_fail (suc zero) h = refl
two_retries_fail (suc (suc i)) h = ground arith

execute_with_retry-gives_up_example :
    execute_with_retry osal talker (with_retries 1 talker_texts, 0) ≡ (
      exhausted,
      (attempt osal talker (after_failures osal talker 1 0 (with_retries 1 talker_texts, 0))).1,
    )
execute_with_retry-gives_up_example =
    execute_with_retry-gives_up osal talker (with_retries 1 talker_texts) 0 two_retries_fail

not_runnable : is_runnable (resolve_command osal (new_context []) (some (text []) ∷ [])) ≡ false
unfolding is_runnable resolve_command contains str_eq perform
not_runnable = refl

has_safety : (with_retries 0 talker_texts).options.enable_safety ≡ true
has_safety = refl

has_executor : (with_retries 0 talker_texts).process_executor ≡ true
has_executor = refl

has_resources : (check_resources osal (with_retries 0 talker_texts, 2)).0 ≡ true
unfolding check_resources
has_resources = refl

starts_42 :
    osal.start
      (command_line talker)
      (process_options osal (with_retries 0 talker_texts).options)
      (check_resources osal (with_retries 0 talker_texts, 2)).1
    ≡ (Osal.done 42, 3)
unfolding check_resources
starts_42 = refl

is_not_zero : 42 == 0 ≡ false
is_not_zero = refl

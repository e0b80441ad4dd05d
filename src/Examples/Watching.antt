-- ===== src/Examples/Watching.antt =====
-- A process that is started under the POSIX watchdog.
use launch_cpp.Prelude.{◌≡◌, refl, true, false, none, some, List, [], ◌∷◌, Str, codes, ◌==◌, ltb}
use launch_cpp.Osal.{Osal, done}
use launch_cpp.Watchdog.{new_watchdog, new_node, find_node}
use launch_cpp.Processes.{
  ExecuteProcess, check_resources, command_line, process_options, execute_single_attempt,
  cleanup_before_retry,
}
use launch_cpp.Supervision.{supervised}
use launch_cpp.Supervision.Registration.{execute_single_attempt-find_node}
use launch_cpp.Examples.Starting.{osal}

-- A world is a number of attempts, and serves as the clock.
abbrev watched : Osal
watched = supervised osal (λ w. w)

abbrev process : ExecuteProcess watched
process = record {
  options = record {
    cmd = [];
    output = codes "screen";
    sigterm_timeout = 5;
    enable_safety = true;
    max_memory_bytes = 1000;
    max_cpu_percent = 0;
    watchdog_timeout_ms = 1000;
    max_retries = 0;
    retry_delay = 5000;
    retry_backoff_multiplier = 1;
  };
  process = none;
  process_id = 0;
  process_executor = true;
  resource_monitor = true;
  watchdog = true;
}

abbrev cmd : List Str
cmd = codes "talker" ∷ []

is_safe_process : process.options.enable_safety ≡ true
is_safe_process = refl

has_an_executor : process.process_executor ≡ true
has_an_executor = refl

has_enough : (check_resources watched (process, (2, new_watchdog))).0 ≡ true
unfolding check_resources
has_enough = refl

starts_process :
    watched.start
      (command_line cmd)
      (process_options watched process.options)
      (check_resources watched (process, (2, new_watchdog))).1
    ≡ (done 42, (3, new_watchdog))
unfolding check_resources
starts_process = refl

has_watchdog : process.watchdog ≡ true
has_watchdog = refl

has_timeout : ltb 0 process.options.watchdog_timeout_ms ≡ true
has_timeout = refl

is_fresh : find_node 42 new_watchdog.nodes ≡ none
unfolding find_node
is_fresh = refl

is_numbered : 42 == 0 ≡ false
is_numbered = refl

execute_single_attempt-find_node_example :
    (find_node 42 (execute_single_attempt watched cmd (process, (2, new_watchdog))).1.1.1.nodes
      ≡ some (new_node 42 1000 false 3))
    × (find_node 42
          (cleanup_before_retry watched
            (execute_single_attempt watched cmd (process, (2, new_watchdog))).1).1.1.nodes
        ≡ none)
execute_single_attempt-find_node_example =
    execute_single_attempt-find_node osal (λ w. w) cmd process 2 3 new_watchdog 42 is_safe_process
      has_an_executor has_enough starts_process has_watchdog has_timeout is_fresh is_numbered

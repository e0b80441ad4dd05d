-- ===== src/Examples/Stopping.antt =====
-- Stopping and waiting for a process that ignores SIGTERM, on a clock that only sleeping moves.
use launch_cpp.Prelude.{ℕ, ◌+◌, ◌-◌, ◌*◌, ◌≤◌, ◌≡◌, refl, true, none, some, arith, is_some}
use launch_cpp.Osal.{sigterm, sigkill}
use launch_cpp.Executor.{Posix, answer, sent, alive, ended, signals, terminate}
use launch_cpp.Executor.Polling.{IsSteady, terminate_total}
use launch_cpp.Executor.Limits.{IsStubborn, terminate_forces}

abbrev posix : Posix
posix = record {
  World = ℕ;
  fork = λ child w. (answer 42, w);
  getenv = λ name. none;
  send = λ pid signal w. (sent, w);
  poll = λ pid w. (alive, w);
  wait = λ pid w. (ended (signals 9), w);
  now = λ w. w;
  sleep = λ period w. w + period * 1000000;
}

posix-IsSteady : IsSteady posix
posix-IsSteady = record { polls = λ pid w. omega arith; sleeps = λ period w. omega arith }

posix-IsStubborn : IsStubborn posix 42
posix-IsStubborn w = refl

terminate_total_example : is_some (terminate posix 42 15 0) ≡ true
terminate_total_example = terminate_total posix posix-IsSteady 42 15 0

sends_sigterm : (posix.send 42 (some sigterm) 0).0 ≡ sent
sends_sigterm = refl

terminate_forces_example :
    (u : ℕ) × (terminate posix 42 15 0
      ≡ some (answer tt, (posix.wait 42 (posix.send 42 (some sigkill) u).1).1))
    × (15 * 1000000 ≤ u - 0)
terminate_forces_example =
    terminate_forces posix 42 15 0 posix-IsSteady posix-IsStubborn sends_sigterm

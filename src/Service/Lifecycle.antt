-- ===== src/Service/Lifecycle.antt =====
-- The life of a launch service: idle, then running, then stopped, and never back.
use launch_cpp.Prelude.{
  Str, ℕ, ◌≤◌, ◌≡◌, ◌≢◌, ◌↔◌, Bool, true, none, some, List, [], ◌∷◌, arith, if◌then◌else◌, ◌&&◌,
}
use launch_cpp.Prelude.Ordered.{Map}
use launch_cpp.Actions.{Host}
use launch_cpp.Service.{
  Status, idle, running, shutting_down, stopped, Service, create, visit_all, run, Call, runs,
  includes, shuts_down, step, steps,
}

abbrev pub stage : Status → ℕ
stage idle = 0
stage running = 1
stage shutting_down = 2
stage stopped = 3

module _ (host : Host) where
  -- Between calls the service is not shutting down, and shutdown was requested exactly when it
  -- has stopped.
  pub record IsSettled (s : Service host) : Type 0 where
    pub at_rest : s.status ≢ shutting_down
    pub requested : (s.shutdown_requested ≡ true) ↔ (s.status ≡ stopped)

  step-stage :
      (s : Service host) (call : Call host) → stage s.status ≤ stage (step host s call).status
  unfolding step
  step-stage s (runs b) = ground arith
  step-stage s (includes none) = ground arith
  step-stage s (includes (some d)) = ground arith
  step-stage s shuts_down = ground arith

  step-IsSettled :
      (s : Service host) (call : Call host) → IsSettled s → IsSettled (step host s call)
  unfolding step
  step-IsSettled s (runs b) h = ground arith
  step-IsSettled s (includes none) h = h
  step-IsSettled s (includes (some d)) h = record { at_rest = h.at_rest; requested = h.requested }
  step-IsSettled s shuts_down h = ground arith

  steps-stage :
      (s : Service host) (calls : List (Call host))
      → stage s.status ≤ stage (steps host s calls).status
  unfolding steps
  steps-stage s [] = omega arith
  steps-stage s (call ∷ calls) =
      omega (arith, steps-stage (step host s call) calls, step-stage s call)

  steps-IsSettled :
      (s : Service host) (calls : List (Call host)) → IsSettled s → IsSettled (steps host s calls)
  unfolding steps
  steps-IsSettled s [] h = h
  steps-IsSettled s (call ∷ calls) h =
      steps-IsSettled (step host s call) calls (step-IsSettled s call h)

  create-IsSettled :
      (environment : Map Str) (w : host.World) → IsSettled (create host environment w)
  create-IsSettled environment w = record { at_rest = λ e. cc; requested = (λ e. cc, λ e. cc) }

  run-starts : (b : Bool) (s : Service host) → s.status ≡ idle → 1 ≤ stage (run host b s).0.status
  unfolding run
  run-starts b s e = ground arith

  run-refused : (b : Bool) (s : Service host) → s.status ≢ idle → run host b s ≡ (s, 1)
  unfolding run
  run-refused b s h = ground arith

-- After any calls on a new service, whatever its environment, it is not left shutting down, and shutdown was requested
-- exactly when it has stopped.
pub create-steps-IsSettled :
    (host : Host) (environment : Map Str) (w : host.World) (calls : List (Call host))
    → IsSettled host (steps host (create host environment w) calls)
create-steps-IsSettled host environment w calls =
    steps-IsSettled host (create host environment w) calls (create-IsSettled host environment w)

-- A service runs once: after a first `run` from the idle state and any calls that follow, another
-- `run` returns 1 and leaves the service as it is, so no description is visited again.
pub run_once :
    (host : Host) (s : Service host) (first again : Bool) (calls : List (Call host))
    → s.status ≡ idle
    → let later = steps host (run host first s).0 calls in run host again later ≡ (later, 1)
run_once host s first again calls e =
    run-refused host again (steps host (run host first s).0 calls) (λ idle_again.
      ground
        (arith, idle_again, run-starts host first s e, steps-stage host (run host first s).0 calls))

-- A run of an idle service exits with 0 when it meets no failing description and with 1 when it
-- does. It leaves the service stopped when all descriptions succeed and it was told to shut down
-- when idle, and running otherwise, and it keeps the descriptions.
pub run_idle :
    (host : Host) (s : Service host) (shutdown_when_idle : Bool)
    → s.status ≡ idle
    → let after = run host shutdown_when_idle s in
      let succeeds = (visit_all host s.descriptions s.state).0 in
      (after.1 ≡ (if succeeds then 0 else 1))
      × (after.0.status ≡ (if succeeds && shutdown_when_idle then stopped else running))
      × (after.0.descriptions ≡ s.descriptions)
unfolding run
run_idle host s b e = (ground arith, ground arith, ground arith)

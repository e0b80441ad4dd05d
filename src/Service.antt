-- ===== src/Service.antt =====
-- src/launch_service.cpp: the service that runs launch descriptions. Its methods take effect one
-- at a time here; the descriptions are copied under the lock before `run` visits them.
pub mod Lifecycle
use launch_cpp.Prelude.{
  ℕ, Bool, true, false, Option, none, some, List, [], ◌∷◌, ◌++◌, Str, codes, if◌then◌else◌,
}
use launch_cpp.Errors.{Error, no_error, error, invalid_argument, Result, ok, err}
use launch_cpp.Context.{Context, new_context}
use launch_cpp.Prelude.Ordered.{Map}
use launch_cpp.Actions.{Actions, Host, State, visit_description}

pub data Status : Type 0 where
  idle running shutting_down stopped : Status

abbrev pub is : Status → Status → Bool
is idle idle = true
is running running = true
is shutting_down shutting_down = true
is stopped stopped = true
is _ _ = false

module _ (host : Host) where
  pub record Service : Type 0 where
    pub status : Status
    pub shutdown_requested : Bool
    -- `none` is a null description.
    pub descriptions : List (Option Actions)
    pub state : State host

  -- The constructor: the context is empty but for the environment of the process.
  abbrev pub create : (environment : Map Str) → host.World → Service
  create environment w = record {
    status = idle;
    shutdown_requested = false;
    descriptions = [];
    state = (new_context environment, w);
  }

  -- `compare_exchange_strong(expected, desired)` on the status.
  abbrev pub exchange : Status → Status → Service → Option Service
  exchange expected desired s =
      if is s.status expected then some (record s { status = desired }) else none

  abbrev finish_shutdown : Service → Option Service → Service
  finish_shutdown s none = s
  finish_shutdown s (some s') = record s' { shutdown_requested = true; status = stopped }

  unfoldable pub shutdown : Service → Service × Error
  shutdown s = (finish_shutdown s (exchange running shutting_down s), no_error)

  unfoldable pub include_launch_description : Option Actions → Service → Service × Error
  include_launch_description none s = (s, error invalid_argument (codes "Null launch description"))
  include_launch_description (some description) s =
      (record s { descriptions = s.descriptions ++ some description ∷ [] }, no_error)

  -- The loop over the descriptions: whether all of them succeeded, and the state they leave.
  unfoldable pub visit_all : List (Option Actions) → State host → Bool × State host
  visit_all [] s = (true, s)
  visit_all (none ∷ descriptions) s = visit_all descriptions s
  visit_all (some description ∷ descriptions) s = elim (visit_description host description s).0 [
    | ok found ↦ visit_all descriptions (visit_description host description s).1
    | err e ↦ (false, (visit_description host description s).1)
  ]

  abbrev run_started : Bool → Service → Service × ℕ
  run_started shutdown_when_idle s =
      let (succeeded, state') = visit_all s.descriptions s.state in
      let visited = record s { state = state' } in
      if succeeded
      then (if shutdown_when_idle then (shutdown visited).0 else visited, 0)
      else (visited, 1)

  abbrev run_exchanged : Bool → Service → Option Service → Service × ℕ
  run_exchanged shutdown_when_idle s none = (s, 1)
  run_exchanged shutdown_when_idle s (some s') = run_started shutdown_when_idle s'

  -- The new service and the exit code.
  unfoldable pub run : Bool → Service → Service × ℕ
  unfolding visit_all shutdown
  run shutdown_when_idle s = run_exchanged shutdown_when_idle s (exchange idle running s)

  unfoldable pub is_running : Service → Bool
  is_running s = is s.status running

  unfoldable pub is_idle : Service → Bool
  is_idle s = is s.status idle

  -- The source drops the event.
  unfoldable pub emit_event : ℕ → Service → Service
  emit_event event s = s

  pub data Call : Type 0 where
    runs : Bool → Call
    includes : Option Actions → Call
    shuts_down : Call

  unfoldable pub step : Service → Call → Service
  unfolding run include_launch_description shutdown
  step s (runs shutdown_when_idle) = (run shutdown_when_idle s).0
  step s (includes description) = (include_launch_description description s).0
  step s shuts_down = (shutdown s).0

  unfoldable pub steps : Service → List Call → Service
  unfolding step
  steps s [] = s
  steps s (call ∷ calls) = steps (step s call) calls

-- ===== src/Examples/Serving.antt =====
-- An event queue, a dispatcher with two handlers, and a pool with one worker.
use launch_cpp.ThreadPool.{end_shutdown, worker_done, worker_round}
use launch_cpp.Prelude.{ℕ, ◌≡◌, refl, true, false, ◌+◌, ◌==◌, none, some, [], ◌∷◌, ◌++◌}
use launch_cpp.Errors.{ok, no_error}
use launch_cpp.Events.Queue.{
  push, pushes, pops, waits, clears, all_pushed, run_conserves, clear, size, queue_is_empty,
}
use launch_cpp.Events.Queue
use launch_cpp.Events.Dispatcher.{
  Handlers, dispatch, answers, matching, dispatch-answers, is_registered,
}
use launch_cpp.ThreadPool.{
  all_returned, any_returned, works, completes, joins, Pool, waiting, returned, running, stopped,
  start, begin_shutdown, Steps, here, next, submit_check,
}
use launch_cpp.ThreadPool.Draining.{shutdown_drains, submit_stranded, overtaken}
use launch_cpp.ThreadPool.Interleaving.{count_task, present, Steps-present}

run_conserves_example :
    (Queue.run (1 ∷ []) (pushes 2 ∷ pops ∷ waits (3 ∷ []) ∷ clears ∷ [])).0
      ++ (Queue.run (1 ∷ []) (pushes 2 ∷ pops ∷ waits (3 ∷ []) ∷ clears ∷ [])).1
    ≡ 1 ∷ [] ++ all_pushed (pushes 2 ∷ pops ∷ waits (3 ∷ []) ∷ clears ∷ [])
run_conserves_example = run_conserves (1 ∷ []) (pushes 2 ∷ pops ∷ waits (3 ∷ []) ∷ clears ∷ [])

-- A handler of number n matches event n, and answers with its number.
abbrev handlers : Handlers
handlers = record {
  Event = ℕ;
  Entity = ℕ;
  World = ℕ;
  matches = λ handler event. handler == event;
  handle = λ handler event w. (ok (handler ∷ []), w + 1);
}

dispatch-answers_example :
    dispatch handlers 4 (some 3 ∷ none ∷ some 4 ∷ []) 0
    ≡ answers handlers 4 (matching handlers 4 (some 3 ∷ none ∷ some 4 ∷ [])) 0
dispatch-answers_example = dispatch-answers handlers 4 (some 3 ∷ none ∷ some 4 ∷ []) 0

dispatch_test : dispatch handlers 4 (some 3 ∷ none ∷ some 4 ∷ []) 0 ≡ (ok (4 ∷ []), 1)
unfolding dispatch
dispatch_test = refl

not_registered : is_registered (some 5) (some 3 ∷ []) ≡ false
not_registered = refl

-- One task is queued when shutdown begins; the worker runs it, returns, and is joined.
abbrev pool : Pool
pool = record {
  status = running;
  accepted = [];
  tasks = 4 ∷ [];
  workers = waiting ∷ [];
  finished = [];
}

abbrev drained : Pool
drained = record {
  status = stopped;
  accepted = [];
  tasks = [];
  workers = returned ∷ [];
  finished = 4 ∷ [];
}

drains : Steps (begin_shutdown pool).0 [] drained
unfolding begin_shutdown worker_round worker_done end_shutdown
drains =
    next [] []
      (next [] []
        (next [] [] (next [] [] (here refl) (works [] [] refl refl) refl)
          (completes [] [] 4 refl refl) refl)
        (works [] [] refl refl) refl)
      (joins refl refl refl) refl

Steps-present_example : present 4 drained ≡ present 4 (begin_shutdown pool).0 + count_task 4 []
Steps-present_example = Steps-present 4 (begin_shutdown pool).0 [] drained drains

is_running_before : pool.status ≡ running
is_running_before = refl

none_accepted : pool.accepted ≡ []
none_accepted = refl

one_worker : pool.workers ≡ waiting ∷ []
one_worker = refl

none_returned : any_returned pool.workers ≡ false
none_returned = refl

is_stopped_after : drained.status ≡ stopped
is_stopped_after = refl

shutdown_drains_example :
    (drained.tasks ≡ [])
    × (all_returned drained.workers ≡ true)
    × (count_task 4 drained.finished ≡ present 4 pool)
shutdown_drains_example =
    shutdown_drains pool [] drained waiting [] 4 is_running_before none_accepted one_worker
      none_returned drains is_stopped_after

submit_stranded_example :
    ((overtaken 6).finished ≡ (overtaken 6).finished)
    × (all_returned (overtaken 6).workers ≡ true)
    × ((submit_check 6 (start 1)).1 ≡ no_error)
    × ((late : Pool) × Steps (start 1) (6 ∷ []) late
        × (late.status ≡ stopped)
        × (late.accepted ≡ 6 ∷ [])
        × (all_returned late.workers ≡ true))
submit_stranded_example = submit_stranded 6 (overtaken 6) [] (overtaken 6) refl (here refl)

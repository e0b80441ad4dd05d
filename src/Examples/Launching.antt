-- ===== src/Examples/Launching.antt =====
-- A launch description with an argument, a conditional process and a process that fails, and the
-- service that runs it.
use launch_cpp.Program.{is_help, main}
use launch_cpp.Program.Exit.{is_ok, main-visit_description}
use launch_cpp.Prelude.{str_lt}
use launch_cpp.Prelude.Ordered.{find, set}
use launch_cpp.Prelude.{
  ℕ, ◌≡◌, refl, true, false, none, some, List, [], ◌∷◌, codes, ◌==◌, str_eq, if◌then◌else◌, Str,
  Option,
}
use launch_cpp.Errors.{Error, Result, ok, err, error, process_spawn_failed}
use launch_cpp.Context.{
  Context, new_context, set_launch_configuration, has_launch_configuration,
  get_launch_configuration,
}
use launch_cpp.Substitutions.{System, text, launch_configuration, perform}
use launch_cpp.Conditions.{if_condition, evaluate}
use launch_cpp.Actions.{
  Action, action, declare_argument, group, process, Actions, nil, cons, Host, State, visit,
  visit_description, append,
}
use launch_cpp.Actions.Sequence.{visit_description_stops}
use launch_cpp.Service.{
  Service, create, run, steps, runs, includes, shuts_down, idle, include_launch_description,
}
use launch_cpp.Service.Lifecycle.{IsSettled, create-steps-IsSettled, run_once}

abbrev system : System
system = record { popen = λ cmd. none; is_executable = λ path. false }

abbrev failure : Error
failure = error process_spawn_failed (codes "Fork failed")

-- Process 9 does not start; the others are noted.
abbrev start_process : ℕ → Context → List ℕ → Result (Unit {0}) × List ℕ
start_process p c w = if p == 9 then (err failure, w) else (ok tt, p ∷ w)

abbrev host : Host
host = record {
  system = system;
  World = List ℕ;
  execute_process = start_process;
  execute_include = λ id c w. (ok tt, (c, w));
  sleep = λ period w. w;
}

abbrev starts : ℕ → Action
starts p = action none (process p)

-- Starts only with the configuration `debug`.
abbrev debugger : Action
debugger = action (some (if_condition (some (launch_configuration (codes "debug"))))) (process 5)

abbrev declares : Action
declares = action none (declare_argument (codes "robot") (some (text (codes "r2"))))

abbrev first_part : Actions
first_part = cons declares (cons debugger (cons (starts 1) nil))

abbrev context : Context
context = set_launch_configuration (codes "world") (codes "lab") (new_context [])

evaluate_test :
    evaluate system (if_condition (some (launch_configuration (codes "world")))) context ≡ true
unfolding evaluate perform get_launch_configuration find set_launch_configuration set str_eq
evaluate_test = refl

world_is_set : has_launch_configuration (codes "world") context ≡ true
unfolding has_launch_configuration find set_launch_configuration set str_eq
world_is_set = refl

abbrev after_first : State host
after_first = (set_launch_configuration (codes "robot") (codes "r2") context, 1 ∷ [])

visits_first : visit_description host first_part (context, []) ≡ (ok nil, after_first)
unfolding visit_description evaluate perform get_launch_configuration find has_launch_configuration
    set_launch_configuration set str_eq str_lt
visits_first = refl

fails_next : visit host (starts 9) after_first ≡ (err failure, after_first)
unfolding visit
fails_next = refl

visit_description_stops_example :
    visit_description host (append first_part (cons (starts 9) (cons (starts 2) nil))) (context, [])
    ≡ (err failure, after_first)
visit_description_stops_example =
    visit_description_stops host first_part (cons (starts 2) nil) (starts 9) nil failure
      (context, []) after_first after_first visits_first fails_next

-- The debugger does not start by itself, and starts in a group.
debugger_test :
    (visit_description host (cons debugger nil) (context, []) ≡ (ok nil, (context, [])))
    × (visit_description host
          (cons (action none (group none (cons debugger nil))) nil)
          (context, [])
        ≡ (ok nil, (context, 5 ∷ [])))
unfolding visit_description evaluate perform get_launch_configuration find set_launch_configuration
    set str_eq
debugger_test = (refl, refl)

abbrev service : Service host
service = (include_launch_description host (some first_part) (create host [] [])).0

create-steps-IsSettled_example :
    IsSettled host
      (steps host (create host [] []) (includes (some first_part) ∷ runs true ∷ shuts_down ∷ []))
create-steps-IsSettled_example =
    create-steps-IsSettled host [] [] (includes (some first_part) ∷ runs true ∷ shuts_down ∷ [])

is_idle_before : service.status ≡ idle
unfolding include_launch_description
is_idle_before = refl

run_once_example :
    run host true (steps host (run host false service).0 (includes (some first_part) ∷ []))
    ≡ (steps host (run host false service).0 (includes (some first_part) ∷ []), 1)
run_once_example = run_once host service false true (includes (some first_part) ∷ []) is_idle_before

run_test : (run host true service).0.state.1 ≡ 1 ∷ []
unfolding run include_launch_description visit_description evaluate perform get_launch_configuration
    find has_launch_configuration set_launch_configuration set str_eq
run_test = refl

-- The file that loads holds the first part.
abbrev load : Str → Result (Option Actions)
load launch_file = ok (some first_part)

is_no_help : is_help (codes "robot.yaml") ≡ false
unfolding is_help str_eq
is_no_help = refl

loads_first_part : load (codes "robot.yaml") ≡ ok (some first_part)
loads_first_part = refl

main-visit_description_example :
    main host load (codes "launch" ∷ (codes "robot.yaml" ∷ codes "debug:=true" ∷ [])) [] []
    ≡ (if is_ok (visit_description host first_part (new_context [], [])).0 then 0 else 1)
main-visit_description_example =
    main-visit_description host [] load (codes "launch") (codes "robot.yaml")
      (codes "debug:=true" ∷ []) first_part [] is_no_help loads_first_part

-- ===== src/Actions.antt =====
-- src/action.cpp, src/actions and src/launch_description.cpp: what a launch description does.
pub mod Configurations
pub mod Sequence
use launch_cpp.Prelude.{ℕ, Bool, true, false, Option, none, some, [], Str, if◌then◌else◌}
use launch_cpp.Errors.{Error, Result, ok, err}
use launch_cpp.Context.{Context, set_launch_configuration, has_launch_configuration}
use launch_cpp.Substitutions.{System, Substitution, perform}
use launch_cpp.Conditions.{Condition, evaluate}

-- An action is the condition that its base class holds, if any, and what its class adds.
mutual
  pub data Action : Type 0 where
    action : Option Condition → Body → Action

  pub data Body : Type 0 where
    -- A name and a default value.
    declare_argument : Str → Option Substitution → Body
    set_configuration : Str → Option Substitution → Body
    group : Option Condition → Actions → Body
    -- The period, in milliseconds.
    timer : ℕ → Actions → Body
    -- An `ExecuteProcess` object, by its identity.
    process : ℕ → Body
    -- An `IncludeLaunchDescription` object, by its identity.
    include_launch_description : ℕ → Body

  -- `absent` is a null pointer in the vector.
  pub data Actions : Type 0 where
    nil : Actions
    cons : Action → Actions → Actions
    absent : Actions → Actions

-- What happens outside the context, processes and time, and what an include of a launch file does,
-- which `Includes` models.
pub record Host : Type 1 where
  pub system : System
  pub World : Type 0
  pub execute_process : ℕ → Context → World → Result (Unit {0}) × World
  pub execute_include : ℕ → Context → World → Result (Unit {0}) × (Context × World)
  pub sleep : ℕ → World → World

abbrev pub append : Actions → Actions → Actions
append nil ys = ys
append (cons a xs) ys = cons a (append xs ys)
append (absent xs) ys = absent (append xs ys)

-- `if (child) result.push_back(child)` for each child.
abbrev pub present : Actions → Actions
present nil = nil
present (cons a xs) = cons a (present xs)
present (absent xs) = present xs

module _ (host : Host) where
  open host use {system, World}

  abbrev pub State : Type 0
  State = Context × World

  abbrev pub Run : Type 0 → Type 0
  Run A = State → Result A × State

  abbrev pub return : {A : Type 0} → A → Run A
  return a s = (ok a, s)

  abbrev pub modify : (Context → Context) → Run (Unit {0})
  modify f (c, w) = (ok tt, (f c, w))

  abbrev pub and_then : {A B : Type 0} → Result A × State → (A → Run B) → Result B × State
  and_then (ok a, s) f = f a s
  and_then (err e, s) f = (err e, s)

  -- A step that fails ends the sequence; the state that it leaves stays.
  infixl 5 ◌>>=◌ ◌>>◌
  abbrev pub ◌>>=◌ : {A B : Type 0} → Run A → (A → Run B) → Run B
  ◌>>=◌ m f s = and_then (m s) f

  abbrev pub ◌>>◌ : {B : Type 0} → Run (Unit {0}) → Run B → Run B
  m >> k = m >>= λ _. k

  abbrev pub when : (Context → Bool) → Run (Unit {0}) → Run (Unit {0})
  when test m (c, w) = if test c then m (c, w) else (ok tt, (c, w))

  abbrev pub holds : Option Condition → Context → Bool
  holds none c = true
  holds (some condition) c = evaluate system condition c

  -- `DeclareLaunchArgument::execute`.
  unfoldable pub declare : Str → Option Substitution → Context → Context
  declare name none c = c
  declare name (some sub) c =
      if has_launch_configuration name c
      then c
      else set_launch_configuration name (perform system sub c) c

  -- `SetLaunchConfiguration::execute`.
  assign : Str → Option Substitution → Context → Context
  assign name none c = set_launch_configuration name [] c
  assign name (some sub) c = set_launch_configuration name (perform system sub c) c

  abbrev pub run_process : ℕ → Run (Unit {0})
  run_process id (c, w) = let (r, w') = host.execute_process id c w in (r, (c, w'))

  abbrev pub run_include : ℕ → Run (Unit {0})
  run_include id (c, w) = host.execute_include id c w

  abbrev pub sleep_for : ℕ → Run (Unit {0})
  sleep_for period (c, w) = (ok tt, (c, host.sleep period w))

  -- A group runs the bodies of its actions: the condition that an action's base class holds is
  -- read by `visit` only.
  unfoldable mutual
    unfolding declare assign

    pub execute : Body → Run (Unit {0})
    execute (declare_argument name default) = modify (declare name default)
    execute (set_configuration name value) = modify (assign name value)
    execute (group condition actions) = when (holds condition) (execute_all actions)
    execute (timer period actions) = sleep_for period >> execute_all actions
    execute (process id) = run_process id
    execute (include_launch_description id) = run_include id

    pub execute_action : Action → Run (Unit {0})
    execute_action (action condition body) = execute body

    pub execute_all : Actions → Run (Unit {0})
    execute_all nil = return tt
    execute_all (cons a actions) = execute_action a >> execute_all actions
    execute_all (absent actions) = execute_all actions

  -- `Action::visit`. Actions have no child entities.
  unfoldable pub visit : Action → Run Actions
  unfolding execute
  visit (action condition body) (c, w) =
      if holds condition c then (execute body >> return nil) (c, w) else (ok nil, (c, w))

  -- The loop of `LaunchDescription::visit`.
  unfoldable pub visit_from : Actions → Actions → Run Actions
  unfolding visit
  visit_from result nil = return result
  visit_from result (cons a entities) =
      visit a >>= λ children. visit_from (append result (present children)) entities
  visit_from result (absent entities) = visit_from result entities

  unfoldable pub visit_description : Actions → Run Actions
  unfolding visit_from
  visit_description entities = visit_from nil entities

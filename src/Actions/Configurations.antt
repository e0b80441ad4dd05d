-- ===== src/Actions/Configurations.antt =====
-- What running actions does to the launch configurations.
use launch_cpp.Prelude.{
  ℕ, true, false, Option, none, some, [], Str, str_eq, str_eq_iff, if◌then◌else◌, ◌≡◌, arith,
}
use launch_cpp.Prelude.Ordered.{find-set}
use launch_cpp.Errors.{Result, ok, err}
use launch_cpp.Context.{
  Context, set_launch_configuration, has_launch_configuration, get_launch_configuration,
}
use launch_cpp.Substitutions.{Substitution, perform}
use launch_cpp.Actions.{
  Action, action, Body, declare_argument, set_configuration, group, timer, process,
  include_launch_description, Actions, nil, cons, absent, Host, State, declare, assign, execute,
  execute_action, execute_all, visit, Run, and_then, visit_from, visit_description, append, present,
}

-- Every configuration that is set in `c` is set in `d`.
abbrev pub Keeps : Context → Context → Type 0
Keeps c d =
    (key : Str) → has_launch_configuration key c ≡ true → has_launch_configuration key d ≡ true

pub Keeps-set : (name value : Str) (c : Context) → Keeps c (set_launch_configuration name value c)
unfolding set_launch_configuration has_launch_configuration
Keeps-set name value c key h = ground (arith, find-set name key value c.configurations)

module _ (host : Host) where
  declare-Keeps :
      (name : Str) (default : Option Substitution) (c : Context)
      → Keeps c (declare host name default c)
  unfolding declare
  declare-Keeps name none c key h = h
  declare-Keeps name (some sub) c key h =
      ground (arith, Keeps-set name (perform host.system sub c) c key h)

  assign-Keeps :
      (name : Str) (value : Option Substitution) (c : Context) → Keeps c (assign host name value c)
  unfolding assign
  assign-Keeps name none c key h = Keeps-set name [] c key h
  assign-Keeps name (some sub) c key h = Keeps-set name (perform host.system sub c) c key h

  abbrev KeepsAll : {A : Type 0} → Run host A → Type 0
  KeepsAll m = (c : Context) (w : host.World) → Keeps c (m (c, w)).1.0

  and_then-Keeps :
      {A B : Type 0} (c : Context) (r : Result A) (s : State host) (f : A → Run host B)
      → Keeps c s.0
      → ((a : A) → KeepsAll (f a))
      → Keeps c (and_then host (r, s) f).1.0
  and_then-Keeps c (ok a) s f h k key e = k a s.0 s.1 key (h key e)
  and_then-Keeps c (err e) s f h k key e' = h key e'

  -- No include takes a configuration away.
  abbrev pub IncludesKeep : Type 0
  IncludesKeep = (id : ℕ) (c : Context) (w : host.World) → Keeps c (host.execute_include id c w).1.0

  module _ (includes_keep : IncludesKeep) where
    mutual
      unfolding execute

      execute-Keeps : (body : Body) → KeepsAll (execute host body)
      execute-Keeps (declare_argument name default) c w = declare-Keeps name default c
      execute-Keeps (set_configuration name value) c w = assign-Keeps name value c
      execute-Keeps (group condition actions) c w =
          λ key h. ground (arith, execute_all-Keeps actions c w key h)
      execute-Keeps (timer period actions) c w = execute_all-Keeps actions c (host.sleep period w)
      execute-Keeps (process id) c w = λ key h. h
      execute-Keeps (include_launch_description id) c w = includes_keep id c w

      execute_action-Keeps : (a : Action) → KeepsAll (execute_action host a)
      execute_action-Keeps (action condition body) = execute-Keeps body

      execute_all-Keeps : (actions : Actions) → KeepsAll (execute_all host actions)
      execute_all-Keeps nil c w = λ key h. h
      execute_all-Keeps (cons a actions) c w =
          let (r, s) = execute_action host a (c, w) in
          and_then-Keeps c r s (λ _. execute_all host actions) (execute_action-Keeps a c w)
            (λ _. execute_all-Keeps actions)
      execute_all-Keeps (absent actions) c w = execute_all-Keeps actions c w

    visit-Keeps : (a : Action) → KeepsAll (visit host a)
    unfolding visit
    visit-Keeps (action condition body) c w key h = ground (arith, execute-Keeps body c w key h)

    visit_from-Keeps : (result entities : Actions) → KeepsAll (visit_from host result entities)
    unfolding visit_from
    visit_from-Keeps result nil c w = λ key h. h
    visit_from-Keeps result (cons a entities) c w =
        let (r, s) = visit host a (c, w) in
        and_then-Keeps c r s
          (λ children. visit_from host (append result (present children)) entities)
          (visit-Keeps a c w)
          (λ children. visit_from-Keeps (append result (present children)) entities)
    visit_from-Keeps result (absent entities) c w = visit_from-Keeps result entities c w

-- Visiting a launch description, to its end or to an error, keeps every launch configuration
-- that was set before, when the includes do: no other action takes one away, whatever it nests.
pub visit_description-has_launch_configuration :
    (host : Host)
    → IncludesKeep host
    → (entities : Actions) (c : Context) (w : host.World) (key : Str)
    → has_launch_configuration key c ≡ true
    → has_launch_configuration key (visit_description host entities (c, w)).1.0 ≡ true
unfolding visit_description
visit_description-has_launch_configuration host includes_keep entities c w =
    visit_from-Keeps host includes_keep nil entities c w

-- Declaring an argument with a default keeps the value of an argument that is set and gives one
-- that is not set the text of the default; no other configuration changes.
pub execute-declare_argument :
    (host : Host) (name other : Str) (default : Substitution) (c : Context) (w : host.World)
    → str_eq name other ≡ false
    → let after = (execute host (declare_argument name (some default)) (c, w)).1.0 in
      (get_launch_configuration name after ≡ (
        if has_launch_configuration name c
        then get_launch_configuration name c
        else ok (perform host.system default c)))
      × (get_launch_configuration other after ≡ get_launch_configuration other c)
unfolding execute get_launch_configuration has_launch_configuration set_launch_configuration
execute-declare_argument host name other default c w h = (
  ground (
    arith,
    find-set name name (perform host.system default c) c.configurations,
    str_eq_iff name name,
  ),
  ground (arith, find-set name other (perform host.system default c) c.configurations),
)

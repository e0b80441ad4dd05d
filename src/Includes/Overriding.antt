-- ===== src/Includes/Overriding.antt =====
-- What an include of src/actions/include_launch_description.cpp does to the launch configurations.
use launch_cpp.Prelude.{
  ℕ, suc, Option, none, some, List, [], ◌∷◌, ◌++◌, str_eq_refl, Str, str_eq_iff, ◌≡◌, refl, arith,
}
use launch_cpp.Prelude.Ordered.{find, find-set}
use launch_cpp.Errors.{Result, ok, err}
use launch_cpp.Context.{
  Context, set_launch_configuration, has_launch_configuration, get_launch_configuration,
}
use launch_cpp.Substitutions.{Substitution, perform}
use launch_cpp.Actions
use launch_cpp.Actions.{
  Actions, nil, cons, action, declare_argument, process, Host, State, Run, declare, visit, and_then,
  visit_from, visit_description, append, present,
}
use launch_cpp.Yaml.{Floats}
use launch_cpp.Yaml.Steps.{returns}
use launch_cpp.Yaml.Builder.{
  Entity, execute_process, declare_launch_argument, from_yaml_file, actions_of,
}
use launch_cpp.Includes.{
  execute, set_arguments, visited, include_loaded, include_found, execute_from,
}

module _ (host : Host) (key v : Str) where
  abbrev Holds : Context → Type 0
  Holds c = find key c.configurations ≡ some v

  declare-Holds :
      (name : Str) (default : Option Substitution) (c : Context)
      → Holds c
      → Holds (declare host name default c)
  unfolding declare has_launch_configuration set_launch_configuration
  declare-Holds name none c h = h
  declare-Holds name (some sub) c h =
      ground
        (arith, find-set name key (perform host.system sub c) c.configurations, str_eq_iff name key)

  and_then-Holds :
      {A B : Type 0} (r : Result A) (s : State host) (f : A → Run host B)
      → Holds s.0
      → ((a : A) (s' : State host) → Holds s'.0 → Holds (f a s').1.0)
      → Holds (and_then host (r, s) f).1.0
  and_then-Holds (ok a) s f h k = k a s h
  and_then-Holds (err e) s f h k = h

  visit-Holds-process :
      (n : ℕ) (c : Context) (w : host.World)
      → Holds c
      → Holds (visit host (action none (process n)) (c, w)).1.0
  unfolding visit Actions.execute
  visit-Holds-process n c w h =
      let (r, w') = host.execute_process n c w in
      and_then-Holds r (c, w') (λ _ s. (ok nil, s)) h (λ _ s k. k)

  visit-Holds-declare :
      (name : Str) (default : Option Substitution) (c : Context) (w : host.World)
      → Holds c
      → Holds (visit host (action none (declare_argument name default)) (c, w)).1.0
  unfolding visit Actions.execute
  visit-Holds-declare name default c w h = declare-Holds name default c h

  visit_from-Holds :
      (n : ℕ) (entities : List Entity) (result : Actions) (c : Context) (w : host.World)
      → Holds c
      → Holds (visit_from host result (actions_of n entities) (c, w)).1.0
  unfolding visit_from actions_of
  visit_from-Holds n [] result c w h = h
  visit_from-Holds n (execute_process options ∷ entities) result c w h =
      let (r, s) = visit host (action none (process n)) (c, w) in
      and_then-Holds r s
        (λ children.
          visit_from host (append result (present children)) (actions_of (suc n) entities))
        (visit-Holds-process n c w h)
        (λ children s' k.
          visit_from-Holds (suc n) entities (append result (present children)) s'.0 s'.1 k)
  visit_from-Holds n (declare_launch_argument name default description ∷ entities) result c w h =
      let (r, s) = visit host (action none (declare_argument name default)) (c, w) in
      and_then-Holds r s
        (λ children. visit_from host (append result (present children)) (actions_of n entities))
        (visit-Holds-declare name default c w h)
        (λ children s' k.
          visit_from-Holds n entities (append result (present children)) s'.0 s'.1 k)

  visited-Holds :
      (floats : Floats) (r : Result Actions) (s : State host)
      → Holds s.0
      → Holds (visited floats host (r, s)).1.0
  visited-Holds floats (ok actions) s h = h
  visited-Holds floats (err e) s h = h

  include_loaded-Holds :
      (floats : Floats) (first : ℕ) (arguments : List (Str × Option Substitution))
      (entities : List Entity) (c : Context) (w : host.World)
      → Holds (set_arguments host.system arguments c)
      → Holds (include_loaded floats host first arguments (returns (ok entities)) (c, w)).1.0
  unfolding include_loaded visit_description
  include_loaded-Holds floats first arguments entities c w h =
      let (r, s) =
        visit_from host nil (actions_of first entities)
          (set_arguments host.system arguments c, w) in
      visited-Holds floats r s (visit_from-Holds first entities nil _ w h)

set_arguments-last :
    (host : Host) (before : List (Str × Option Substitution)) (name : Str) (sub : Substitution)
    (c : Context)
    → find name (set_arguments host.system (before ++ (name, some sub) ∷ []) c).configurations
      ≡ some (perform host.system sub (set_arguments host.system before c))
unfolding set_arguments set_launch_configuration
set_arguments-last host [] name sub c =
    ground
      (arith, find-set name name (perform host.system sub c) c.configurations, str_eq_refl name)
set_arguments-last host ((n, none) ∷ before) name sub c = set_arguments-last host before name sub c
set_arguments-last host ((n, some s) ∷ before) name sub c =
    set_arguments-last host before name sub (set_launch_configuration n (perform host.system s c) c)

-- When an include's file can be read and loaded, the last argument of the include keeps its value
-- through the visit of the file, to its end or to an error: no default that the file declares
-- replaces it.
pub execute-set_arguments :
    (floats : Floats) (host : Host) (read : Str → Option Str) (first : ℕ) (source : Substitution)
    (before : List (Str × Option Substitution)) (name : Str) (sub : Substitution) (c : Context)
    (w : host.World) {content : Str} {entities : List Entity}
    → read (perform host.system source c) ≡ some content
    → from_yaml_file floats read (perform host.system source c) ≡ returns (ok entities)
    → get_launch_configuration name
        (execute floats host read first
          (record { source = some source; arguments = before ++ (name, some sub) ∷ [] })
          (c, w)).1.0
      ≡ ok (perform host.system sub (set_arguments host.system before c))
unfolding execute execute_from include_found get_launch_configuration
execute-set_arguments floats host read first source before name sub c w {entities} r l =
    rw (r, l)
      (rw
        (include_loaded-Holds host name _ floats first (before ++ (name, some sub) ∷ []) entities c
          w (set_arguments-last host before name sub c))
        refl)

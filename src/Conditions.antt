-- ===== src/Conditions.antt =====
-- src/conditions: when an action runs.
use launch_cpp.Prelude.{
  Bool, true, false, not, ◌||◌, Option, none, some, Str, codes, str_eq, is_empty, if◌then◌else◌,
  ◌≡◌, refl, arith,
}
use launch_cpp.Errors.{Result, ok, err}
use launch_cpp.Context.{Context, get_launch_configuration}
use launch_cpp.Substitutions.{System, Substitution, perform}

pub data Condition : Type 0 where
  if_condition unless_condition : Option Substitution → Condition
  -- The name of a configuration and the expected value.
  equals : Str → Option Substitution → Condition
  function : (Context → Bool) → Condition

-- `if (result.empty()) return false; if (result == "false" || result == "0") return false;`
unfoldable pub if_result : Str → Bool
if_result result =
    if is_empty result
    then false
    else if str_eq result (codes "false") || str_eq result (codes "0")
    then false
    else true

unfoldable pub unless_result : Str → Bool
unless_result result =
    if is_empty result
    then true
    else if str_eq result (codes "false") || str_eq result (codes "0")
    then true
    else false

abbrev equals_result : System → Context → Option Substitution → Result Str → Bool
equals_result system c expected (err e) = false
equals_result system c none (ok actual) = false
equals_result system c (some sub) (ok actual) = str_eq actual (perform system sub c)

unfoldable pub evaluate : System → Condition → Context → Bool
unfolding if_result unless_result
evaluate system (if_condition none) c = false
evaluate system (if_condition (some sub)) c = if_result (perform system sub c)
evaluate system (unless_condition none) c = true
evaluate system (unless_condition (some sub)) c = unless_result (perform system sub c)
evaluate system (equals name expected) c =
    equals_result system c expected (get_launch_configuration name c)
evaluate system (function f) c = f c

-- For the same expression, present or not, exactly one of the two conditions holds.
pub evaluate-unless :
    (system : System) (expression : Option Substitution) (c : Context)
    → evaluate system (unless_condition expression) c
      ≡ not (evaluate system (if_condition expression) c)
unfolding evaluate
evaluate-unless system none c = refl
evaluate-unless system (some sub) c = ground arith

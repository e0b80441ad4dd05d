-- ===== src/Actions/Sequence.antt =====
-- The order in which a launch description visits its entities, and what groups leave out.
use launch_cpp.Prelude.{ℕ, Bool, true, false, Option, none, ◌≡◌, refl, ◌∙◌, sym, if◌then◌else◌}
use launch_cpp.Errors.{Error, Result, ok, err}
use launch_cpp.Conditions.{Condition}
use launch_cpp.Actions.{
  Action, action, group, timer, Actions, nil, cons, absent, Host, State, Run, and_then, execute,
  execute_all, visit, visit_from, visit_description, holds, return, append, present,
}

module _ (host : Host) where
  and_then_assoc :
      {A B C : Type 0} (r : Result A × State host) (f : A → Run host B) (g : B → Run host C)
      → and_then host (and_then host r f) g ≡ and_then host r (λ a s. and_then host (f a s) g)
  and_then_assoc (ok a, s) f g = refl
  and_then_assoc (err e, s) f g = refl

  and_then_cong :
      {A B : Type 0} (r : Result A × State host) (f g : A → Run host B)
      → ((a : A) (s : State host) → f a s ≡ g a s)
      → and_then host r f ≡ and_then host r g
  and_then_cong (ok a, s) f g h = h a s
  and_then_cong (err e, s) f g h = refl

  visit_from-append :
      (result xs ys : Actions) (s : State host)
      → visit_from host result (append xs ys) s
        ≡ and_then host (visit_from host result xs s) (λ found. visit_from host found ys)
  unfolding visit_from
  visit_from-append result nil ys s = refl
  visit_from-append result (cons a xs) ys s =
      and_then_cong (visit host a s) _ _
        (λ children s'. visit_from-append (append result (present children)) xs ys s')
      ∙ sym (
          and_then_assoc (visit host a s)
            (λ children. visit_from host (append result (present children)) xs)
            (λ found. visit_from host found ys))
  visit_from-append result (absent xs) ys s = visit_from-append result xs ys s

  -- Actions have no children to return.
  abbrev NoChildren : Result Actions → Type 0
  NoChildren (ok found) = found ≡ nil
  NoChildren (err e) = Unit {0}

  NoChildren-branch :
      (b : Bool) (r : Result (Unit {0}) × State host) (s : State host)
      → NoChildren (if b then and_then host r (λ _. return host nil) else (ok nil, s)).0
  NoChildren-branch true (ok u, s') s = refl
  NoChildren-branch true (err e, s') s = tt
  NoChildren-branch false r s = refl

  visit-NoChildren : (a : Action) (s : State host) → NoChildren (visit host a s).0
  unfolding visit
  visit-NoChildren (action condition body) (c, w) =
      NoChildren-branch (holds host condition c) (execute host body (c, w)) (c, w)

  NoChildren-next :
      (r : Result Actions × State host) (f : Actions → Run host Actions)
      → NoChildren r.0
      → ((s : State host) → NoChildren (f nil s).0)
      → NoChildren (and_then host r f).0
  NoChildren-next (ok found, s) f h k = rw h (k s)
  NoChildren-next (err e, s) f h k = tt

  visit_from-NoChildren :
      (entities : Actions) (s : State host) → NoChildren (visit_from host nil entities s).0
  unfolding visit_from
  visit_from-NoChildren nil s = refl
  visit_from-NoChildren (cons a entities) s =
      NoChildren-next (visit host a s)
        (λ children. visit_from host (append nil (present children)) entities)
        (visit-NoChildren a s) (λ s'. visit_from-NoChildren entities s')
  visit_from-NoChildren (absent entities) s = visit_from-NoChildren entities s

  -- Once an entity fails, the visit ends with its error and its state.
  visit_from_stops :
      (result xs ys : Actions) (a : Action) (found : Actions) (e : Error) (s s' s'' : State host)
      → visit_from host result xs s ≡ (ok found, s')
      → visit host a s' ≡ (err e, s'')
      → visit_from host result (append xs (cons a ys)) s ≡ (err e, s'')
  unfolding visit_from
  visit_from_stops result xs ys a found e s s' s'' p q =
      rw (visit_from-append result xs (cons a ys) s, p, q)

-- Where a launch description's first entities succeed and the next one fails, the visit returns
-- that entity's error in the state that the entity leaves, and no later entity runs.
pub visit_description_stops :
    (host : Host) (xs ys : Actions) (a : Action) (found : Actions) (e : Error)
    (s s' s'' : State host)
    → visit_description host xs s ≡ (ok found, s')
    → visit host a s' ≡ (err e, s'')
    → visit_description host (append xs (cons a ys)) s ≡ (err e, s'')
unfolding visit_description
visit_description_stops host xs ys a found e s s' s'' p q =
    visit_from_stops host nil xs ys a found e s s' s'' p q

-- A visit that succeeds returns no entities.
visit_description-nil :
    (host : Host) (xs found : Actions) (s : State host)
    → (visit_description host xs s).0 ≡ ok found
    → found ≡ nil
unfolding visit_description
visit_description-nil host xs found s p = rw p at (visit_from-NoChildren host xs s)

-- The actions of a list, without the conditions that their base class holds.
unfoldable pub unconditional : Actions → Actions
unconditional nil = nil
unconditional (cons (action condition body) actions) =
    cons (action none body) (unconditional actions)
unconditional (absent actions) = absent (unconditional actions)

execute_all-unconditional :
    (host : Host) (actions : Actions) (s : State host)
    → execute_all host (unconditional actions) s ≡ execute_all host actions s
unfolding execute unconditional
execute_all-unconditional host nil s = refl
execute_all-unconditional host (cons (action condition body) actions) s =
    and_then_cong host (execute host body s) _ _ (λ _ s'. execute_all-unconditional host actions s')
execute_all-unconditional host (absent actions) s = execute_all-unconditional host actions s

-- A group and a timer run the actions they hold as if these had no conditions of their own.
pub group_ignores_conditions :
    (host : Host) (condition : Option Condition) (period : ℕ) (actions : Actions) (s : State host)
    → (execute host (group condition actions) s
        ≡ execute host (group condition (unconditional actions)) s)
      × (execute host (timer period actions) s
          ≡ execute host (timer period (unconditional actions)) s)
unfolding execute
group_ignores_conditions host condition period actions (c, w) = (
  rw (execute_all-unconditional host actions (c, w)),
  rw (execute_all-unconditional host actions (c, host.sleep period w)),
)

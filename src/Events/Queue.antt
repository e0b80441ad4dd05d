-- ===== src/Events/Queue.antt =====
-- include/launch_cpp/event_queue.hpp: a first-in, first-out queue of events.
use launch_cpp.Prelude.{
  ℕ, ◌≡◌, refl, Bool, Option, none, some, List, [], ◌∷◌, ◌++◌, length, is_empty, append_assoc,
  append-nil, ◌∙◌, ap, sym,
}

abbrev pub Events : Type 0
Events = List ℕ

unfoldable pub push : ℕ → Events → Events
push event queue = queue ++ event ∷ []

-- The result of `try_pop` and the event that it writes.
unfoldable pub try_pop : Events → Option ℕ × Events
try_pop [] = (none, [])
try_pop (event ∷ queue) = (some event, queue)

-- `wait_for` returns when an event is there or the time is up; what other threads push while it
-- waits, `arrived`, stands in the queue when it takes the lock again.
unfoldable pub wait_and_pop : List ℕ → Events → Option ℕ × Events
unfolding try_pop
wait_and_pop arrived queue = try_pop (queue ++ arrived)

unfoldable pub queue_is_empty : Events → Bool
queue_is_empty queue = is_empty queue

unfoldable pub size : Events → ℕ
size queue = length queue

-- `while (!queue_.empty()) queue_.pop();`
unfoldable pub clear : Events → Events
clear [] = []
clear (event ∷ queue) = clear queue

pub data Operation : Type 0 where
  pushes : ℕ → Operation
  pops : Operation
  waits : List ℕ → Operation
  clears : Operation

unfoldable pub apply : Events → Operation → Option ℕ × Events
unfolding push try_pop wait_and_pop clear
apply queue (pushes event) = (none, push event queue)
apply queue pops = try_pop queue
apply queue (waits arrived) = wait_and_pop arrived queue
apply queue clears = (none, clear queue)

-- The events that an operation puts in.
abbrev pub pushed : Operation → List ℕ
pushed (pushes event) = event ∷ []
pushed pops = []
pushed (waits arrived) = arrived
pushed clears = []

abbrev pub to_list : Option ℕ → List ℕ
to_list none = []
to_list (some event) = event ∷ []

-- The events that leave the queue, in order: the one that is delivered, or all that are cleared.
abbrev pub taken : Events → Operation → List ℕ
taken queue (pushes event) = to_list (apply queue (pushes event)).0
taken queue pops = to_list (apply queue pops).0
taken queue (waits arrived) = to_list (apply queue (waits arrived)).0
taken queue clears = queue

-- The events that leave the queue in a run, and the queue it leaves.
unfoldable pub run : Events → List Operation → List ℕ × Events
unfolding apply
run queue [] = ([], queue)
run queue (operation ∷ operations) =
    let (later, final) = run (apply queue operation).1 operations in
    (taken queue operation ++ later, final)

abbrev pub all_pushed : List Operation → List ℕ
all_pushed [] = []
all_pushed (operation ∷ operations) = pushed operation ++ all_pushed operations

clear_lem : (queue : Events) → clear queue ≡ []
unfolding clear
clear_lem [] = refl
clear_lem (event ∷ queue) = clear_lem queue

apply_conserves :
    (queue : Events) (operation : Operation)
    → taken queue operation ++ (apply queue operation).1 ≡ queue ++ pushed operation
unfolding apply
apply_conserves queue (pushes event) = refl
apply_conserves [] pops = refl
apply_conserves (event ∷ queue) pops = ap (λ q. event ∷ q) (sym (append-nil queue))
apply_conserves [] (waits []) = refl
apply_conserves [] (waits (event ∷ arrived)) = refl
apply_conserves (event ∷ queue) (waits arrived) = refl
apply_conserves queue clears = ap (λ q. queue ++ q) (clear_lem queue)

-- Over any run of operations, what was delivered or cleared, in the order in which it left,
-- followed by what is still queued, is what stood in the queue at first, followed by what was
-- pushed: only `clear` drops events, and nothing else is lost, added or reordered.
pub run_conserves :
    (queue : Events) (operations : List Operation)
    → (run queue operations).0 ++ (run queue operations).1 ≡ queue ++ all_pushed operations
unfolding run
run_conserves queue [] = sym (append-nil queue)
run_conserves queue (operation ∷ operations) =
    append_assoc (taken queue operation) (run (apply queue operation).1 operations).0
      (run (apply queue operation).1 operations).1
    ∙ ap (λ q. taken queue operation ++ q) (run_conserves (apply queue operation).1 operations)
    ∙ sym (append_assoc (taken queue operation) (apply queue operation).1 (all_pushed operations))
    ∙ ap (λ q. q ++ all_pushed operations) (apply_conserves queue operation)
    ∙ append_assoc queue (pushed operation) (all_pushed operations)

-- ===== src/ThreadPool/Draining.antt =====
-- src/thread_pool.cpp: what shutdown leaves, when it drains the queue and when it does not.
use mathlib.Core.Path.{subst}
use launch_cpp.Errors.{no_error}
use launch_cpp.Prelude.{
  ap, ◌∙◌, ℕ, ◌≡◌, ◌≢◌, refl, true, false, ◌&&◌, ◌||◌, List, [], ◌∷◌, ◌++◌, arith, sym, is_empty,
}
use launch_cpp.ThreadPool.{
  running, stopped, Worker, waiting, busy, returned, Pool, start, submit_check, submit_push,
  begin_shutdown, end_shutdown, all_returned, any_returned, worker_round, worker_done, Step, checks,
  refuses, pushes, works, completes, shuts_down, joins, Steps, here, next,
}
use launch_cpp.ThreadPool.Interleaving.{
  count_task, count_busy, count_task-append, present, Steps-present,
}

-- Once the pool is not running and no `submit` is half way, no task waits for workers that have
-- returned.
record IsDraining (p : Pool) : Type 0 where
  not_running : p.status ≢ running
  none_accepted : p.accepted ≡ []
  none_left : any_returned p.workers ≡ true → p.tasks ≡ []
  joined : p.status ≡ stopped → all_returned p.workers ≡ true
  staffed : is_empty p.workers ≡ false

is_empty-append : (xs ys : List Worker) (w : Worker) → is_empty (xs ++ w ∷ ys) ≡ false
is_empty-append [] ys w = refl
is_empty-append (x ∷ xs) ys w = refl

any_returned-append :
    (xs ys : List Worker) → any_returned (xs ++ ys) ≡ (any_returned xs || any_returned ys)
any_returned-append [] ys = refl
any_returned-append (x ∷ xs) ys = ground (arith, any_returned-append xs ys)

all_returned-append :
    (xs ys : List Worker) → all_returned (xs ++ ys) ≡ (all_returned xs && all_returned ys)
all_returned-append [] ys = refl
all_returned-append (x ∷ xs) ys = ground (arith, all_returned-append xs ys)

round-IsDraining :
    (before after : List Worker) (tasks : List ℕ) (p : Pool)
    → tasks ≡ p.tasks
    → p.workers ≡ before ++ waiting ∷ after
    → IsDraining p
    → IsDraining (worker_round before after tasks p)
unfolding worker_round
round-IsDraining before after [] p e w h = record {
  not_running = h.not_running;
  none_accepted = h.none_accepted;
  none_left = λ a. sym e;
  joined = λ s. ground (arith, h.joined s, all_returned-append before (waiting ∷ after));
  staffed = is_empty-append before after _;
}
round-IsDraining before after (t ∷ tasks) p e w h = record {
  not_running = h.not_running;
  none_accepted = h.none_accepted;
  none_left = λ a. ground (
    arith,
    h.none_left,
    any_returned-append before (waiting ∷ after),
    any_returned-append before (busy t ∷ after),
  );
  joined = λ s. ground (arith, h.joined s, all_returned-append before (waiting ∷ after));
  staffed = is_empty-append before after _;
}

Step-IsDraining : {l : List ℕ} {p q : Pool} → Step p l q → IsDraining p → IsDraining q
unfolding submit_check submit_push begin_shutdown end_shutdown worker_done
Step-IsDraining (checks task s e) h = absurd (h.not_running s)
Step-IsDraining (refuses task s e) h = ground arith
Step-IsDraining {p} (pushes task [] after a e) h = cc h.none_accepted
Step-IsDraining {p} (pushes task (x ∷ before) after a e) h = cc h.none_accepted
Step-IsDraining {p} (works before after w e) h = round-IsDraining before after p.tasks p refl w h
Step-IsDraining {p} (completes before after task w e) h = record {
  not_running = h.not_running;
  none_accepted = h.none_accepted;
  none_left = λ a. ground (
    arith,
    h.none_left,
    any_returned-append before (waiting ∷ after),
    any_returned-append before (busy task ∷ after),
  );
  joined = λ s. ground (arith, h.joined s, all_returned-append before (busy task ∷ after));
  staffed = is_empty-append before after _;
}
Step-IsDraining (shuts_down e) h = ground arith
Step-IsDraining (joins s a e) h = record {
  not_running = λ r. cc;
  none_accepted = h.none_accepted;
  none_left = h.none_left;
  joined = λ _. a;
  staffed = h.staffed;
}

Steps-IsDraining : (p : Pool) {l : List ℕ} {q : Pool} → Steps p l q → IsDraining p → IsDraining q
Steps-IsDraining p (here e) h = h
Steps-IsDraining p (next xs ys st s e) h = Step-IsDraining s (Steps-IsDraining p st h)

Step-accepts_none :
    (t : ℕ) {l : List ℕ} {p q : Pool} → Step p l q → IsDraining p → count_task t l ≡ 0
Step-accepts_none t (checks task s e) h = absurd (h.not_running s)
Step-accepts_none t (refuses task s e) h = ground arith
Step-accepts_none t (pushes task before after a e) h = ground arith
Step-accepts_none t (works before after w e) h = ground arith
Step-accepts_none t (completes before after task w e) h = ground arith
Step-accepts_none t (shuts_down e) h = ground arith
Step-accepts_none t (joins s a e) h = ground arith

Steps-accept_none :
    (t : ℕ) (p : Pool) {l : List ℕ} {q : Pool} → Steps p l q → IsDraining p → count_task t l ≡ 0
Steps-accept_none t p (here e) h = ground arith
Steps-accept_none t p (next xs ys st s e) h = ground (
  arith,
  Steps-accept_none t p st h,
  Step-accepts_none t s (Steps-IsDraining p st h),
  count_task-append t xs ys,
)

all_returned-any :
    (ws : List Worker) → is_empty ws ≡ false → all_returned ws ≡ true → any_returned ws ≡ true
all_returned-any [] n h = cc
all_returned-any (w ∷ ws) n h = ground arith

all_returned-count_busy : (t : ℕ) (ws : List Worker) → all_returned ws ≡ true → count_busy t ws ≡ 0
all_returned-count_busy t [] h = refl
all_returned-count_busy t (w ∷ ws) h = ground (arith, all_returned-count_busy t ws)

-- If shutdown begins in a running pool of at least one worker with no worker returned and no `submit`
-- between its status check and its push, then once the pool is stopped, in whatever order the threads ran,
-- every task has finished that was queued, running or finished when it began, as often as it was
-- there.
pub shutdown_drains :
    (p : Pool) (l : List ℕ) (q : Pool) (w : Worker) (ws : List Worker) (t : ℕ)
    → p.status ≡ running
    → p.accepted ≡ []
    → p.workers ≡ w ∷ ws
    → any_returned p.workers ≡ false
    → Steps (begin_shutdown p).0 l q
    → q.status ≡ stopped
    → (q.tasks ≡ []) × (all_returned q.workers ≡ true) × (count_task t q.finished ≡ present t p)
unfolding begin_shutdown
shutdown_drains p l q w ws t r a e n st s =
    let drained = Steps-IsDraining (begin_shutdown p).0 st begins in
    let all = drained.joined s in
    let no_tasks = drained.none_left (all_returned-any q.workers drained.staffed all) in
    (
      no_tasks,
      all,
      ground (
        arith,
        no_tasks,
        drained.none_accepted,
        Steps-present t (begin_shutdown p).0 l q st,
        Steps-accept_none t (begin_shutdown p).0 st begins,
        all_returned-count_busy t q.workers all,
      ),
    )
  where
    begins : IsDraining (begin_shutdown p).0
    begins = record {
      not_running = ground arith;
      none_accepted = ground arith;
      none_left = ground arith;
      joined = ground arith;
      staffed = ground arith;
    }

-- Every worker has returned, after which none runs again.
returned-split :
    (before after : List Worker) (w : Worker)
    → all_returned (before ++ w ∷ after) ≡ true
    → w ≡ returned
returned-split [] after returned h = refl
returned-split [] after waiting h = cc
returned-split [] after (busy t) h = cc
returned-split (x ∷ before) after w h = returned-split before after w (ground arith)

Step-over :
    {l : List ℕ} {p q : Pool}
    → Step p l q
    → all_returned p.workers ≡ true
    → (q.finished ≡ p.finished) × (q.workers ≡ p.workers)
unfolding submit_check submit_push begin_shutdown end_shutdown
Step-over (checks task s e) h = ground arith
Step-over (refuses task s e) h = ground arith
Step-over (pushes task before after a e) h = (refl, refl)
Step-over (works before after w e) h =
    cc (returned-split before after waiting (subst (λ ws. all_returned ws ≡ true) w h))
Step-over (completes before after task w e) h =
    cc (returned-split before after (busy task) (subst (λ ws. all_returned ws ≡ true) w h))
Step-over (shuts_down e) h = ground arith
Step-over (joins s a e) h = (refl, refl)

Steps-over :
    (p : Pool) {l : List ℕ} {q : Pool}
    → Steps p l q
    → all_returned p.workers ≡ true
    → (q.finished ≡ p.finished) × (q.workers ≡ p.workers)
Steps-over p (here e) h = (refl, refl)
Steps-over p (next xs ys st s e) h =
    let before = Steps-over p st h in
    let after = Step-over s (subst (λ ws. all_returned ws ≡ true) (sym before.1) h) in
    (after.0 ∙ before.0, after.1 ∙ before.1)

-- The state after the schedule in which a shutdown overtakes a `submit` after its check.
abbrev pub overtaken : ℕ → Pool
overtaken task = record {
  status = stopped;
  accepted = task ∷ [];
  tasks = [];
  workers = returned ∷ [];
  finished = [];
}

overtaken_lem : (task : ℕ) → Steps (start 1) (task ∷ []) (overtaken task)
unfolding submit_check begin_shutdown end_shutdown worker_round
overtaken_lem task =
    next (task ∷ []) []
      (next (task ∷ []) []
        (next (task ∷ []) [] (next [] (task ∷ []) (here refl) (checks task refl refl) refl)
          (shuts_down refl) refl)
        (works [] [] refl refl) refl)
      (joins refl refl refl) refl

-- Once all workers of a pool have returned, no steps finish a task any more, so one that is pushed
-- then is never run. There is a schedule of a pool with one worker in which `submit` sees the pool
-- running, so that it returns success, and a whole shutdown comes before it takes the lock: the pool
-- is stopped and the worker returned while the task is still accepted and not queued.
pub submit_stranded :
    (task : ℕ) (p : Pool) (l : List ℕ) (q : Pool)
    → all_returned p.workers ≡ true
    → Steps p l q
    → (q.finished ≡ p.finished)
      × (all_returned q.workers ≡ true)
      × ((submit_check task (start 1)).1 ≡ no_error)
      × ((late : Pool) × Steps (start 1) (task ∷ []) late
          × (late.status ≡ stopped)
          × (late.accepted ≡ task ∷ [])
          × (all_returned late.workers ≡ true))
unfolding submit_check
submit_stranded task p l q all st =
    let (finished, workers) = Steps-over p st all in
    (
      finished,
      ap all_returned workers ∙ all,
      refl,
      (overtaken task, overtaken_lem task, refl, refl, refl),
    )

-- ===== src/ThreadPool/Interleaving.antt =====
-- The threads of the pool and its users, interleaved: what happens to a task that was accepted.
use launch_cpp.Prelude.{ℕ, ◌+◌, ◌≡◌, refl, List, [], ◌∷◌, ◌++◌, arith, ◌==◌, if◌then◌else◌}
use launch_cpp.ThreadPool.{
  Worker, waiting, busy, returned, Pool, submit_check, submit_push, begin_shutdown, end_shutdown,
  worker_round, worker_done, Step, checks, refuses, pushes, works, completes, shuts_down, joins,
  Steps, here, next,
}

abbrev pub count_task : ℕ → List ℕ → ℕ
count_task t [] = 0
count_task t (x ∷ xs) = (if x == t then 1 else 0) + count_task t xs

abbrev running_task : ℕ → Worker → ℕ
running_task t waiting = 0
running_task t (busy x) = if x == t then 1 else 0
running_task t returned = 0

abbrev pub count_busy : ℕ → List Worker → ℕ
count_busy t [] = 0
count_busy t (w ∷ ws) = running_task t w + count_busy t ws

pub count_task-append :
    (t : ℕ) (xs ys : List ℕ) → count_task t (xs ++ ys) ≡ count_task t xs + count_task t ys
count_task-append t [] ys = omega arith
count_task-append t (x ∷ xs) ys = omega (arith, count_task-append t xs ys)

count_busy-append :
    (t : ℕ) (xs ys : List Worker) → count_busy t (xs ++ ys) ≡ count_busy t xs + count_busy t ys
count_busy-append t [] ys = omega arith
count_busy-append t (x ∷ xs) ys = omega (arith, count_busy-append t xs ys)

-- The places where a task can be.
abbrev pub present : ℕ → Pool → ℕ
present t p =
    count_task t p.accepted
    + count_task t p.tasks
    + count_busy t p.workers
    + count_task t p.finished

present-worker_round :
    (t : ℕ) (before after : List Worker) (tasks : List ℕ) (p : Pool)
    → tasks ≡ p.tasks
    → p.workers ≡ before ++ waiting ∷ after
    → present t (worker_round before after tasks p) ≡ present t p
unfolding worker_round
present-worker_round t before after [] p e w = ground (
  arith,
  count_busy-append t before (waiting ∷ after),
  count_busy-append t before (returned ∷ after),
)
present-worker_round t before after (x ∷ tasks) p e w = ground (
  arith,
  count_busy-append t before (waiting ∷ after),
  count_busy-append t before (busy x ∷ after),
)

Step-present :
    (t : ℕ) {l : List ℕ} {p q : Pool} → Step p l q → present t q ≡ present t p + count_task t l
unfolding submit_check submit_push begin_shutdown end_shutdown worker_round worker_done
Step-present t (checks task s e) = ground arith
Step-present t (refuses task s e) = ground arith
Step-present t {p} (pushes task before after a e) = ground (
  arith,
  count_task-append t before (task ∷ after),
  count_task-append t before after,
  count_task-append t p.tasks (task ∷ []),
)
Step-present t {p} (works before after w e) =
    ground (arith, present-worker_round t before after p.tasks p refl w)
Step-present t {p} (completes before after task w e) = ground (
  arith,
  count_busy-append t before (busy task ∷ after),
  count_busy-append t before (waiting ∷ after),
  count_task-append t p.finished (task ∷ []),
)
Step-present t (shuts_down e) = ground arith
Step-present t (joins s a e) = ground arith

-- Over any interleaving of the threads each task is in as many places as before, plus the times
-- that `submit` accepted it: none is lost, and none runs twice.
pub Steps-present :
    (t : ℕ) (p : Pool) (l : List ℕ) (q : Pool)
    → Steps p l q
    → present t q ≡ present t p + count_task t l
Steps-present t p l q (here e) = ground arith
Steps-present t p l q (next {q = m} xs ys st s e) =
    ground (arith, Steps-present t p xs m st, Step-present t s, count_task-append t xs ys)

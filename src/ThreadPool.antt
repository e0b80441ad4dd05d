-- ===== src/ThreadPool.antt =====
-- src/thread_pool.cpp: a fixed set of workers over one queue of tasks. A step is what one thread
-- does between two points where it may wait; the environment chooses the thread.
pub mod Interleaving
pub mod Draining
use launch_cpp.Prelude.{
  ℕ, zero, suc, Bool, true, false, List, [], ◌∷◌, ◌++◌, codes, ◌≡◌, ◌≢◌, ◌&&◌, ◌||◌, if◌then◌else◌,
}
use launch_cpp.Errors.{Error, no_error, error, internal_error}

pub data Status : Type 0 where
  running shutting_down stopped : Status

-- What a worker does: it waits for work, it runs a task outside the lock, or it has returned.
pub data Worker : Type 0 where
  waiting : Worker
  busy : ℕ → Worker
  returned : Worker

-- A task is a number. `accepted` holds the tasks whose `submit` has seen the pool running and has
-- not taken the lock yet, `tasks` the queue, `finished` the tasks that have run, oldest first.
pub record Pool : Type 0 where
  pub status : Status
  pub accepted : List ℕ
  pub tasks : List ℕ
  pub workers : List Worker
  pub finished : List ℕ

abbrev pub is_running : Status → Bool
is_running running = true
is_running _ = false

abbrev pub replicate : ℕ → Worker → List Worker
replicate zero w = []
replicate (suc n) w = w ∷ replicate n w

-- The constructor.
abbrev pub start : ℕ → Pool
start num_threads = record {
  status = running;
  accepted = [];
  tasks = [];
  workers = replicate num_threads waiting;
  finished = [];
}

-- The first part of `submit`, up to the lock: the status is read, and the result is settled.
unfoldable pub submit_check : ℕ → Pool → Pool × Error
submit_check task p =
    if is_running p.status
    then (record p { accepted = task ∷ p.accepted }, no_error)
    else (p, error internal_error (codes "Thread pool is not running"))

-- The second part, under the lock, whatever the status is by then.
unfoldable pub submit_push : ℕ → List ℕ → Pool → Pool
submit_push task others p = record p { accepted = others; tasks = p.tasks ++ task ∷ [] }

-- The first part of `shutdown`: `true` if this call is the one that goes on to join the threads.
unfoldable pub begin_shutdown : Pool → Pool × Bool
begin_shutdown p =
    if is_running p.status then (record p { status = shutting_down }, true) else (p, false)

-- The last part, when every thread has been joined.
unfoldable pub end_shutdown : Pool → Pool
end_shutdown p = record p { status = stopped }

abbrev pub has_returned : Worker → Bool
has_returned returned = true
has_returned _ = false

abbrev pub all_returned : List Worker → Bool
all_returned [] = true
all_returned (w ∷ workers) = has_returned w && all_returned workers

abbrev pub any_returned : List Worker → Bool
any_returned [] = false
any_returned (w ∷ workers) = has_returned w || any_returned workers

-- One round of `worker_thread` under the lock, by the worker between `before` and `after`: it goes
-- on waiting, returns, or takes the first task.
unfoldable pub worker_round : List Worker → List Worker → List ℕ → Pool → Pool
worker_round before after [] p = record p {
  workers = before ++ (if is_running p.status then waiting else returned) ∷ after;
}
worker_round before after (task ∷ tasks) p = record p {
  tasks = tasks;
  workers = before ++ busy task ∷ after;
}

-- `task()` has run outside the lock.
unfoldable pub worker_done : List Worker → List Worker → ℕ → Pool → Pool
worker_done before after task p = record p {
  workers = before ++ waiting ∷ after;
  finished = p.finished ++ task ∷ [];
}

-- One step of one thread; the list holds the task that a successful `submit` accepts.
pub data Step (p : Pool) : List ℕ → Pool → Type 0 where
  checks :
      {l : List ℕ} (task : ℕ)
      → p.status ≡ running
      → l ≡ task ∷ []
      → Step p l (submit_check task p).0
  refuses : {l : List ℕ} (task : ℕ) → p.status ≢ running → l ≡ [] → Step p l (submit_check task p).0
  pushes :
      {l : List ℕ} (task : ℕ) (before after : List ℕ)
      → p.accepted ≡ before ++ task ∷ after
      → l ≡ []
      → Step p l (submit_push task (before ++ after) p)
  works :
      {l : List ℕ} (before after : List Worker)
      → p.workers ≡ before ++ waiting ∷ after
      → l ≡ []
      → Step p l (worker_round before after p.tasks p)
  completes :
      {l : List ℕ} (before after : List Worker) (task : ℕ)
      → p.workers ≡ before ++ busy task ∷ after
      → l ≡ []
      → Step p l (worker_done before after task p)
  shuts_down : {l : List ℕ} → l ≡ [] → Step p l (begin_shutdown p).0
  joins :
      {l : List ℕ}
      → p.status ≡ shutting_down
      → all_returned p.workers ≡ true
      → l ≡ []
      → Step p l (end_shutdown p)

pub data Steps (p : Pool) : List ℕ → Pool → Type 0 where
  here : {l : List ℕ} → l ≡ [] → Steps p l p
  next :
      {l : List ℕ} {q r : Pool} (xs ys : List ℕ)
      → Steps p xs q
      → Step q ys r
      → l ≡ xs ++ ys
      → Steps p l r

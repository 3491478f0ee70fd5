-- ===== src/ThreadPool.antt =====
-- threadpool/thread_pool.h and thread_pool.cc: a queue of tasks and a fixed number of workers. Each step
-- is what one thread does while it holds the mutex, or the run of a task.
pub mod Shutdown
use file_server.Prelude.{
  ℕ, zero, suc, ◌+◌, ◌≡◌, Bool, true, false, Option, none, some, List, [], ◌∷◌, ◌++◌, length, ◌==◌,
  if◌then◌else◌, arith,
}

-- `idle`, `busy` and `exited`: the workers in `wait`, those in `task()` with their tasks, and those that
-- returned. `submitted`, `started` and `finished` record what happened, in its order.
pub record Pool (Task : Type 0) : Type 0 where
  pub tasks : List Task
  pub running : Bool
  pub idle : ℕ
  pub busy : List Task
  pub exited : ℕ
  pub submitted : List Task
  pub started : List Task
  pub finished : List Task

-- What an idle worker finds in `WorkerLoop`: it waits on, returns, or has the first task.
pub data Wakeup (Task : Type 0) : Type 0 where
  wait return : Wakeup Task
  run : Task → List Task → Wakeup Task

-- The number of workers that the constructor makes of its argument and the number of cores.
unfoldable pub worker_count : ℕ → ℕ → ℕ
worker_count num_threads cores =
    if num_threads == 0 then (if cores == 0 then 4 else cores) else num_threads

module _ {Task : Type 0} where
  unfoldable pub new_pool : ℕ → ℕ → Pool Task
  unfolding worker_count
  new_pool num_threads cores = record {
    tasks = [];
    running = true;
    idle = worker_count num_threads cores;
    busy = [];
    exited = 0;
    submitted = [];
    started = [];
    finished = [];
  }

  -- `Submit`: `none` is the exception of a stopped pool.
  unfoldable pub submit : Task → Pool Task → Option (Pool Task)
  submit task p =
      if p.running
      then some (record p { tasks = p.tasks ++ task ∷ []; submitted = p.submitted ++ task ∷ [] })
      else none

  pub submit_running :
      (task : Task) (p : Pool Task)
      → p.running ≡ true
      → submit task p
        ≡ some (record p { tasks = p.tasks ++ task ∷ []; submitted = p.submitted ++ task ∷ [] })
  unfolding submit
  submit_running task p on = ground arith

  -- `TaskCount`
  unfoldable pub task_count : Pool Task → ℕ
  task_count p = length p.tasks

  -- The start of the destructor.
  unfoldable pub stop : Pool Task → Pool Task
  stop p = record p { running = false }

  unfoldable pub wakeup : Bool → List Task → Wakeup Task
  wakeup true [] = wait
  wakeup false [] = return
  wakeup running (task ∷ rest) = run task rest

  -- The state after a worker woke up, where one is idle; `n` others stay idle.
  unfoldable pub woken : ℕ → Wakeup Task → Pool Task → Pool Task
  woken n wait p = p
  woken n return p = record p { idle = n; exited = suc p.exited }
  woken n (run task rest) p = record p {
    tasks = rest;
    idle = n;
    busy = task ∷ p.busy;
    started = p.started ++ task ∷ [];
  }

  -- The run of the task at a position of `busy` ends.
  unfoldable pub ended : List Task → Task → List Task → Pool Task → Pool Task
  ended before task after p = record p {
    busy = before ++ after;
    idle = suc p.idle;
    finished = p.finished ++ task ∷ [];
  }

pub data Step {Task : Type 0} : Pool Task → Pool Task → Type 0 where
  submits : {p p' : Pool Task} (task : Task) → submit task p ≡ some p' → Step p p'
  wakes : {p : Pool Task} (n : ℕ) → p.idle ≡ suc n → Step p (woken n (wakeup p.running p.tasks) p)
  ends :
      {p : Pool Task} (before : List Task) (task : Task) (after : List Task)
      → p.busy ≡ before ++ task ∷ after
      → Step p (ended before task after p)
  stops : {p : Pool Task} → Step p (stop p)

infixr 20 ◌then◌
pub data Steps {Task : Type 0} : Pool Task → Pool Task → Type 0 where
  here : {p : Pool Task} → Steps p p
  ◌then◌ : {p q r : Pool Task} → Step p q → Steps q r → Steps p r

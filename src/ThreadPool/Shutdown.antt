-- ===== src/ThreadPool/Shutdown.antt =====
-- threadpool/thread_pool.cc: the order of the tasks, and what is left when all workers have returned.
use file_server.Prelude.{
  ℕ, suc, ◌+◌, ◌<◌, ◌≡◌, refl, ap, sym, subst, ◌∙◌, ◌⊎◌, inl, inr, Bool, true, false, some, List,
  [], ◌∷◌, ◌++◌, append_assoc, append-nil, length, length-append, arith, Bool-cases,
}
use file_server.ThreadPool.{
  Pool, worker_count, new_pool, submit, stop, wakeup, woken, ended, Step, submits, wakes, ends,
  stops, Steps, here, ◌then◌,
}

-- Tasks start in the order of their submission; every worker and every started task is accounted for;
-- a worker has returned only of a stopped pool with no tasks.
pub record IsFair {Task : Type 0} (workers : ℕ) (p : Pool Task) : Type 0 where
  pub in_order : p.submitted ≡ p.started ++ p.tasks
  pub all_workers : p.idle + length p.busy + p.exited ≡ workers
  pub all_started : length p.started ≡ length p.busy + length p.finished
  pub exits_last : (p.exited ≡ 0) ⊎ ((p.running ≡ false) × (p.tasks ≡ []))

module _ {Task : Type 0} (workers : ℕ) where
  submit-IsFair :
      (task : Task) (p p' : Pool Task)
      → submit task p ≡ some p'
      → IsFair workers p
      → IsFair workers p'
  unfolding submit
  submit-IsFair task p p' e f = elim (Bool-cases p.running) [
    | inr stopped ↦ absurd (ground arith)
    | inl runs ↦
        let same : record p { tasks = p.tasks ++ task ∷ []; submitted = p.submitted ++ task ∷ [] }
            ≡ p' =
          ground arith in
        subst (IsFair workers) same (record {
          in_order =
              ap (λ ts. ts ++ task ∷ []) f.in_order ∙ append_assoc p.started p.tasks (task ∷ []);
          all_workers = f.all_workers;
          all_started = f.all_started;
          exits_last = elim f.exits_last [
            | inl none_left ↦ inl none_left
            | inr (off, empty) ↦ absurd (cc)
          ];
        })
  ]

  woken-IsFair :
      (n : ℕ) (p : Pool Task)
      → p.idle ≡ suc n
      → IsFair workers p
      → (r : Bool) (ts : List Task) → p.running ≡ r
      → p.tasks ≡ ts
      → IsFair workers (woken n (wakeup r ts) p)
  unfolding woken wakeup
  woken-IsFair n p e f true [] is_r is_ts = f
  woken-IsFair n p e f false [] is_r is_ts = record {
    in_order = f.in_order;
    all_workers = omega (arith, f.all_workers);
    all_started = f.all_started;
    exits_last = inr (is_r, is_ts);
  }
  woken-IsFair n p e f r (task ∷ rest) is_r is_ts = record {
    in_order =
        f.in_order ∙ ap (◌++◌ p.started) is_ts ∙ sym (append_assoc p.started (task ∷ []) rest);
    all_workers = omega (arith, f.all_workers);
    all_started = omega (arith, f.all_started, length-append p.started (task ∷ []));
    exits_last = elim f.exits_last [
      | inl none_left ↦ inl none_left
      | inr (stopped, empty) ↦ absurd (cc)
    ];
  }

  ended-IsFair :
      (before : List Task) (task : Task) (after : List Task) (p : Pool Task)
      → p.busy ≡ before ++ task ∷ after
      → IsFair workers p
      → IsFair workers (ended before task after p)
  unfolding ended
  ended-IsFair before task after p e f = record {
    in_order = f.in_order;
    all_workers = omega (arith, f.all_workers, shorter);
    all_started = omega (arith, f.all_started, shorter, length-append p.finished (task ∷ []));
    exits_last = f.exits_last;
  }
    where
      shorter : length p.busy ≡ suc (length (before ++ after))
      shorter =
          ap length e
          ∙ omega (arith, length-append before (task ∷ after), length-append before after)

  Step-IsFair : (p p' : Pool Task) → Step p p' → IsFair workers p → IsFair workers p'
  unfolding stop
  Step-IsFair p p' (submits task e) f = submit-IsFair task p p' e f
  Step-IsFair p p' (wakes n e) f = woken-IsFair n p e f p.running p.tasks refl refl
  Step-IsFair p p' (ends before task after e) f = ended-IsFair before task after p e f
  Step-IsFair p p' stops f = record {
    in_order = f.in_order;
    all_workers = f.all_workers;
    all_started = f.all_started;
    exits_last = elim f.exits_last [
      | inl none_left ↦ inl none_left
      | inr (off, empty) ↦ inr (refl, empty)
    ];
  }

  Steps-IsFair : (p p' : Pool Task) → Steps p p' → IsFair workers p → IsFair workers p'
  Steps-IsFair p p' here f = f
  Steps-IsFair p p' (◌then◌ {q = q} step steps) f = Steps-IsFair q p' steps (Step-IsFair p q step f)

new_pool-IsFair :
    {Task : Type 0} (num_threads cores : ℕ)
    → IsFair {Task = Task} (worker_count num_threads cores) (new_pool num_threads cores)
unfolding new_pool
new_pool-IsFair num_threads cores = record {
  in_order = refl;
  all_workers = omega arith;
  all_started = refl;
  exits_last = inl refl;
}

some_worker : (num_threads cores : ℕ) → 0 < worker_count num_threads cores
unfolding worker_count
some_worker num_threads cores = ground arith

-- In every run of the pool, however its threads take turns, the submitted tasks are the started
-- ones followed by those in the queue, in the same order; the idle, busy and exited workers are
-- all there are, and as many tasks were started as are running or finished.
pub pool_in_order :
    {Task : Type 0} (num_threads cores : ℕ) (p : Pool Task)
    → Steps (new_pool num_threads cores) p
    → (p.submitted ≡ p.started ++ p.tasks)
      × (p.idle + length p.busy + p.exited ≡ worker_count num_threads cores)
      × (length p.started ≡ length p.busy + length p.finished)
pool_in_order num_threads cores p steps =
    let f = Steps-IsFair _ _ p steps (new_pool-IsFair num_threads cores) in
    (f.in_order, f.all_workers, f.all_started)

-- In every run of the pool in which all workers have returned, every task that was ever submitted
-- has been started, in order, and as many have finished as were submitted; the queue is empty.
pub shutdown_runs_all :
    {Task : Type 0} (num_threads cores : ℕ) (p : Pool Task)
    → Steps (new_pool num_threads cores) p
    → p.exited ≡ worker_count num_threads cores
    → (p.started ≡ p.submitted) × (length p.finished ≡ length p.submitted) × (p.tasks ≡ [])
shutdown_runs_all num_threads cores p steps joined =
    let f = Steps-IsFair _ _ p steps (new_pool-IsFair num_threads cores) in
    elim f.exits_last [
      | inl none_left ↦ absurd (omega (arith, some_worker num_threads cores))
      | inr (off, empty) ↦
          let all : p.started ≡ p.submitted =
            sym (f.in_order ∙ ap (◌++◌ p.started) empty ∙ append-nil p.started) in
          (all, omega (arith, f.all_started, f.all_workers, ap length all), empty)
    ]

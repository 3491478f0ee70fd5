-- ===== src/Examples/Threads.antt =====
-- Runs of the thread pool and of the pool of connections.
use file_server.Prelude.{
  ℕ, ◌+◌, ◌≤◌, ◌≡◌, refl, true, false, Option, none, some, List, [], ◌∷◌, length,
}
use file_server.ThreadPool
use file_server.ThreadPool.{
  worker_count, new_pool, submit, stop, wakeup, woken, ended, submits, wakes, ends, stops, Steps,
  here, ◌then◌,
}
use file_server.ThreadPool.Shutdown.{shutdown_runs_all}
use file_server.Database.Pool
use file_server.Database.Pool.Capacity.{pool_accounts, pool_blocked}

-- One worker, one task, and the destructor.
abbrev waiting : ThreadPool.Pool ℕ
waiting = record {
  tasks = 5 ∷ [];
  running = true;
  idle = 1;
  busy = [];
  exited = 0;
  submitted = 5 ∷ [];
  started = [];
  finished = [];
}

abbrev closed : ThreadPool.Pool ℕ
closed = record {
  tasks = [];
  running = false;
  idle = 0;
  busy = [];
  exited = 1;
  submitted = 5 ∷ [];
  started = 5 ∷ [];
  finished = 5 ∷ [];
}

first_task : Steps (new_pool 1 8) waiting
unfolding new_pool worker_count submit
first_task = submits 5 refl then here

run_to_end : Steps (new_pool 1 8) closed
unfolding new_pool worker_count submit stop wakeup woken ended
run_to_end =
    submits 5 refl then stops then wakes 0 refl then ends [] 5 [] refl then wakes 0 refl then here

one_worker : 1 ≡ worker_count 1 8
unfolding worker_count
one_worker = refl

shutdown_runs_all_example :
    (closed.started ≡ closed.submitted)
    × (length closed.finished ≡ length closed.submitted)
    × (closed.tasks ≡ [])
shutdown_runs_all_example = shutdown_runs_all 1 8 closed run_to_end one_worker

-- A pool of one connection, which dies and cannot be connected again.
abbrev one_connection : List (Option ℕ)
one_connection = some 40 ∷ []

abbrev server_gone : Pool.Answers
server_gone = record { created = none; pings = false; reconnects = false }

abbrev server_back : Pool.Answers
server_back = record { created = some 41; pings = true; reconnects = true }

abbrev lost : Pool.Pool
lost = record { idle = []; total_created = 1; pool_size = 1; lent = []; closed = 40 ∷ [] }

loses : Pool.Steps (Pool.new_pool one_connection) lost
unfolding Pool.new_pool Pool.fill Pool.add_created Pool.get_connection Pool.can_proceed
    Pool.take_from Pool.check
loses = Pool.◌then◌ (Pool.gets server_gone none refl) Pool.here

pool_accounts_example :
    (lost.total_created ≡ length lost.idle + length lost.lent + length lost.closed)
    × (length lost.idle + length lost.lent ≤ length one_connection)
pool_accounts_example = pool_accounts one_connection lost loses

pool_blocked_example : (lost.lent ≡ []) × (Pool.get_connection server_back lost ≡ none)
pool_blocked_example = pool_blocked one_connection lost server_back loses refl

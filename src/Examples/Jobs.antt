-- ===== src/Examples/Jobs.antt =====
-- examples/workergroups/main.c: two workers that run jobs, and main, which hands the jobs out and takes the
-- results, one from each worker in turn. Each program is the tree of its calls in their order.
pub mod Network
pub mod Confluent
pub mod Diamond
pub mod Runs
pub mod Results
use riot_csp_module.Common.{ℕ, zero, suc, ◌+◌, ◌*◌, ◌%◌, List, [], ◌∷◌, ◌++◌, ◌==◌, if◌then◌else◌}

-- task1, task2 and task3
pub data Job : Type 0 where
  task1 task2 task3 : Job

-- the numbers that a task prints, from `i` on
abbrev pub counts : ℕ → ℕ → ℕ → List ℕ
counts factor i zero = []
counts factor i (suc left) = (factor * i) ∷ counts factor (suc i) left

-- A task prints some numbers and returns one.
unfoldable pub run_job : Job → List ℕ × ℕ
run_job task1 = (counts 1 0 1, 1)
run_job task2 = (counts 2 0 2, 2)
run_job task3 = (counts 3 0 3, 3)

-- What a message holds: a number, or the pointer to a task.
pub data Value : Type 0 where
  number : ℕ → Value
  task : Job → Value

-- The threads: main and the two workers.
pub data Who : Type 0 where
  main_thread worker_0 worker_1 : Who

-- The two channels of a worker, jobs[i] and results[i].
pub data Chan : Type 0 where
  jobs results : Chan

-- A program: it has returned (main with the results that it took), an assertion has failed, or it calls
-- channel_send or channel_recv on a channel that it shares with that thread, and goes on.
pub data Prog : Type 0 where
  ends : List ℕ → Prog
  fails : Prog
  sends : Who → Chan → Value → Prog → Prog
  receives : Who → Chan → (Value → Prog) → Prog

-- a program that goes on with the number that it got
unfoldable pub with_number : (ℕ → Prog) → Value → Prog
with_number next (number n) = next n
with_number next (task job) = fails

-- A worker got a job: it runs it, sends what it returns, and goes on.
unfoldable pub run_one : Prog → Value → Prog
run_one rest (number n) = fails
run_one rest (task job) = sends main_thread results (number (run_job job).1) rest

-- the loop of jobber, with `left` jobs to go
unfoldable pub job_loop : ℕ → Prog
job_loop zero = ends []
job_loop (suc left) = receives main_thread jobs (run_one (job_loop left))

-- jobber: it sends the number of its jobs first.
unfoldable pub jobber : ℕ → Prog
jobber jobs_n = sends main_thread jobs (number jobs_n) (job_loop jobs_n)

-- nWorkers
abbrev pub n_workers : ℕ
n_workers = 2

-- nTasks
abbrev pub n_tasks : ℕ
n_tasks = 3

-- whose results[i % nWorkers] it is
abbrev pub worker_at : ℕ → Who
worker_at i = if i % n_workers == 0 then worker_0 else worker_1

-- the last loop of main, from `i` on with `left` to go: it takes results[i % nWorkers], behind those it has
unfoldable pub take_results : ℕ → ℕ → List ℕ → Prog
take_results i zero taken = ends taken
take_results i (suc left) taken =
    receives (worker_at i) results
      (with_number (λ retval. take_results (suc i) left (taken ++ (retval ∷ []))))

-- `assert(temp == 3)`
unfoldable pub assert_three : (ℕ → Prog) → ℕ → Prog
assert_three next temp = if temp == 3 then next temp else fails

-- the six sends of main, with the three tasks
unfoldable pub hand_out : Job → Job → Job → Prog → Prog
hand_out t_0 t_1 t_2 rest = sends worker_0 jobs (task t_0) (
    sends worker_0 jobs (task t_1) (
      sends worker_0 jobs (task t_2) (
        sends worker_1 jobs (task t_0)
          (sends worker_1 jobs (task t_1) (sends worker_1 jobs (task t_2) rest)))))

-- main, after it has made the workers
unfoldable pub groups_main : Job → Job → Job → Prog
unfolding assert_three hand_out take_results
groups_main t_0 t_1 t_2 = receives worker_0 jobs (
    with_number (
      assert_three (λ n_0. receives worker_1 jobs (
        with_number (assert_three (λ n_1. hand_out t_0 t_1 t_2 (take_results 0 (n_0 + n_1) [])))))))

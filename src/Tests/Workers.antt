-- ===== src/Tests/Workers.antt =====
-- Runs of examples/workergroups/main.c.
use riot_csp_module.Common.{ℕ, ◌+◌, ◌≡◌, refl, [], ◌∷◌, arith}
use riot_csp_module.Examples.Jobs.{
  task1, task2, task3, run_job, main_thread, worker_0, jobs, number, job_loop, jobber,
}
use riot_csp_module.Examples.Jobs.Network.{Group, after, key, sent, Runs, here, first}
use riot_csp_module.Examples.Jobs.Results.{group_start, AllDone, jobs-done, by_turns}

-- a worker has told main of its three jobs
abbrev told : Group
told =
    after 1 (job_loop 3) (key worker_0 main_thread jobs) (number 3 ∷ [])
      (group_start task1 task2 task3)

told-Runs : Runs (group_start task1 task2 task3) 1 told
unfolding group_start jobber
told-Runs = first worker_0 (sent main_thread jobs (number 3) (job_loop 3) refl (omega arith)) here

results_by_turns : by_turns task1 task2 task3 ≡ 1 ∷ 1 ∷ 2 ∷ 2 ∷ 3 ∷ 3 ∷ []
unfolding by_turns run_job
results_by_turns = refl

jobs-done_example :
    (left : ℕ) × (end : Group) × (1 + left ≡ 28)
    × Runs told left end
    × AllDone task1 task2 task3 end
jobs-done_example = jobs-done task1 task2 task3 1 told told-Runs

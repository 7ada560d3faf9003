-- ===== src/Examples/Jobs/Results.antt =====
-- main of examples/workergroups/main.c with its two workers: from the state in which main has made both, in any
-- order of their calls.
use riot_csp_module.Common.{ℕ, zero, suc, ◌+◌, ◌≡◌, refl, Option, some, none, List, [], ◌∷◌, arith}
use riot_csp_module.Examples.Jobs.{
  Job, run_job, Who, main_thread, worker_0, worker_1, Prog, ends, jobber, groups_main, n_tasks,
  job_loop, take_results, hand_out, assert_three, with_number, run_one,
}
use riot_csp_module.Examples.Jobs.Network.{Group, Runs}
use riot_csp_module.Examples.Jobs.Runs.{fire, follow, follow-Runs, goes_on}

-- main has made both workers, and nobody has called yet
unfoldable pub group_start : Job → Job → Job → Group
group_start t_0 t_1 t_2 = record { progs = progs; queues = λ k. [] }
  where
    progs : ℕ → Prog
    progs zero = groups_main t_0 t_1 t_2
    progs (suc k) = jobber n_tasks

-- the results of the tasks, each from both workers
unfoldable pub by_turns : Job → Job → Job → List ℕ
by_turns t_0 t_1 t_2 =
    let r_0 = (run_job t_0).1 in
    let r_1 = (run_job t_1).1 in let r_2 = (run_job t_2).1 in r_0 ∷ r_0 ∷ r_1 ∷ r_1 ∷ r_2 ∷ r_2 ∷ []

-- main and the workers have returned, main with all results.
pub AllDone : Job → Job → Job → Group → Type 0
AllDone t_0 t_1 t_2 s =
    (s.progs 0 ≡ ends (by_turns t_0 t_1 t_2)) × (s.progs 1 ≡ ends []) × (s.progs 2 ≡ ends [])

-- one order of the calls
abbrev order : List Who
order =
    worker_0 ∷ worker_1 ∷ main_thread ∷ main_thread ∷ main_thread ∷ main_thread ∷ main_thread
    ∷ main_thread ∷ main_thread ∷ main_thread ∷ worker_0 ∷ worker_0 ∷ worker_0 ∷ worker_0 ∷ worker_0
    ∷ worker_0 ∷ worker_1 ∷ worker_1 ∷ worker_1 ∷ worker_1 ∷ worker_1 ∷ worker_1 ∷ main_thread
    ∷ main_thread ∷ main_thread ∷ main_thread ∷ main_thread ∷ main_thread ∷ []

-- the programs after the calls in that order
programs : Option Group → List Prog
programs none = []
programs (some s) = s.progs 0 ∷ s.progs 1 ∷ s.progs 2 ∷ []

order-ends :
    (t_0 t_1 t_2 : Job)
    → programs (follow order (some (group_start t_0 t_1 t_2)))
      ≡ ends (by_turns t_0 t_1 t_2) ∷ ends [] ∷ ends [] ∷ []
unfolding programs follow fire group_start by_turns jobber groups_main job_loop take_results
    hand_out assert_three with_number run_one
order-ends t_0 t_1 t_2 = refl

-- a state in which all three threads have returned
Done : Job → Job → Job → Group → Type 0
Done t_0 t_1 t_2 end = Runs (group_start t_0 t_1 t_2) 28 end × AllDone t_0 t_1 t_2 end

some_end :
    (t_0 t_1 t_2 : Job) (o : Option Group)
    → follow order (some (group_start t_0 t_1 t_2)) ≡ o
    → programs o ≡ ends (by_turns t_0 t_1 t_2) ∷ ends [] ∷ ends [] ∷ []
    → (end : Group) × Done t_0 t_1 t_2 end
unfolding programs Done AllDone
some_end t_0 t_1 t_2 none e h = absurd (ground arith)
some_end t_0 t_1 t_2 (some end) e h =
    (end, (follow-Runs order _ end e, (ground arith, ground arith, ground arith)))

no_more :
    (t_0 t_1 t_2 : Job) (end : Group) → AllDone t_0 t_1 t_2 end → (w : Who) → fire w end ≡ none
unfolding AllDone fire
no_more t_0 t_1 t_2 end (a, b, c) main_thread = rw a refl
no_more t_0 t_1 t_2 end (a, b, c) worker_0 = rw b refl
no_more t_0 t_1 t_2 end (a, b, c) worker_1 = rw c refl

-- main of examples/workergroups and its two workers make their calls in any order, over buffered channels
-- that hold up to four messages for each direction. Whatever calls they have made, they can go on until all
-- three have returned, main with the results of the tasks, each from both workers, in the order of the
-- tasks. A run has 28 calls in all.
pub jobs-done :
    (t_0 t_1 t_2 : Job) (made : ℕ) (now : Group)
    → Runs (group_start t_0 t_1 t_2) made now
    → (left : ℕ) × (end : Group) × (made + left ≡ 28) × Runs now left end × AllDone t_0 t_1 t_2 end
unfolding Done
jobs-done t_0 t_1 t_2 made now run =
    let (end, (all, done)) = some_end t_0 t_1 t_2 _ refl (order-ends t_0 t_1 t_2) in
    let (left, sum, rest) = goes_on _ now end 28 made all (no_more t_0 t_1 t_2 end done) run in
    (left, end, sum, rest, done)

-- ===== src/Examples/Duel.antt =====
-- The workers of measurements/thread_dueling/main.c as processes, and main, which starts six of them and
-- waits until they have finished.
pub mod Waits
use riot_csp_module.Common.{
  ℕ, zero, suc, ◌+◌, ◌-◌, ◌%◌, ◌^◌, Option, none, some, List, [], ◌∷◌, ◌==◌, if◌then◌else◌,
}
use riot_csp_module.Examples.Worker.{Round, worker}

-- the resting strategies
pub data WaitFn : Type 0 where
  nice_wait bad_wait yield_wait no_wait : WaitFn

-- struct worker_config
pub record WorkerConfig : Type 0 where
  pub waitfn : WaitFn
  pub workload : ℕ

-- THREAD_1, THREAD_2 and THREAD_3
abbrev thread_1 : WorkerConfig
thread_1 = record { waitfn = no_wait; workload = 5 }

abbrev thread_2 : WorkerConfig
thread_2 = record { waitfn = no_wait; workload = 5 }

abbrev thread_3 : WorkerConfig
thread_3 = record { waitfn = no_wait; workload = 5 }

-- How main starts thread_worker: by thread_create with a priority, or by GO.
data Start : Type 0 where
  thread_create : ℕ → WorkerConfig → Start
  go : WorkerConfig → Start

abbrev started : List Start
started =
    thread_create 7 thread_2
    ∷ thread_create 7 thread_2
    ∷ thread_create 7 thread_3
    ∷ go thread_1
    ∷ go thread_2
    ∷ go thread_3
    ∷ []

abbrev pub worker_count : ℕ
worker_count = 6

-- `--worker_count` on a 32-bit word
unfoldable pub finish_work : ℕ → ℕ
finish_work count = (count + (2 ^ 32 - 1)) % 2 ^ 32

-- thread_worker: the rounds of its worker and the count that it leaves, or `none` if it has not ended
-- after `fuel` rounds.
unfoldable pub thread_worker : WorkerConfig → ℕ → ℕ → Option (List Round × ℕ)
thread_worker wc fuel count = elim (worker wc.workload fuel) [
  | none ↦ none
  | some rounds ↦ some (rounds, finish_work count)
]

-- csp_worker takes its configuration from a channel, and waits if there is none.
unfoldable pub csp_worker : List WorkerConfig → ℕ → ℕ → Option (List Round × ℕ)
csp_worker [] fuel count = none
csp_worker (wc ∷ configs) fuel count = thread_worker wc fuel count

unfoldable pub finish_all : ℕ → ℕ → ℕ
finish_all zero count = count
finish_all (suc n) count = finish_all n (finish_work count)

-- `while (worker_count != 0) { thread_yield(); }`, where before its looks so many workers finish: how often
-- it has yielded when it goes on, or `none` if it has not after these looks.
unfoldable pub wait_workers : ℕ → ℕ → List ℕ → Option ℕ
wait_workers yields count [] = none
wait_workers yields count (finished ∷ later) =
    let rest = wait_workers (suc yields) (finish_all finished count) later in
    if finish_all finished count == 0 then some yields else rest

-- ===== src/Examples/Worker/Rounds.antt =====
-- When the workers of measurements/thread_dueling/main.c and measurements/simple_work/main.c end.
use riot_csp_module.Common.{
  ℕ, zero, suc, ◌+◌, ◌-◌, ◌*◌, ◌^◌, ◌≤◌, ◌<◌, ◌≡◌, ◌≢◌, refl, ap, ◌∙◌, false, Option, none, some,
  List, ◌∷◌, ◌++◌, length, ◌==◌, if◌then◌else◌, arith, ==-eq_true, ==-eq_false, ltb-eq_false,
}
use riot_csp_module.Examples.Worker.{
  worker, worker_loop, measure_count, steps_per_set, work_of, wrap, is_due, wrapper_csp, work_csp,
  work_count, Round, duel_worker, duel_loop,
}

-- how many rounds a run has
abbrev pub rounds : Option (List Round) → Option ℕ
rounds none = none
rounds (some rs) = some (length rs)

one_more : Option ℕ → Option ℕ
one_more none = none
one_more (some n) = some (suc n)

rounds-more :
    (r : Round) (o : Option (List Round))
    → rounds (elim o [ none ↦ none | some rs ↦ some (r ∷ rs) ]) ≡ one_more (rounds o)
unfolding one_more
rounds-more r none = refl
rounds-more r (some rs) = refl

-- one round of a loop that is not at its end
loop_step :
    (work w step fuel : ℕ)
    → (w == measure_count) ≡ false
    → rounds (worker_loop work w step (suc fuel))
      ≡ one_more
          (rounds (worker_loop work (wrap (w + work)) (if is_due w step then w else step) fuel))
unfolding worker_loop
loop_step work w step fuel h = rw h (rounds-more _ _)

loop-rounds :
    (work k w step : ℕ)
    → 0 < work
    → w + k * work ≡ measure_count
    → rounds (worker_loop work w step (suc k)) ≡ some k
unfolding worker_loop one_more
loop-rounds work zero w step pos e = rw (==-eq_true w measure_count (omega arith))
loop-rounds work (suc k) w step pos e =
    loop_step work w step (suc k) (==-eq_false w measure_count (omega arith))
    ∙ ap one_more (loop-rounds work k (wrap (w + work)) _ pos (omega arith))

-- A workload of 1 to STEPS_PER_SET that divides measure_count: the worker ends after measure_count
-- / workload rounds.
worker-ends :
    (workload k : ℕ)
    → 0 < workload
    → workload ≤ steps_per_set
    → k * workload ≡ measure_count
    → rounds (worker workload (suc k)) ≡ some k
unfolding worker
worker-ends workload k pos le e =
    rw (ltb-eq_false steps_per_set workload le) (loop-rounds workload k 0 0 pos (omega arith))

idle-none : (step fuel : ℕ) → 0 ≢ measure_count → worker_loop 0 0 step fuel ≡ none
unfolding worker_loop
idle-none step zero h = refl
idle-none step (suc fuel) h = rw (idle-none (if is_due 0 step then 0 else step) fuel h)

-- A workload of 0, the lower end of the range that the program names: the worker does not end.
worker-loops : (fuel : ℕ) → worker 0 fuel ≡ none
unfolding worker
worker-loops fuel = idle-none 0 fuel (omega arith)

takes :
    (taken i left : ℕ) (more : List ℕ)
    → i + suc left ≡ work_count
    → work_csp taken (wrapper_csp i (suc left) ++ more) ≡ some (taken + suc left)
unfolding work_csp wrapper_csp
takes taken i zero more e = rw (==-eq_true i (work_count - 1) (omega arith)) (ap some (omega arith))
takes taken i (suc left) more e =
    rw (==-eq_false i (work_count - 1) (omega arith))
      (takes (suc taken) (suc i) left more (omega arith) ∙ ap some (omega arith))

-- work_csp takes all the messages that one run of wrapper_csp sends, and no more: it ends at the last of
-- them, whatever messages follow in the channel.
pub work_csp-ends :
    (more : List ℕ) → work_csp 0 (wrapper_csp 0 work_count ++ more) ≡ some work_count
work_csp-ends more = takes 0 0 (work_count - 1) more refl

count-loop :
    (work w step n : ℕ) → w < 2 ^ 32 → (duel_loop work w step n).count ≡ wrap (w + n * work)
unfolding duel_loop
count-loop work w step zero small = omega arith
count-loop work w step (suc n) small =
    count-loop work (wrap (w + work)) _ n (omega arith) ∙ omega arith

-- The worker of examples/thread_duel_csp/main.c: after `n` rounds its count is `n` times its work, as a
-- 32-bit word, for each workload.
duel-count : (workload n : ℕ) → (duel_worker workload n).count ≡ wrap (n * work_of workload)
unfolding duel_worker
duel-count workload n = count-loop (work_of workload) 0 0 n (omega arith) ∙ ap wrap (omega arith)

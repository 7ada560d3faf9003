-- ===== src/Examples/Duel/Waits.antt =====
-- main of measurements/thread_dueling/main.c goes on when its workers have finished, and not before.
use riot_csp_module.Common.{
  ℕ, zero, suc, ◌+◌, ◌-◌, ◌<◌, ◌≤◌, ◌%◌, ◌^◌, ◌≡◌, ap, ◌∙◌, some, List, [], ◌∷◌, ◌++◌, length,
  arith, ==-eq_true, ==-eq_false_pos,
}
use riot_csp_module.Examples.Duel.{worker_count, finish_work, finish_all, wait_workers}

finish_all-eq : (n count : ℕ) → n ≤ count → count < 2 ^ 32 → finish_all n count ≡ count - n
unfolding finish_all finish_work
finish_all-eq zero count le small = omega arith
finish_all-eq (suc n) count le small =
    finish_all-eq n ((count + (2 ^ 32 - 1)) % 2 ^ 32) (omega arith) (omega arith) ∙ omega arith

abbrev pub total : List ℕ → ℕ
total [] = 0
total (n ∷ ns) = n + total ns

waits-on :
    (before later : List ℕ) (last count yields : ℕ)
    → count < 2 ^ 32
    → total before < count
    → total before + last ≡ count
    → wait_workers yields count (before ++ (last ∷ later)) ≡ some (yields + length before)
unfolding wait_workers
waits-on [] later last count yields small less e =
    rw
      (==-eq_true (finish_all last count) 0
        (omega (arith, finish_all-eq last count (omega arith) small)))
      (ap some (omega arith))
waits-on (n ∷ before) later last count yields small less e =
    rw
      (
        ==-eq_false_pos (finish_all n count)
            (omega (arith, finish_all-eq n count (omega arith) small)),
        finish_all-eq n count (omega arith) small,
      )
      (waits-on before later last (count - n) (suc yields) (omega arith) (omega arith) (omega arith)
        ∙ ap some (omega arith))

-- Before each look of main some of the workers finish, fewer than all six before the looks of `before`,
-- and the rest of the six before the next look: main yields as often as `before` has looks, and goes on.
wait_workers-all :
    (before later : List ℕ) (last : ℕ)
    → total before < worker_count
    → total before + last ≡ worker_count
    → wait_workers 0 worker_count (before ++ (last ∷ later)) ≡ some (length before)
wait_workers-all before later last less e =
    waits-on before later last worker_count 0 (omega arith) less e ∙ ap some (omega arith)

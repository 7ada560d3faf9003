-- ===== src/Examples/Simple/Old/Agrees.antt =====
-- The two versions of measurements/simple_work do the same work and print the same results.
use riot_csp_module.Common.{ℕ, zero, suc, ◌≡◌, true, false, refl, ap, sym, ◌∙◌, some, List, [], ◌∷◌}
use riot_csp_module.Examples.Worker.{work_csp, wrapper_csp, work_count}
use riot_csp_module.Examples.Simple.{
  sums, print_result, wrapper_thread1, wrapper_thread2, add_times, simple_main,
}
use riot_csp_module.Examples.Simple.Same.{messages, variants-agree}
use riot_csp_module.Examples.Simple.Old.{
  old_print_result, OldAction, creates, go, wakes, sends, waits, send_null, old_send_numbers,
  old_wrapper_thread1, old_wrapper_thread2, old_wrapper_csp, old_work_thread, old_work_csp,
  old_add_times, old_simple_main, old_print_result,
}

-- the numbers that a wrapper sends
abbrev pub old_messages : List OldAction → List ℕ
old_messages [] = []
old_messages (creates asleep ∷ actions) = old_messages actions
old_messages (go ∷ actions) = old_messages actions
old_messages (wakes ∷ actions) = old_messages actions
old_messages (sends value ∷ actions) = value ∷ old_messages actions
old_messages (waits yielding ∷ actions) = old_messages actions
old_messages (send_null ∷ actions) = old_messages actions

-- What follows the numbers sends none.
old_messages-send_numbers :
    (i left : ℕ) (after : List OldAction)
    → old_messages after ≡ []
    → old_messages (old_send_numbers i left after) ≡ wrapper_csp i left
unfolding old_send_numbers wrapper_csp
old_messages-send_numbers i zero after e = e
old_messages-send_numbers i (suc left) after e =
    ap (λ r. i ∷ r) (old_messages-send_numbers (suc i) left after e)

old_work_thread-eq :
    (taken : ℕ) (values : List ℕ) → old_work_thread taken values ≡ work_csp taken values
unfolding old_work_thread work_csp
old_work_thread-eq taken [] = refl
old_work_thread-eq taken (value ∷ rest) = rw (old_work_thread-eq (suc taken) rest) refl

old_work_csp-eq : (taken : ℕ) (values : List ℕ) → old_work_csp taken values ≡ work_csp taken values
unfolding old_work_csp work_csp
old_work_csp-eq taken [] = refl
old_work_csp-eq taken (value ∷ rest) = rw (old_work_csp-eq (suc taken) rest) refl

old_add_times-eq :
    (times : ℕ → ℕ × ℕ × ℕ) (i left : ℕ) (sums : ℕ × ℕ × ℕ)
    → old_add_times times i left sums ≡ add_times times i left sums
unfolding old_add_times add_times
old_add_times-eq times i zero sums = refl
old_add_times-eq times i (suc left) sums = old_add_times-eq times (suc i) left _

-- Each wrapper of old_main.h sends the numbers that the same one of main.c sends, each receiver that gets
-- them ends at the last of them, as in main.c, and main prints the same results for the same times.
pub old-agrees :
    (times : ℕ → ℕ × ℕ × ℕ)
    → ((old_messages old_wrapper_thread1 ≡ messages wrapper_thread1)
        × (old_messages old_wrapper_thread2 ≡ messages wrapper_thread2)
        × (old_messages old_wrapper_csp ≡ wrapper_csp 0 work_count))
      × ((old_work_thread 0 (old_messages old_wrapper_thread1) ≡ some work_count)
          × (old_work_thread 0 (old_messages old_wrapper_thread2) ≡ some work_count)
          × (old_work_csp 0 (old_messages old_wrapper_csp) ≡ some work_count))
      × (old_simple_main times ≡ simple_main times)
unfolding old_wrapper_thread1 old_wrapper_thread2 old_wrapper_csp old_simple_main simple_main sums
    print_result old_print_result
old-agrees times =
    let sent = old_messages-send_numbers 0 work_count in
    let same = variants-agree in
    let thread_ends : (after : List OldAction)
        → old_messages after ≡ []
        → old_work_thread 0 (old_messages (old_send_numbers 0 work_count after)) ≡ some work_count =
      λ after e. old_work_thread-eq 0 _ ∙ ap (work_csp 0) (sent after e) ∙ same.4 in
    (
      (
        sent (waits true ∷ []) refl ∙ sym same.0,
        sent (waits false ∷ []) refl ∙ sym same.1,
        sent (send_null ∷ []) refl,
      ),
      (
        thread_ends (waits true ∷ []) refl,
        thread_ends (waits false ∷ []) refl,
        old_work_csp-eq 0 _ ∙ ap (work_csp 0) (sent (send_null ∷ []) refl) ∙ same.4,
      ),
      ap (λ (s : ℕ × ℕ × ℕ). (print_result s.0, print_result s.1, print_result s.2))
          (old_add_times-eq times 0 10 (0, 0, 0)),
    )

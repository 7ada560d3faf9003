-- ===== src/Examples/Simple/Same.antt =====
-- The three variants of measurements/simple_work/main.c do the same work.
use riot_csp_module.Common.{ℕ, zero, suc, ◌≡◌, refl, ap, ◌∙◌, sym, some, List, [], ◌∷◌, append-nil}
use riot_csp_module.Examples.Worker.{work_csp, wrapper_csp, work_count}
use riot_csp_module.Examples.Worker.Rounds.{work_csp-ends}
use riot_csp_module.Examples.Simple.{
  Action, creates, wakes, sends, waits, send_numbers, wrapper_thread1, wrapper_thread2, work_thread,
}

-- the messages among the actions
abbrev pub messages : List Action → List ℕ
messages [] = []
messages (creates asleep ∷ actions) = messages actions
messages (wakes ∷ actions) = messages actions
messages (sends value ∷ actions) = value ∷ messages actions
messages (waits ∷ actions) = messages actions

pub messages-send_numbers :
    (i left : ℕ) → messages (send_numbers i left (waits ∷ [])) ≡ wrapper_csp i left
unfolding send_numbers wrapper_csp
messages-send_numbers i zero = refl
messages-send_numbers i (suc left) = ap (λ r. i ∷ r) (messages-send_numbers (suc i) left)

work_thread-eq : (taken : ℕ) (values : List ℕ) → work_thread taken values ≡ work_csp taken values
unfolding work_thread work_csp
work_thread-eq taken [] = refl
work_thread-eq taken (value ∷ rest) = rw (work_thread-eq (suc taken) rest) refl

thread-ends :
    (actions : List Action)
    → messages actions ≡ wrapper_csp 0 work_count
    → work_thread 0 (messages actions) ≡ some work_count
thread-ends actions e = rw e (
    work_thread-eq 0 (wrapper_csp 0 work_count)
    ∙ ap (work_csp 0) (sym (append-nil (wrapper_csp 0 work_count)))
    ∙ work_csp-ends [])

-- Both wrappers over the messages of RIOT send the same numbers as the one over a channel, and all three
-- receivers end at the last of them.
pub variants-agree :
    (messages wrapper_thread1 ≡ wrapper_csp 0 work_count)
    × (messages wrapper_thread2 ≡ wrapper_csp 0 work_count)
    × (work_thread 0 (messages wrapper_thread1) ≡ some work_count)
    × (work_thread 0 (messages wrapper_thread2) ≡ some work_count)
    × (work_csp 0 (wrapper_csp 0 work_count) ≡ some work_count)
unfolding wrapper_thread1 wrapper_thread2
variants-agree =
    let same = messages-send_numbers 0 work_count in
    (
      same,
      same,
      thread-ends wrapper_thread1 same,
      thread-ends wrapper_thread2 same,
      ap (work_csp 0) (sym (append-nil (wrapper_csp 0 work_count))) ∙ work_csp-ends [],
    )

-- ===== src/Examples/Simple/Old.antt =====
-- measurements/simple_work/old_main.h, an older version of main.c beside it: work_csp and wrapper_csp end
-- with a null pointer over the channel, and wrapper_thread2 waits without a yield.
pub mod Agrees
use riot_csp_module.Common.{
  ℕ, zero, suc, ◌+◌, ◌-◌, ◌/◌, ◌%◌, ◌^◌, Bool, true, false, Option, none, some, List, [], ◌∷◌, ◌==◌,
  if◌then◌else◌, bit_or,
}

-- WORK_COUNT
abbrev pub old_work_count : ℕ
old_work_count = 65535

-- What a wrapper does: it makes its thread, asleep or not, or its process, wakes the thread, sends a number,
-- waits until the thread is gone, with a yield after each look or without, or sends a null pointer.
pub data OldAction : Type 0 where
  creates : Bool → OldAction
  go wakes : OldAction
  sends : ℕ → OldAction
  waits : Bool → OldAction
  send_null : OldAction

-- `for (i …; i != WORK_COUNT; ++i)`, from `i` on with `left` to go
pub old_send_numbers : ℕ → ℕ → List OldAction → List OldAction
old_send_numbers i zero after = after
old_send_numbers i (suc left) after = sends i ∷ old_send_numbers (suc i) left after

pub old_wrapper_thread1 : List OldAction
old_wrapper_thread1 = creates false ∷ old_send_numbers 0 old_work_count (waits true ∷ [])

pub old_wrapper_thread2 : List OldAction
old_wrapper_thread2 = creates true ∷ wakes ∷ old_send_numbers 0 old_work_count (waits false ∷ [])

pub old_wrapper_csp : List OldAction
old_wrapper_csp = go ∷ old_send_numbers 0 old_work_count (send_null ∷ [])

-- work_thread over the messages that it receives: how many it takes until it ends, or `none` if it waits
-- for a message.
pub old_work_thread : ℕ → List ℕ → Option ℕ
old_work_thread taken [] = none
old_work_thread taken (value ∷ rest) =
    let more = old_work_thread (suc taken) rest in
    if value == old_work_count - 1 then some (suc taken) else more

-- The loop of work_csp, which is that of work_thread over a channel: how many messages it takes. The
-- channel_recv with a null pointer that follows returns at once, since the channel is buffered.
pub old_work_csp : ℕ → List ℕ → Option ℕ
old_work_csp taken [] = none
old_work_csp taken (value ∷ rest) =
    let more = old_work_csp (suc taken) rest in
    if value == old_work_count - 1 then some (suc taken) else more

-- measure_count, and the loop of main with its sums as 32-bit words
abbrev old_measure_count : ℕ
old_measure_count = 10

pub old_add_times : (ℕ → ℕ × ℕ × ℕ) → ℕ → ℕ → ℕ × ℕ × ℕ → ℕ × ℕ × ℕ
old_add_times times i zero sums = sums
old_add_times times i (suc left) (thread1_sum, thread2_sum, csp_sum) =
    let (thread1, thread2, csp) = times i in
    old_add_times times (suc i) left
      ((thread1_sum + thread1) % 2 ^ 32, (thread2_sum + thread2) % 2 ^ 32, (csp_sum + csp) % 2 ^ 32)

-- print_result: the sum and the average
pub old_print_result : ℕ → ℕ × ℕ
old_print_result timestamp = (timestamp, timestamp / old_measure_count)

-- what main prints of the three variants
pub old_simple_main : (ℕ → ℕ × ℕ × ℕ) → (ℕ × ℕ) × (ℕ × ℕ) × (ℕ × ℕ)
old_simple_main times =
    let (thread1_sum, thread2_sum, csp_sum) = old_add_times times 0 old_measure_count (0, 0, 0) in
    (old_print_result thread1_sum, old_print_result thread2_sum, old_print_result csp_sum)

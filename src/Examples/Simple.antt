-- ===== src/Examples/Simple.antt =====
-- The variants of measurements/simple_work/main.c over the messages of RIOT, and main, which adds up the
-- times of all three variants. work_csp and wrapper_csp stand in Worker.antt.
pub mod Same
pub mod Old
pub mod Sums
use riot_csp_module.Common.{
  ℕ, zero, suc, ◌+◌, ◌-◌, ◌/◌, ◌%◌, ◌^◌, Bool, true, false, Option, none, some, List, [], ◌∷◌, ◌==◌,
  if◌then◌else◌, bit_or,
}
use riot_csp_module.Examples.Worker.{work_count}

-- What a wrapper does: it makes its thread, asleep or not, wakes it, sends it a number, or waits until it
-- is gone.
pub data Action : Type 0 where
  creates : Bool → Action
  wakes : Action
  sends : ℕ → Action
  waits : Action

-- `for (i …; i != WORK_COUNT; ++i)`, from `i` on with `left` to go
pub send_numbers : ℕ → ℕ → List Action → List Action
send_numbers i zero after = after
send_numbers i (suc left) after = sends i ∷ send_numbers (suc i) left after

pub wrapper_thread1 : List Action
wrapper_thread1 = creates false ∷ send_numbers 0 work_count (waits ∷ [])

pub wrapper_thread2 : List Action
wrapper_thread2 = creates true ∷ wakes ∷ send_numbers 0 work_count (waits ∷ [])

-- work_thread over the messages that it receives: how many it takes until it ends, or `none` if it waits
-- for a message.
pub work_thread : ℕ → List ℕ → Option ℕ
work_thread taken [] = none
work_thread taken (value ∷ rest) =
    let more = work_thread (suc taken) rest in
    if value == work_count - 1 then some (suc taken) else more

-- `while (thread_getstatus (pid) != (STATUS_STOPPED | STATUS_NOT_FOUND))`, over the statuses at its looks
-- and the numbers of the two: how often it has yielded, or `none` if it still loops after these looks.
wait_gone : ℕ → ℕ → ℕ → List ℕ → Option ℕ
wait_gone stopped not_found yields [] = none
wait_gone stopped not_found yields (status ∷ later) =
    let rest = wait_gone stopped not_found (suc yields) later in
    if status == bit_or stopped not_found then some yields else rest

-- measure_count, and the loop of main: the three sums as 32-bit words, where the `i`-th runs take so long
abbrev pub measure_count : ℕ
measure_count = 10

pub add_times : (ℕ → ℕ × ℕ × ℕ) → ℕ → ℕ → ℕ × ℕ × ℕ → ℕ × ℕ × ℕ
add_times times i zero sums = sums
add_times times i (suc left) (thread1_sum, thread2_sum, csp_sum) =
    let (thread1, thread2, csp) = times i in
    add_times times (suc i) left
      ((thread1_sum + thread1) % 2 ^ 32, (thread2_sum + thread2) % 2 ^ 32, (csp_sum + csp) % 2 ^ 32)

pub sums : (ℕ → ℕ × ℕ × ℕ) → ℕ × ℕ × ℕ
sums times = add_times times 0 measure_count (0, 0, 0)

-- print_result: the sum and the average
pub print_result : ℕ → ℕ × ℕ
print_result timestamp = (timestamp, timestamp / measure_count)

-- what main prints of the three variants
pub simple_main : (ℕ → ℕ × ℕ × ℕ) → (ℕ × ℕ) × (ℕ × ℕ) × (ℕ × ℕ)
simple_main times =
    let (thread1_sum, thread2_sum, csp_sum) = sums times in
    (print_result thread1_sum, print_result thread2_sum, print_result csp_sum)

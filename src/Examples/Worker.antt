-- ===== src/Examples/Worker.antt =====
-- The worker of measurements/thread_dueling/main.c and examples/thread_duel_csp/main.c, which counts up
-- by its work in each round and rests; and work_csp and wrapper_csp of
-- measurements/simple_work/main.c, which pass WORK_COUNT numbered messages.
pub mod Rounds
use riot_csp_module.Common.{
  ℕ, zero, suc, ◌+◌, ◌-◌, ◌*◌, ◌/◌, ◌%◌, ◌^◌, Bool, true, false, Option, none, some, List, [], ◌∷◌,
  ◌==◌, ltb, if◌then◌else◌,
}

-- STEPS_PER_SET, WORK_SCALE, PRINT_STEPS and measure_count
abbrev pub steps_per_set : ℕ
steps_per_set = 10

abbrev work_scale : ℕ
work_scale = 1000

abbrev print_steps : ℕ
print_steps = 10

abbrev pub measure_count : ℕ
measure_count = 1 * work_scale

-- a uint32_t
abbrev pub wrap : ℕ → ℕ
wrap n = n % 2 ^ 32

-- What a worker does in one round: whether it prints its count, how long it works, how long it rests.
pub record Round : Type 0 where
  pub prints : Bool
  pub works : ℕ
  pub rests : ℕ

-- the work of a set, half of the steps if the given value is out of range
abbrev pub work_of : ℕ → ℕ
work_of workload = if ltb steps_per_set workload then steps_per_set / 2 else workload

-- `w - step >= PRINT_STEPS` on 32-bit words
abbrev pub is_due : ℕ → ℕ → Bool
is_due w step = if ltb (wrap (w + (2 ^ 32 - step))) print_steps then false else true

-- The loop of `worker` from the count `w` on: its rounds, or `none` if it has not ended after `fuel`
-- rounds. `step` is the count at the last print.
pub worker_loop : ℕ → ℕ → ℕ → ℕ → Option (List Round)
worker_loop work w step zero = none
worker_loop work w step (suc fuel) =
    let due = is_due w step in
    let rest = worker_loop work (wrap (w + work)) (if due then w else step) fuel in
    let round : Round = record {
      prints = due;
      works = wrap (work * work_scale);
      rests = wrap ((steps_per_set - work) * work_scale);
    } in
    if w == measure_count
    then some []
    else (elim rest [ none ↦ none | some rounds ↦ some (round ∷ rounds) ])

pub worker : ℕ → ℕ → Option (List Round)
worker workload fuel = worker_loop (work_of workload) 0 0 fuel

-- WORK_COUNT
abbrev pub work_count : ℕ
work_count = 65535

-- The messages of wrapper_csp, from number `i` on with `left` to go.
unfoldable pub wrapper_csp : ℕ → ℕ → List ℕ
wrapper_csp i zero = []
wrapper_csp i (suc left) = i ∷ wrapper_csp (suc i) left

-- work_csp over the messages that it receives: how many it takes until it ends, or `none` if it waits
-- for a message.
unfoldable pub work_csp : ℕ → List ℕ → Option ℕ
work_csp taken [] = none
work_csp taken (value ∷ rest) =
    let more = work_csp (suc taken) rest in
    if value == work_count - 1 then some (suc taken) else more

-- thread_worker of examples/thread_duel_csp/main.c has the same loop without an end: its first rounds,
-- and the count after them.
pub record Duel : Type 0 where
  pub count : ℕ
  pub rounds : List Round

pub duel_loop : ℕ → ℕ → ℕ → ℕ → Duel
duel_loop work w step zero = record { count = w; rounds = [] }
duel_loop work w step (suc left) =
    let due = is_due w step in
    let rest = duel_loop work (wrap (w + work)) (if due then w else step) left in
    record {
      count = rest.count;
      rounds =
          record {
            prints = due;
            works = wrap (work * work_scale);
            rests = wrap ((steps_per_set - work) * work_scale);
          }
          ∷ rest.rounds;
    }

pub duel_worker : ℕ → ℕ → Duel
duel_worker workload n = duel_loop (work_of workload) 0 0 n

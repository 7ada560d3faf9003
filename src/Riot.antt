-- ===== src/Riot.antt =====
-- What the module calls of RIOT OS, whose sources are a git submodule: the ring buffer of
-- ringbuffer.h (the rb_ names of modules/csp/include/csp.h without TSRB), and the threads, the
-- scheduler and the interrupt mask of thread.h, sched.h and irq.h. Both are parameters of the
-- model: a record of the operations with their documented behaviour as fields.
pub mod Model
use riot_csp_module.Common.{
  ℕ, ◌-◌, ◌≤◌, min, Bool, List, ◌++◌, [], ◌≡◌, ◌≢◌, length, take, drop, ◌==◌,
}

-- The values of thread_status_t that the module names; `other` is any further one.
pub data Status : Type 0 where
  stopped zombie sleeping pending : Status
  other : ℕ → Status

-- A byte is any number: the module moves bytes and never computes with them.
pub record RingBuffer : Type 1 where
  pub Rb : Type 0
  -- RB_INIT over an array of so many bytes
  pub rb_init : ℕ → Rb
  -- rb_add: the buffer, and how many bytes went in
  pub rb_add : Rb → List ℕ → Rb × ℕ
  -- rb_get: the buffer, and the bytes taken out (their number is the C result)
  pub rb_get : Rb → ℕ → Rb × List ℕ
  -- rb_peek: the bytes read
  pub rb_peek : Rb → ℕ → List ℕ
  -- rb_drop, which is ringbuffer_remove: the buffer, and how many bytes went
  pub rb_drop : Rb → ℕ → Rb × ℕ
  pub rb_empty : Rb → Bool
  -- rb_avail, which is ringbuffer_get_free: the room left
  pub rb_avail : Rb → ℕ
  -- the bytes that a buffer holds, oldest first, and its size
  pub contents : Rb → List ℕ
  pub capacity : Rb → ℕ
  pub length-contents-le : (b : Rb) → length (contents b) ≤ capacity b
  pub contents-init : (n : ℕ) → contents (rb_init n) ≡ []
  pub capacity-init : (n : ℕ) → capacity (rb_init n) ≡ n
  pub avail_lem : (b : Rb) → rb_avail b ≡ capacity b - length (contents b)
  pub empty_lem : (b : Rb) → rb_empty b ≡ (length (contents b) == 0)
  -- only the bytes that fit are added, from the front of the list
  pub add-count :
      (b : Rb) (xs : List ℕ) → (rb_add b xs).1 ≡ min (length xs) (capacity b - length (contents b))
  pub add-contents :
      (b : Rb) (xs : List ℕ)
      → contents (rb_add b xs).0 ≡ contents b ++ take (capacity b - length (contents b)) xs
  pub add-capacity : (b : Rb) (xs : List ℕ) → capacity (rb_add b xs).0 ≡ capacity b
  pub get-bytes : (b : Rb) (n : ℕ) → (rb_get b n).1 ≡ take n (contents b)
  pub get-contents : (b : Rb) (n : ℕ) → contents (rb_get b n).0 ≡ drop n (contents b)
  pub get-capacity : (b : Rb) (n : ℕ) → capacity (rb_get b n).0 ≡ capacity b
  pub peek_lem : (b : Rb) (n : ℕ) → rb_peek b n ≡ take n (contents b)
  pub drop-count : (b : Rb) (n : ℕ) → (rb_drop b n).1 ≡ min n (length (contents b))
  pub drop-contents : (b : Rb) (n : ℕ) → contents (rb_drop b n).0 ≡ drop n (contents b)
  pub drop-capacity : (b : Rb) (n : ℕ) → capacity (rb_drop b n).0 ≡ capacity b

-- A `thread_t *` that is not null is the identity of its thread, and so is a kernel_pid_t.
pub record Kernel : Type 1 where
  pub State : Type 0
  -- thread_getpid and thread_get_active
  pub getpid : State → ℕ
  pub status : State → ℕ → Status
  pub priority : State → ℕ → ℕ
  -- sched_set_status
  pub set_status : ℕ → Status → State → State
  -- irq_disable returns the mask that it replaces; irq_restore puts one back
  pub irq_disable : State → ℕ × State
  pub irq_restore : ℕ → State → State
  pub irq_is_in : State → Bool
  -- whether interrupts are off
  pub masked : State → Bool
  pub status-set_status_self : (t : ℕ) (s : Status) (k : State) → status (set_status t s k) t ≡ s
  pub status-set_status_ne :
      (t u : ℕ) (s : Status) (k : State) → t ≢ u → status (set_status t s k) u ≡ status k u
  pub getpid-set_status : (t : ℕ) (s : Status) (k : State) → getpid (set_status t s k) ≡ getpid k
  pub masked-set_status : (t : ℕ) (s : Status) (k : State) → masked (set_status t s k) ≡ masked k
  pub irq_is_in-set_status :
      (t : ℕ) (s : Status) (k : State) → irq_is_in (set_status t s k) ≡ irq_is_in k
  pub status-irq_disable : (k : State) (t : ℕ) → status (irq_disable k).1 t ≡ status k t
  pub status-irq_restore : (m : ℕ) (k : State) (t : ℕ) → status (irq_restore m k) t ≡ status k t
  pub getpid-irq_disable : (k : State) → getpid (irq_disable k).1 ≡ getpid k
  pub getpid-irq_restore : (m : ℕ) (k : State) → getpid (irq_restore m k) ≡ getpid k
  pub irq_is_in-irq_disable : (k : State) → irq_is_in (irq_disable k).1 ≡ irq_is_in k
  pub irq_is_in-irq_restore : (m : ℕ) (k : State) → irq_is_in (irq_restore m k) ≡ irq_is_in k
  pub masked-irq_disable : (k : State) → masked (irq_disable k).1 ≡ Bool.true
  -- the mask that irq_disable returned brings back what it replaced
  pub masked-irq_restore : (k k' : State) → masked (irq_restore (irq_disable k).0 k') ≡ masked k

pub record Riot : Type 1 where
  pub buffers : RingBuffer
  pub open buffers use *
  pub kernel : Kernel
  pub open kernel use *

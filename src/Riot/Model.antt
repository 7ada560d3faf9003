-- ===== src/Riot/Model.antt =====
-- A value of each interface: a ring buffer that is the list of its bytes, and a kernel with a
-- running thread, a status for each thread and one interrupt mask. The tests run on it.
use riot_csp_module.Common.{
  ℕ, ◌+◌, ◌-◌, min, Bool, false, List, ◌++◌, [], ◌≡◌, ◌≢◌, refl, length, take, drop, ◌==◌, not,
  arith, if◌then◌else◌, length-append, length-take, length-drop,
}
use riot_csp_module.Riot.{RingBuffer, Kernel, Riot, Status, other}

-- The bytes held, and the room left.
pub record ListBuffer : Type 0 where
  pub held : List ℕ
  pub room : ℕ

abbrev pub size : ListBuffer → ℕ
size b = length b.held + b.room

abbrev pub add : ListBuffer → List ℕ → ListBuffer × ℕ
add b xs = (
  record { held = b.held ++ take (size b - length b.held) xs; room = b.room - length xs },
  min (length xs) (size b - length b.held),
)

abbrev remove : ListBuffer → ℕ → ListBuffer
remove b n = record { held = drop n b.held; room = b.room + min n (length b.held) }

pub size-add : (b : ListBuffer) (xs : List ℕ) → size (add b xs).0 ≡ size b
size-add b xs = omega (
  arith,
  length-append b.held (take (size b - length b.held) xs),
  length-take (size b - length b.held) xs,
)

pub size-remove : (b : ListBuffer) (n : ℕ) → size (remove b n) ≡ size b
size-remove b n = omega (arith, length-drop n b.held)

pub avail_lem : (b : ListBuffer) → b.room ≡ size b - length b.held
avail_lem b = omega arith

abbrev list_buffers : RingBuffer
list_buffers = record {
  Rb = ListBuffer;
  rb_init = λ n. record { held = []; room = n };
  rb_add = add;
  rb_get = λ b n. (remove b n, take n b.held);
  rb_peek = λ b n. take n b.held;
  rb_drop = λ b n. (remove b n, min n (length b.held));
  rb_empty = λ b. length b.held == 0;
  rb_avail = λ b. b.room;
  contents = λ b. b.held;
  capacity = size;
  length-contents-le = λ b. omega arith;
  contents-init = λ n. refl;
  capacity-init = λ n. omega arith;
  avail_lem = avail_lem;
  empty_lem = λ b. refl;
  add-count = λ b xs. refl;
  add-contents = λ b xs. refl;
  add-capacity = size-add;
  get-bytes = λ b n. refl;
  get-contents = λ b n. refl;
  get-capacity = size-remove;
  peek_lem = λ b n. refl;
  drop-count = λ b n. refl;
  drop-contents = λ b n. refl;
  drop-capacity = size-remove;
}

pub record Threads : Type 0 where
  pub running : ℕ
  pub status_of : ℕ → Status
  pub mask : ℕ
  pub in_irq : Bool

abbrev pub set_status : ℕ → Status → Threads → Threads
set_status t s k = record k { status_of = λ u. if t == u then s else k.status_of u }

pub set_status_self : (t : ℕ) (s : Status) (k : Threads) → (set_status t s k).status_of t ≡ s
set_status_self t s k = ground arith

pub set_status_ne :
    (t u : ℕ) (s : Status) (k : Threads) → t ≢ u → (set_status t s k).status_of u ≡ k.status_of u
set_status_ne t u s k h = ground arith

abbrev one_mask : Kernel
one_mask = record {
  State = Threads;
  getpid = λ k. k.running;
  status = λ k. k.status_of;
  priority = λ k t. 6;
  set_status = set_status;
  irq_disable = λ k. (k.mask, record k { mask = 1 });
  irq_restore = λ m k. record k { mask = m };
  irq_is_in = λ k. k.in_irq;
  masked = λ k. not (k.mask == 0);
  status-set_status_self = set_status_self;
  status-set_status_ne = set_status_ne;
  getpid-set_status = λ t s k. refl;
  masked-set_status = λ t s k. refl;
  irq_is_in-set_status = λ t s k. refl;
  status-irq_disable = λ k t. refl;
  status-irq_restore = λ m k t. refl;
  getpid-irq_disable = λ k. refl;
  getpid-irq_restore = λ m k. refl;
  irq_is_in-irq_disable = λ k. refl;
  irq_is_in-irq_restore = λ m k. refl;
  masked-irq_disable = λ k. refl;
  masked-irq_restore = λ k k'. refl;
}

abbrev pub model : Riot
model = record { buffers = list_buffers; kernel = one_mask }

-- Thread `t` runs, all others are ready, interrupts are on.
abbrev pub running_thread : ℕ → Threads
running_thread t = record { running = t; status_of = λ _. other 9; mask = 0; in_irq = false }

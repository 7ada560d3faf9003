-- ===== src/Csp.antt =====
-- The processes of modules/csp/csp.c and modules/csp/include/csp.h: struct csp_context, its making by
-- _csp, its run by csp_dispatch, csp_kill, csp_running, csp_wait and csp_ret.
pub mod Lifecycle
pub mod Macros
use riot_csp_module.Common.{
  ℕ, zero, suc, ◌+◌, ◌-◌, ◌%◌, ◌^◌, Bool, true, false, Option, none, some, ◌==◌, not, if◌then◌else◌,
  bit_and, bit_or, ltb,
}

-- enum CSP_FLAGS
abbrev pub csp_stop : ℕ
csp_stop = 0

abbrev csp_skip : ℕ
csp_skip = 1

abbrev pub csp_running_flag : ℕ
csp_running_flag = 2

-- What thread_create returns: the id of a thread, -EINVAL, or -EOVERFLOW.
pub data KernelPid : Type 0 where
  pid : ℕ → KernelPid
  einval eoverflow : KernelPid

-- A process function is called with its arguments and a channel, or with its arguments alone. `A`
-- stands for a `void *`, `C` for a `channel *`.
pub record CspFunc (A C : Type 0) : Type 0 where
  pub with_channel : A → C → A
  pub alone : A → A

-- struct csp_context; `params.c` may be null, and `retval` is null until the process has returned.
pub record CspCtx (A C : Type 0) : Type 0 where
  pub id : KernelPid
  pub flags : ℕ
  pub proc : CspFunc A C
  pub args : A
  pub c : Option C
  pub retval : Option A

-- What the module calls of the threads of RIOT, with their state: thread_create, sched_task_exit,
-- sched_set_status of a thread to STATUS_ZOMBIE, and thread_kill_zombie with its result.
pub record CspKernel : Type 1 where
  pub Threads : Type 0
  -- where the stack starts in the memory handed over, and its size as a 32-bit word. The new thread may run
  -- before thread_create returns, since it is ready at once and has the higher priority: the second
  -- result says whether its process has by then returned.
  pub thread_create : ℕ → ℕ → Threads → KernelPid × (Bool × Threads)
  pub sched_task_exit : Threads → Threads
  pub set_zombie : KernelPid → Threads → Threads
  pub thread_kill_zombie : KernelPid → Threads → ℕ × Threads

-- `sizeof (csp_ctx)` and its alignment.
pub record CtxLayout : Type 0 where
  pub size : ℕ
  pub align : ℕ

-- `csp_ctx_size`: `(size + align - 1) & ~(align - 1)`
abbrev pub csp_ctx_size : CtxLayout → ℕ
csp_ctx_size l = (l.size + l.align - 1) - bit_and (l.size + l.align - 1) (l.align - 1)

-- a subtraction of two size_t
abbrev pub sub_size : ℕ → ℕ → ℕ
sub_size a b = (a + (2 ^ 32 - b)) % 2 ^ 32

-- `((int)sp.size - sizeof (csp_ctx)) > 0`: a size_t compared with 0
pub stack_fits : CtxLayout → ℕ → Bool
stack_fits l size = ltb 0 (sub_size (size % 2 ^ 32) l.size)

-- What _csp returns: nothing, as its assertion fails, a null pointer, or the context.
pub data CspResult (A C : Type 0) : Type 0 where
  assert_failed : CspResult A C
  null : CspResult A C
  ctx : CspCtx A C → CspResult A C

module _ {A C : Type 0} where
  -- the switch on `ctx->id`
  pub check_id : CspCtx A C → KernelPid → CspResult A C
  check_id x (pid n) = ctx (record x { id = pid n })
  check_id x einval = null
  check_id x eoverflow = null

  unfoldable pub call_proc : CspFunc A C → A → Option C → A
  call_proc f args none = f.alone args
  call_proc f args (some c) = f.with_channel args c

  -- what csp_dispatch does to the context: it stores what the function returns, and then the flag
  pub dispatched : CspCtx A C → CspCtx A C
  unfolding call_proc
  dispatched x = record x {
    retval = some (call_proc x.proc x.args x.c);
    flags = bit_or x.flags csp_stop;
  }

  -- csp_dispatch, which the new thread runs
  pub csp_dispatch : (K : CspKernel) → CspCtx A C → K.Threads → CspCtx A C × K.Threads
  unfolding dispatched
  csp_dispatch K x t = (dispatched x, K.sched_task_exit t)

  -- _csp, with a stack of `size` bytes. The id is stored when thread_create has returned.
  pub csp_create :
      (K : CspKernel)
      → CtxLayout
      → ℕ
      → CspFunc A C
      → Option C
      → A
      → K.Threads
      → CspResult A C × K.Threads
  csp_create K l size f c args t =
      let fresh : CspCtx A C = record {
        id = pid 0;
        flags = csp_running_flag;
        proc = f;
        args = args;
        c = c;
        retval = none;
      } in
      let (id, (ran, t')) = K.thread_create (csp_ctx_size l) (sub_size size (csp_ctx_size l)) t in
      if not (stack_fits l size)
      then (assert_failed, t)
      else (check_id (if ran then dispatched fresh else fresh) id, t')

  -- csp_kill: `flags &= ~CSP_RUNNING`, and the thread goes
  pub csp_kill : (K : CspKernel) → CspCtx A C → K.Threads → ℕ × CspCtx A C × K.Threads
  csp_kill K x t =
      let (result, t') = K.thread_kill_zombie x.id (K.set_zombie x.id t) in
      (result, record x { flags = x.flags - bit_and x.flags csp_running_flag }, t')

  -- csp_running; with true it has yielded
  unfoldable pub csp_running : CspCtx A C → Bool
  csp_running x = not (bit_and x.flags csp_running_flag == 0)

  -- csp_wait, which looks at the context again after each yield: what it finds at the next looks is
  -- `seen i`. How often it has looked when it returns, or `none` if it still loops after `fuel` looks.
  pub csp_wait : (ℕ → CspCtx A C) → ℕ → ℕ → Option ℕ
  csp_wait seen i zero = none
  csp_wait seen i (suc fuel) =
      let rest = csp_wait seen (suc i) fuel in if csp_running (seen i) then rest else some i

  abbrev pub csp_ret : CspCtx A C → Option A
  csp_ret x = x.retval

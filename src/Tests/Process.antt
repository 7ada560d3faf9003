-- ===== src/Tests/Process.antt =====
-- One process, made, run, waited for and killed, over threads that are counted.
use riot_csp_module.Common.{ℕ, true, false, suc, ◌+◌, ◌≡◌, refl, none, some, inr, arith}
use riot_csp_module.Csp.{
  pid, CspFunc, CspCtx, CspKernel, CtxLayout, ctx, csp_create, csp_dispatch, csp_running, csp_wait,
  csp_running_flag, call_proc,
}
use riot_csp_module.Csp.Lifecycle.{wait-loops, csp-creates}

-- The state is the number of threads made so far.
abbrev kernel : CspKernel
kernel = record {
  Threads = ℕ;
  thread_create = λ offset size t. (pid (suc t), (false, suc t));
  sched_task_exit = λ t. t;
  set_zombie = λ id t. t;
  thread_kill_zombie = λ id t. (1, t);
}

-- A process that adds one to its argument, or its channel's number.
abbrev adds : CspFunc ℕ ℕ
adds = record { with_channel = λ args c. args + c; alone = λ args. suc args }

abbrev process : CspCtx ℕ ℕ
process = record { id = pid 4; flags = 2; proc = adds; args = 10; c = some 5; retval = none }

abbrev layout : CtxLayout
layout = record { size = 24; align = 4 }

wait-loops_example : csp_wait (λ _. (csp_dispatch kernel process 3).0) 0 100 ≡ none
unfolding csp_running
wait-loops_example =
    wait-loops kernel process 3 (λ _. (csp_dispatch kernel process 3).0) 100 (omega arith) refl
      (λ i. inr refl)

-- A kernel that runs the new thread to its end at once.
abbrev eager : CspKernel
eager = record kernel { thread_create = λ offset size t. (pid (suc t), (true, suc t)) }

-- A stack of eight bytes, less than a context takes, passes the assertion; the process has returned.
csp-creates_example :
    (csp_create eager layout 8 adds none 10 3).0
    ≡ ctx (record {
      id = pid 4;
      flags = csp_running_flag;
      proc = adds;
      args = 10;
      c = none;
      retval = some 11;
    })
unfolding call_proc
csp-creates_example = csp-creates eager layout 8 adds none 10 3 (omega arith) (omega arith)

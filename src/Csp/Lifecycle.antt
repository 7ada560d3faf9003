-- ===== src/Csp/Lifecycle.antt =====
-- The life of a process of modules/csp/csp.c: made, run to its end, killed, waited for.
use riot_csp_module.Common.{
  Bool, ℕ, zero, suc, ◌-◌, ◌%◌, ◌^◌, ◌<◌, ◌≡◌, ◌≢◌, ◌⊎◌, inl, inr, refl, ap, ◌∙◌, true, false,
  Option, none, some, ◌==◌, if◌then◌else◌, bit_and, bit_or, ltb, arith, passes, passes_lem,
  Bool-cases,
}
use riot_csp_module.Csp.{
  KernelPid, pid, einval, eoverflow, CspFunc, CspCtx, CspKernel, CtxLayout, CspResult,
  assert_failed, null, ctx, csp_create, csp_dispatch, csp_kill, csp_running, csp_wait, stack_fits,
  check_id, call_proc, dispatched, csp_running_flag, csp_stop, csp_ret, sub_size, csp_ctx_size,
}

-- Only the flags of enum CSP_FLAGS are set.
abbrev CspFlags : ℕ → Type 0
CspFlags flags = flags < 4

or_stop : (flags : ℕ) → CspFlags flags → bit_or flags csp_stop ≡ flags
unfolding passes
or_stop flags h = ground (arith, passes_lem (λ f. bit_or f csp_stop == f) 4 flags h refl)

clear_running :
    (flags : ℕ)
    → CspFlags flags
    → (bit_and (flags - bit_and flags csp_running_flag) csp_running_flag == 0) ≡ true
unfolding passes
clear_running flags h =
    passes_lem (λ f. bit_and (f - bit_and f csp_running_flag) csp_running_flag == 0) 4 flags h refl

-- Looks at a process that all find it running.
looks-none :
    {A C : Type 0} (seen : ℕ → CspCtx A C) (i fuel : ℕ)
    → ((j : ℕ) → csp_running (seen j) ≡ true)
    → csp_wait seen i fuel ≡ none
unfolding csp_wait
looks-none seen i zero h = refl
looks-none seen i (suc fuel) h = rw (h i) (looks-none seen (suc i) fuel h)

-- What a caller gets for the result of thread_create, if the process has returned by then and if not.
abbrev pub created : {A C : Type 0} → CspFunc A C → Option C → A → Bool → KernelPid → CspResult A C
created f c args ran (pid n) = ctx (record {
  id = pid n;
  flags = csp_running_flag;
  proc = f;
  args = args;
  c = c;
  retval = if ran then some (call_proc f args c) else none;
})
created f c args ran einval = null
created f c args ran eoverflow = null

-- the context before its thread is made
abbrev fresh : {A C : Type 0} → CspFunc A C → Option C → A → CspCtx A C
fresh f c args = record {
  id = pid 0;
  flags = csp_running_flag;
  proc = f;
  args = args;
  c = c;
  retval = none;
}

check_id-created :
    {A C : Type 0} (f : CspFunc A C) (c : Option C) (args : A) (ran : Bool) (id : KernelPid)
    → check_id (if ran then dispatched (fresh f c args) else fresh f c args) id
      ≡ created f c args ran id
unfolding check_id dispatched
check_id-created f c args true (pid n) = refl
check_id-created f c args false (pid n) = refl
check_id-created f c args true einval = refl
check_id-created f c args false einval = refl
check_id-created f c args true eoverflow = refl
check_id-created f c args false eoverflow = refl

module _ {A C : Type 0} (K : CspKernel) where
  -- The run of a process stores what its function returns, for csp_ret, but csp_running then says
  -- the same of it as before: a process that has returned still counts as running. The process has
  -- no flags but those of enum CSP_FLAGS.
  dispatch-running :
      (x : CspCtx A C) (t : K.Threads)
      → CspFlags x.flags
      → (csp_running (csp_dispatch K x t).0 ≡ csp_running x)
        × (csp_ret (csp_dispatch K x t).0 ≢ none)
  unfolding csp_running csp_dispatch dispatched
  dispatch-running x t h = (rw (or_stop x.flags h), λ e. cc)

  -- A thread waits with csp_wait for a running process, whose context it finds at each look as it
  -- is before or after the process has run to its end. Then csp_wait has not returned after any
  -- number of looks. The process has no flags but those of enum CSP_FLAGS.
  pub wait-loops :
      (x : CspCtx A C) (t : K.Threads) (seen : ℕ → CspCtx A C) (fuel : ℕ)
      → CspFlags x.flags
      → csp_running x ≡ true
      → ((i : ℕ) → (seen i ≡ x) ⊎ (seen i ≡ (csp_dispatch K x t).0))
      → csp_wait seen 0 fuel ≡ none
  wait-loops x t seen fuel h r looks = looks-none seen 0 fuel (λ j. elim (looks j) [
    | inl before ↦ ap csp_running before ∙ r
    | inr after ↦ ap csp_running after ∙ (dispatch-running x t h).0 ∙ r
  ])

  -- After csp_kill a process is not running, whatever it was, and csp_wait returns at its first
  -- look. The process has no flags but those of enum CSP_FLAGS.
  kill-stops :
      (x : CspCtx A C) (t : K.Threads) (fuel : ℕ)
      → CspFlags x.flags
      → (csp_running (csp_kill K x t).1 ≡ false)
        × (csp_wait (λ _. (csp_kill K x t).1) 0 (suc fuel) ≡ some 0)
  unfolding csp_running csp_kill csp_wait
  kill-stops x t fuel h = (rw (clear_running x.flags h), rw (clear_running x.flags h))

  -- _csp with a stack that is not of exactly the size of a context (sizes below 2 ^ 32): if
  -- thread_create returns the id of a thread, the result is a running context with this id. Its
  -- return value is that of the process if the new thread has run the process to its end before
  -- thread_create returned, and else null, so that csp_ret, which does not wait, gets a null pointer.
  -- If thread_create returns an error, the result is a null pointer. Only a stack of exactly that
  -- size fails the assertion.
  pub csp-creates :
      (l : CtxLayout) (size : ℕ) (f : CspFunc A C) (c : Option C) (args : A) (t : K.Threads)
      → size < 2 ^ 32
      → l.size < 2 ^ 32
      → (csp_create K l size f c args t).0 ≡ (
          let made = K.thread_create (csp_ctx_size l) (sub_size size (csp_ctx_size l)) t in
          if size == l.size then assert_failed else created f c args made.1.0 made.0)
  unfolding csp_create stack_fits
  csp-creates l size f c args t h hl = elim (Bool-cases (size == l.size)) [
    | inl same ↦ rw (same, exact same) refl
    | inr differ ↦ rw (differ, fits differ) (check_id-created f c args _ _)
  ]
    where
      exact : (size == l.size) ≡ true → ltb 0 (sub_size (size % 2 ^ 32) l.size) ≡ false
      exact e = ground arith

      fits : (size == l.size) ≡ false → ltb 0 (sub_size (size % 2 ^ 32) l.size) ≡ true
      fits e = ground arith

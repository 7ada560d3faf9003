-- ===== src/Csp/Macros.antt =====
-- The macros of modules/csp/include/csp.h that start a process: VA_NARGS, CSP_GET_ARGS and GO.
use riot_csp_module.Common.{
  Bool, ℕ, ◌<◌, ◌^◌, ◌≡◌, ◌≢◌, ==_ne, refl, ◌∙◌, Option, none, some, List, [], ◌∷◌,
}
use riot_csp_module.Csp.{
  CspFunc, CspKernel, CtxLayout, CspResult, assert_failed, null, ctx, csp_create, csp_dispatch,
  dispatched, KernelPid, csp_ret, call_proc, pid, csp_ctx_size, sub_size,
}
use riot_csp_module.Csp.Lifecycle.{csp-creates, created}

-- What a process gets as its arguments: a pointer, which may be null, or an array of pointers.
pub data Args (V : Type 0) : Type 0 where
  pointer : Option V → Args V
  array : List (Option V) → Args V

module _ {V : Type 0} where
  -- CSP_GET_ARGS over VA_NARGS: the channel and the arguments. With more than three values VA_NARGS is the
  -- fourth of them, which names no macro.
  unfoldable pub csp_get_args : List (Option V) → Option (Option V × Args V)
  csp_get_args [] = some (none, pointer none)
  csp_get_args (x ∷ []) = some (none, pointer x)
  csp_get_args (x ∷ y ∷ []) = some (y, pointer x)
  csp_get_args (x ∷ y ∷ z ∷ []) = some (x, array (y ∷ z ∷ []))
  csp_get_args (x ∷ y ∷ z ∷ u ∷ more) = none

  -- GO_SIZ, and GO with THREAD_STACKSIZE_CSP for the size, with a function and values; `none`: it does not
  -- compile.
  unfoldable pub go_siz :
      (K : CspKernel)
      → CtxLayout
      → ℕ
      → CspFunc (Args V) V
      → List (Option V)
      → K.Threads
      → Option (CspResult (Args V) V × K.Threads)
  go_siz K l size f values t = elim (csp_get_args values) [
    | none ↦ none
    | some a ↦ some (csp_create K l size f a.0 a.1 t)
  ]

  -- a call of the function, with a channel that is not null or without one
  abbrev pub applied : CspFunc (Args V) V → Args V → Option V → Args V
  applied f args none = f.alone args
  applied f args (some c) = f.with_channel args c

  -- The call of the function that GO stands for.
  abbrev pub called : CspFunc (Args V) V → List (Option V) → Option (Args V)
  called f [] = some (f.alone (pointer none))
  called f (x ∷ []) = some (f.alone (pointer x))
  called f (x ∷ c ∷ []) = some (applied f (pointer x) c)
  called f (c ∷ y ∷ z ∷ []) = some (applied f (array (y ∷ z ∷ [])) c)
  called f _ = none

module _ {V : Type 0} (K : CspKernel) (l : CtxLayout) (size : ℕ) (f : CspFunc (Args V) V) where
  -- What a process has returned, when its thread has run it to its end: once more changes nothing.
  abbrev pub returned : Option (CspResult (Args V) V × K.Threads) → Option (Args V)
  returned none = none
  returned (some (assert_failed, t)) = none
  returned (some (null, t)) = none
  returned (some (ctx x, t)) = csp_ret (csp_dispatch K x t).0

  -- what thread_create returns
  abbrev made_now : K.Threads → KernelPid × (Bool × K.Threads)
  made_now t = K.thread_create (csp_ctx_size l) (sub_size size (csp_ctx_size l)) t

  created-returned :
      (c : Option V) (args : Args V) (t : K.Threads) (n : ℕ)
      → size < 2 ^ 32
      → l.size < 2 ^ 32
      → size ≢ l.size
      → (K.thread_create (csp_ctx_size l) (sub_size size (csp_ctx_size l)) t).0 ≡ pid n
      → returned (some (csp_create K l size f c args t)) ≡ some (call_proc f args c)
  unfolding csp_dispatch dispatched
  created-returned c args t n small layout differ e =
      let made : (csp_create K l size f c args t).0 ≡ created f c args (made_now t).1.0 (pid n) =
        csp-creates K l size f c args t small layout ∙ rw (==_ne size l.size differ, e) refl in
      rw made refl

  -- GO with a stack that is not of exactly the size of a context (sizes below 2 ^ 32), where thread_create
  -- makes a thread. The process that it starts returns what the function returns for the values: alone
  -- with the first as its argument, or with that and the second as its channel, or, for three values,
  -- with the first as its channel and the others as an array. A channel that is null is left out.
  pub go-calls :
      (values : List (Option V)) (t : K.Threads) (n : ℕ)
      → size < 2 ^ 32
      → l.size < 2 ^ 32
      → size ≢ l.size
      → (K.thread_create (csp_ctx_size l) (sub_size size (csp_ctx_size l)) t).0 ≡ pid n
      → returned (go_siz K l size f values t) ≡ called f values
  unfolding go_siz csp_get_args call_proc
  go-calls [] t n small layout differ e = created-returned none _ t n small layout differ e
  go-calls (x ∷ []) t n small layout differ e = created-returned none _ t n small layout differ e
  go-calls (x ∷ none ∷ []) t n small layout differ e =
      created-returned none _ t n small layout differ e
  go-calls (x ∷ some c ∷ []) t n small layout differ e =
      created-returned (some c) _ t n small layout differ e
  go-calls (none ∷ y ∷ z ∷ []) t n small layout differ e =
      created-returned none _ t n small layout differ e
  go-calls (some c ∷ y ∷ z ∷ []) t n small layout differ e =
      created-returned (some c) _ t n small layout differ e
  go-calls (x ∷ y ∷ z ∷ u ∷ more) t n small layout differ e = refl

-- ===== src/Examples/Jobs/Runs.antt =====
-- The calls of the programs of examples/workergroups/main.c as a function, and what one run that ends tells
-- of all the others.
use riot_csp_module.Common.{
  ℕ, suc, ◌+◌, ◌≡◌, ◌≢◌, refl, sym, ◌∙◌, List, [], ◌∷◌, ◌++◌, length, arith, subst, Bool-cases, inl,
  inr, Option, some, none, ltb, ltb-eq_true, if◌then◌else◌, ◌⊎◌,
}
use riot_csp_module.Examples.Jobs.{
  Who, main_thread, worker_0, worker_1, Chan, Value, Prog, ends, fails, sends, receives,
}
use riot_csp_module.Examples.Jobs.Network.{
  num, key, most, Group, after, Step, sent, got, Runs, here, first,
}
use riot_csp_module.Examples.Jobs.Diamond.{diamond}

abbrev pub take : Who → ℕ → (Value → Prog) → List Value → Group → Option Group
take w k next [] s = none
take w k next (v ∷ rest) s = some (after (num w) (next v) k rest s)

abbrev pub call : Who → Prog → Group → Option Group
call w (ends taken) s = none
call w fails s = none
call w (sends j l v p) s =
    if ltb (length (s.queues (key w j l))) most
    then some (after (num w) p (key w j l) (s.queues (key w j l) ++ (v ∷ [])) s)
    else none
call w (receives j l next) s = take w (key j w l) next (s.queues (key j w l)) s

-- The next call of a thread, when it can make it.
unfoldable pub fire : Who → Group → Option Group
fire w s = call w (s.progs (num w)) s

Step-fire : (w : Who) (s t : Group) → Step w s t → fire w s ≡ some t
unfolding fire
Step-fire w s _ (sent j l v p e room) =
    rw (e, ltb-eq_true (length (s.queues (key w j l))) most room) refl
Step-fire w s _ (got j l next v rest e is) = rw (e, is) refl

take-Step :
    (w : Who) (s t : Group) (j : Who) (l : Chan) (next : Value → Prog)
    → s.progs (num w) ≡ receives j l next
    → (q : List Value) → s.queues (key j w l) ≡ q
    → take w (key j w l) next q s ≡ some t
    → Step w s t
take-Step w s t j l next e [] is h = absurd (ground arith)
take-Step w s t j l next e (v ∷ rest) is h =
    subst (Step w s) (ground arith) (got j l next v rest e is)

call-Step :
    (w : Who) (s t : Group) (p : Prog) → s.progs (num w) ≡ p → call w p s ≡ some t → Step w s t
call-Step w s t (ends taken) e h = absurd (ground arith)
call-Step w s t fails e h = absurd (ground arith)
call-Step w s t (sends j l v p) e h = elim (Bool-cases (ltb (length (s.queues (key w j l))) most)) [
  | inl room ↦ subst (Step w s) (ground arith) (sent j l v p e (ground arith))
  | inr full ↦ absurd (ground arith)
]
call-Step w s t (receives j l next) e h = take-Step w s t j l next e _ refl h

fire-Step : (w : Who) (s t : Group) → fire w s ≡ some t → Step w s t
unfolding fire
fire-Step w s t h = call-Step w s t _ refl h

same_who : (w w' : Who) → (w ≡ w') ⊎ (num w ≢ num w')
same_who main_thread main_thread = inl refl
same_who main_thread worker_0 = inr (λ e. absurd (omega arith))
same_who main_thread worker_1 = inr (λ e. absurd (omega arith))
same_who worker_0 main_thread = inr (λ e. absurd (omega arith))
same_who worker_0 worker_0 = inl refl
same_who worker_0 worker_1 = inr (λ e. absurd (omega arith))
same_who worker_1 main_thread = inr (λ e. absurd (omega arith))
same_who worker_1 worker_0 = inr (λ e. absurd (omega arith))
same_who worker_1 worker_1 = inl refl

-- A thread has one next call.
same_step : (w : Who) (s a b : Group) → Step w s a → Step w s b → a ≡ b
same_step w s a b x y =
    let both : some a ≡ some b = sym (Step-fire w s a x) ∙ Step-fire w s b y in ground arith

-- the rest of a run to an end, once one thread has made a call
Rest : Group → ℕ → Group → Type 0
Rest t n end = (m : ℕ) × (n ≡ suc m) × Runs t m end

Ended : Group → Type 0
Ended end = (w : Who) → fire w end ≡ none

one_step :
    (s t end : Group) (n : ℕ) (w : Who) → Runs s n end → Ended end → Step w s t → Rest t n end
unfolding Rest Ended
one_step s t _ _ w here stuck x =
    let both : some t ≡ none = sym (Step-fire w s t x) ∙ stuck w in absurd (ground arith)
one_step s t end _ w (first {t = u} {n} w' y run) stuck x = elim (same_who w' w) [
  | inl e ↦
      (n, refl, subst (λ v. Runs v n end) (same_step w s u t (subst (λ v. Step v s u) e y) x) run)
  | inr ne ↦
      let (v, to, back) = diamond w' w s u t ne y x in
      let (m, is, rest) = one_step u v end n w run stuck to in
      (n, refl, subst (λ k. Runs t k end) (sym is) (first w' back rest))
]

-- One run that ends tells of all: whatever calls the threads made, the rest leads to the same end.
pub goes_on :
    (s t end : Group) (n m : ℕ)
    → Runs s n end
    → ((w : Who) → fire w end ≡ none)
    → Runs s m t
    → (left : ℕ) × (m + left ≡ n) × Runs t left end
unfolding Rest Ended
goes_on s _ end n _ run stuck here = (n, omega arith, run)
goes_on s t end n _ run stuck (first {t = u} {n = k} w x rest) =
    let (m, is, run_on) = one_step s u end n w run stuck x in
    let (left, sum, last) = goes_on u t end m k run_on stuck rest in
    (left, omega (arith, sum, is), last)

-- the calls of the threads in that order
unfoldable pub follow : List Who → Option Group → Option Group
follow ws none = none
follow [] (some s) = some s
follow (w ∷ ws) (some s) = follow ws (fire w s)

first_call :
    (w : Who) (ws : List Who) (s t : Group)
    → ((u : Group) → follow ws (some u) ≡ some t → Runs u (length ws) t)
    → (o : Option Group) → fire w s ≡ o
    → follow ws o ≡ some t
    → Runs s (suc (length ws)) t
unfolding follow
first_call w [] s t next none e h = absurd (ground arith)
first_call w (v ∷ ws) s t next none e h = absurd (ground arith)
first_call w ws s t next (some u) e h = first w (fire-Step w s u e) (next u h)

pub follow-Runs : (ws : List Who) (s t : Group) → follow ws (some s) ≡ some t → Runs s (length ws) t
unfolding follow
follow-Runs [] s t h = subst (Runs s 0) (ground arith) here
follow-Runs (w ∷ ws) s t h = first_call w ws s t (λ u. follow-Runs ws u t) (fire w s) refl h

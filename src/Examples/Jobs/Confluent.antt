-- ===== src/Examples/Jobs/Confluent.antt =====
-- The order of the calls does not matter to programs that call one another over channels
-- (examples/workergroups/main.c): each queue has one thread that writes and one that reads it.
use riot_csp_module.Common.{
  ℕ, ◌<◌, ◌≡◌, ◌≢◌, refl, sym, ◌∙◌, List, ◌==◌, arith, Bool-cases, inl, inr, ==_refl, ==_ne,
}
use riot_csp_module.Examples.Jobs.{
  Who, main_thread, worker_0, worker_1, Chan, jobs, results, Value, Prog,
}
use riot_csp_module.Examples.Jobs.Network.{num, chan_num, key, put, Group, after}

pub put_same : {A : Type 0} (at : ℕ) (x : A) (f : ℕ → A) → put at x f at ≡ x
put_same at x f = rw (==_refl at) refl

pub put_other : {A : Type 0} (at k : ℕ) (x : A) (f : ℕ → A) → k ≢ at → put at x f k ≡ f k
put_other at k x f ne = rw (==_ne k at ne) refl

pub put_comm :
    {A : Type 0} (a b : ℕ) (x y : A) (f : ℕ → A) → a ≢ b → put a x (put b y f) ≡ put b y (put a x f)
put_comm a b x y f ne = λ i k. at k i
  where
    at : (k : ℕ) → put a x (put b y f) k ≡ put b y (put a x f) k
    at k = elim (Bool-cases (k == a)) [
      | inl e ↦ let is : k ≡ a = ground arith in rw (e, ==_ne k b (λ kb. ne (sym is ∙ kb))) refl
      | inr e ↦ rw e refl
    ]

-- the last of two puts counts
pub put_twice : {A : Type 0} (a : ℕ) (x y : A) (f : ℕ → A) → put a x (put a y f) ≡ put a x f
put_twice a x y f = λ i k. at k i
  where
    at : (k : ℕ) → put a x (put a y f) k ≡ put a x f k
    at k = elim (Bool-cases (k == a)) [ inl e ↦ rw e refl | inr e ↦ rw e refl ]

num-lt : (w : Who) → num w < 3
num-lt main_thread = omega arith
num-lt worker_0 = omega arith
num-lt worker_1 = omega arith

chan_num-lt : (l : Chan) → chan_num l < 2
chan_num-lt jobs = omega arith
chan_num-lt results = omega arith

-- queues that differ in the thread that writes them, or in the one that reads them
pub key-from : (a b j j' : Who) (l l' : Chan) → num a ≢ num b → key a j l ≢ key b j' l'
key-from a b j j' l l' ne e =
    ne (omega (arith, num-lt j, num-lt j', chan_num-lt l, chan_num-lt l', e))

pub key-to : (a b j j' : Who) (l l' : Chan) → num a ≢ num b → key j a l ≢ key j' b l'
key-to a b j j' l l' ne e =
    ne (omega (arith, num-lt a, num-lt b, num-lt j, num-lt j', chan_num-lt l, chan_num-lt l', e))

-- what two threads do in either order, with different queues
pub after_comm :
    (a b : Who) (p p' : Prog) (k k' : ℕ) (q q' : List Value) (s : Group)
    → num a ≢ num b
    → k ≢ k'
    → after (num a) p k q (after (num b) p' k' q' s)
      ≡ after (num b) p' k' q' (after (num a) p k q s)
after_comm a b p p' k k' q q' s ne kn = λ i. record {
  progs = put_comm (num a) (num b) p p' s.progs ne i;
  queues = put_comm k k' q q' s.queues kn i;
}

-- the two orders on one queue
pub after_same :
    (a b : Who) (p p' : Prog) (k : ℕ) (q q' q'' : List Value) (s : Group)
    → num a ≢ num b
    → after (num a) p k q (after (num b) p' k q' s) ≡ after (num b) p' k q (after (num a) p k q'' s)
after_same a b p p' k q q' q'' s ne = λ i. record {
  progs = put_comm (num a) (num b) p p' s.progs ne i;
  queues = (put_twice k q q' s.queues ∙ sym (put_twice k q q'' s.queues)) i;
}

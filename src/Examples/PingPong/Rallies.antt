-- ===== src/Examples/PingPong/Rallies.antt =====
-- How far the ping-pong programs come.
use riot_csp_module.Common.{
  ℕ, zero, suc, ◌+◌, ◌*◌, ◌<◌, ◌%◌, ◌^◌, ◌≡◌, refl, ap, ◌∙◌, arith, some, ==-eq_true, ==-eq_false,
}
use riot_csp_module.Examples.PingPong.{
  Point, sends, receives, ended, Player, up, move, play, example_main, example_second, thread_main,
  second_thread, old_main, old_second,
}

-- one message more
play-suc :
    (a b : Player) (n : ℕ) (p q p' q' : Point)
    → move a b p q ≡ some (p', q')
    → play a b (suc n) (p, q) ≡ play a b n (p', q')
unfolding play
play-suc a b n p q p' q' e = rw (play, e) refl

play-ended : (a b : Player) (n x y : ℕ) → play a b n (ended x, ended y) ≡ (ended x, ended y)
unfolding play move
play-ended a b zero x y = refl
play-ended a b (suc n) x y = refl

-- One message each way, from a first thread that sends.
play-rally :
    (a b : Player) (n v v' : ℕ) (p q : Point)
    → a.sent v ≡ receives
    → b.received v ≡ sends v'
    → a.received v' ≡ p
    → b.sent v' ≡ q
    → play a b (suc (suc n)) (sends v, receives) ≡ play a b n (p, q)
unfolding move
play-rally a b n v v' p q first second third fourth =
    play-suc a b (suc n) (sends v) receives receives (sends v') (rw (first, second) refl)
    ∙ play-suc a b n receives (sends v') p q (rw (third, fourth) refl)

pub up_small : (v : ℕ) → v + 1 < 2 ^ 32 → up v ≡ v + 1
up_small v h = omega arith

pub two_more : (n extra : ℕ) → 2 * suc n + extra ≡ suc (suc (2 * n + extra))
two_more n extra = omega arith

sends_to : (v v' : ℕ) → v ≡ v' → ◌≡◌ {A = Point × Point} (sends v, receives) (sends v', receives)
sends_to v v' e = ap (λ z. (sends z, receives)) e

example_from :
    (n v : ℕ)
    → v < 2 ^ 32
    → play example_main example_second (2 * n + 0) (sends v, receives)
      ≡ (sends ((v + 2 * n) % 2 ^ 32), receives)
unfolding play
example_from zero v h = sends_to v _ (omega arith)
example_from (suc n) v h = rw (two_more n 0) (
    play-rally example_main example_second (2 * n + 0) v (up v) (sends (up (up v))) receives refl
      refl refl refl
    ∙ example_from n (up (up v)) (omega arith)
    ∙ sends_to _ _ (omega arith))

-- The two threads of examples/ipc_pingpong_csp do not end: after any even number of messages main is about
-- to send one more than this number, as a 32-bit word, and the other thread to receive.
example-counts :
    (n : ℕ)
    → play example_main example_second (2 * n + 0) (example_main.start, example_second.start)
      ≡ (sends ((1 + 2 * n) % 2 ^ 32), receives)
example-counts n = example_from n 1 (omega arith)

thread_from :
    (n extra v limit : ℕ)
    → v + (n + 1) ≡ limit
    → limit < 2 ^ 32
    → play (thread_main limit) (second_thread limit) (2 * suc n + extra) (sends v, receives)
      ≡ (ended limit, ended limit)
thread_from zero extra v limit e h = rw (two_more zero extra) (
    play-rally (thread_main limit) (second_thread limit) _ v (up v) (ended limit) (ended limit) refl
      refl
      (rw (up_small v (omega arith), ==-eq_true (v + 1) limit (omega arith))
        (ap ended (omega arith)))
      (rw (up_small v (omega arith), ==-eq_true (v + 1) limit (omega arith))
        (ap ended (omega arith)))
    ∙ play-ended (thread_main limit) (second_thread limit) _ limit limit)
thread_from (suc n) extra v limit e h = rw (two_more (suc n) extra) (
    play-rally (thread_main limit) (second_thread limit) _ v (up v) (sends (v + 1)) receives refl
      refl (rw (up_small v (omega arith), ==-eq_false (v + 1) limit (omega arith)) refl)
      (rw (up_small v (omega arith), ==-eq_false (v + 1) limit (omega arith)) refl)
    ∙ thread_from n extra (v + 1) limit (omega arith) h)

-- The two threads of measurements/ipc_pingpong_csp over the messages of RIOT, with a limit of 2 or more: both have left their loops after
-- 2 * (limit - 1) messages.
pub thread-ends :
    (n extra : ℕ)
    → n + 2 < 2 ^ 32
    → play
        (thread_main (n + 2))
        (second_thread (n + 2))
        (2 * suc n + extra)
        ((thread_main (n + 2)).start, (second_thread (n + 2)).start)
      ≡ (ended (n + 2), ended (n + 2))
thread-ends n extra h = thread_from n extra 1 (n + 2) (omega arith) h

-- The two threads of old_main.h both send first: no message passes.
old-stuck :
    (n : ℕ)
    → play old_main old_second n (old_main.start, old_second.start)
      ≡ (old_main.start, old_second.start)
unfolding play move
old-stuck zero = refl
old-stuck (suc n) = refl

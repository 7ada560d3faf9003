-- ===== src/Examples/PingPong.antt =====
-- Two threads that pass a number to and fro: examples/ipc_pingpong_csp/main.c, and
-- measurements/ipc_pingpong_csp/main.c with its older version old_main.h. A send and a receive over a
-- channel without the buffered flag are one move of both threads.
pub mod Rallies
use riot_csp_module.Common.{
  ℕ, zero, suc, ◌+◌, ◌-◌, ◌*◌, ◌%◌, ◌^◌, Option, none, some, ◌==◌, if◌then◌else◌,
}

-- Where a thread stands: it sends `m` next, it receives into `m` next, or it has left its loop, with the
-- `m.content.value` that counts there.
pub data Point : Type 0 where
  sends ended : ℕ → Point
  receives : Point

-- A thread: where it starts, where it goes on after a send of a value, and after the value it receives.
pub record Player : Type 0 where
  pub start : Point
  pub sent : ℕ → Point
  pub received : ℕ → Point

-- a uint32_t, one up
abbrev pub up : ℕ → ℕ
up value = (value + 1) % 2 ^ 32

-- one message from one thread to the other, or nothing, if none of them waits for one that sends
pub move : Player → Player → Point → Point → Option (Point × Point)
move a b (sends x) receives = some (a.sent x, b.received x)
move a b receives (sends y) = some (a.received y, b.sent y)
move a b (sends x) (sends y) = none
move a b receives receives = none
move a b (ended x) q = none
move a b (sends x) (ended y) = none
move a b receives (ended y) = none

-- where both stand after `n` messages, or earlier if there are no more
pub play : Player → Player → ℕ → Point × Point → Point × Point
play a b zero (p, q) = (p, q)
play a b (suc n) (p, q) = elim (move a b p q) [ none ↦ (p, q) | some next ↦ play a b n next ]

-- examples/ipc_pingpong_csp: both count up and have no end.
abbrev pub example_main : Player
example_main = record {
  start = sends 1;
  sent = λ value. receives;
  received = λ value. sends (up value);
}

abbrev pub example_second : Player
example_second = record {
  start = receives;
  sent = λ value. receives;
  received = λ value. sends (up value);
}

-- PINGPONG_MULTIPLIER and max_pingpong
abbrev pingpong_multiplier : ℕ
pingpong_multiplier = 4

abbrev pub max_pingpong : ℕ
max_pingpong = (65535 - 1) * pingpong_multiplier

-- measurements/ipc_pingpong_csp over the messages of RIOT, up to a number: msg_send_receive sends `m` and waits for the reply.
abbrev pub thread_main : ℕ → Player
thread_main limit = record {
  start = sends 1;
  sent = λ value. receives;
  received = λ value. if value == limit then ended value else sends value;
}

abbrev pub second_thread : ℕ → Player
second_thread limit = record {
  start = receives;
  sent = λ value. if value == limit then ended value else receives;
  received = λ value. sends (up value);
}

-- old_main.h: the second thread counts up and sends before it receives.
abbrev pub old_main : Player
old_main = record {
  start = sends 1;
  sent = λ value. receives;
  received = λ value. sends (up value);
}

abbrev pub old_second : Player
old_second = record {
  start = sends (up 0);
  sent = λ value. receives;
  received = λ value. sends (up value);
}

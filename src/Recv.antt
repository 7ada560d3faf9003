-- ===== src/Recv.antt =====
-- modules/csp/csp.c: _channel_recv_msg, channel_recv and channel_recv_msg, and channel_recv_ptr of
-- csp.h.
pub mod Refines
use riot_csp_module.Common.{
  ℕ, ◌-◌, Bool, false, Option, none, some, List, [], ◌++◌, length, ◌==◌, ltb, not, ◌&&◌, ◌||◌,
  if◌then◌else◌,
}
use riot_csp_module.Riot.{Riot}
use riot_csp_module.Channel.{
  World, channel_get_rb, channel_is_creator, channel_is_closed, channel_is_empty, size_bytes,
  decode_size,
}
use riot_csp_module.Sched.{
  Pause, sleeps, Outcome, done, paused, read_blocked, write_blocked, restore, disable,
  channel_sched_self, channel_sched_other, channel_synchronize,
}
use riot_csp_module.Send.{with_rb}

-- What a receive returns, and the bytes that it has stored at the start of the caller's buffer.
abbrev pub Received : Type 0
Received = ℕ × List ℕ

-- Where a receive goes on: after the synchronisation, at the next look for a size, after a chunk
-- was taken, after a wait for data. With the file that `rb` points to, `data_size` and the bytes
-- stored, whose number is `bytes`.
pub data RecvPoint : Type 0 where
  synchronized : RecvPoint
  header : Bool → RecvPoint
  chunk_got : Bool → ℕ → List ℕ → RecvPoint
  data_wait : Bool → ℕ → List ℕ → RecvPoint

abbrev RecvResult : Riot → Type 0
RecvResult R = Outcome RecvPoint Received × World R

module _ {R : Riot} where
  -- closed, and nothing more is expected: `channel_is_closed(c) && (channel_is_empty(c) || …)`
  unfoldable pub gives_up : Bool → ℕ → World R → Bool
  gives_up side data_size w =
      channel_is_closed w.chan
      && (channel_is_empty w || ltb (R.rb_avail (channel_get_rb side w.chan)) data_size)

  -- no data: an error in an interrupt, or a wait for writes
  unfoldable pub no_bytes : Bool → ℕ → List ℕ → ℕ → World R → RecvResult R
  no_bytes side data_size out state w =
      if R.irq_is_in w.kern
      then (done (0, out), restore state w)
      else (paused sleeps (data_wait side data_size out), channel_sched_self write_blocked state w)

  unfoldable pub got_chunk : Bool → ℕ → List ℕ → ℕ → World R → RecvResult R
  got_chunk side data_size out state w =
      let (p, w') = channel_sched_other read_blocked state w in
      (paused p (chunk_got side data_size out), w')

  -- one turn of `while (true)`
  unfoldable pub recv_data : Bool → ℕ → List ℕ → ℕ → World R → RecvResult R
  unfolding no_bytes got_chunk
  recv_data side data_size out state w =
      let rb = channel_get_rb side w.chan in
      let (rb', chunk) = R.rb_get rb (data_size - length out) in
      if gives_up side data_size w
      then (done (if length out == data_size then length out else 0, out), restore state w)
      else if R.rb_empty rb
      then no_bytes side data_size out state w
      else if length chunk == 0
      then no_bytes side data_size out state (with_rb side rb' w)
      else got_chunk side data_size (out ++ chunk) state (with_rb side rb' w)

  unfoldable pub recv_header : Bool → ℕ → World R → RecvResult R
  recv_header side state w =
      let rb = channel_get_rb side w.chan in
      let size = R.rb_peek rb size_bytes in
      let (rb', dropped) = R.rb_drop rb size_bytes in
      if not (length size == size_bytes)
      then (paused sleeps (header side), channel_sched_self write_blocked state w)
      else if not (dropped == size_bytes)
      then (done (0, []), with_rb side rb' w)
      else recv_data side (decode_size size) [] state (with_rb side rb' w)

  -- _channel_recv_msg
  unfoldable pub recv_msg : ℕ → World R → RecvResult R
  recv_msg state w = recv_header (not (channel_is_creator w)) state w

  -- channel_recv after its synchronisation; the Boolean is whether there is a buffer
  unfoldable pub recv_synchronized : Bool → ℕ → World R → RecvResult R
  recv_synchronized buffer state w =
      if not buffer then (done (0, []), restore state w) else recv_msg state w

  unfoldable pub after_synchronize : Bool → ℕ → Option Pause × World R → RecvResult R
  after_synchronize buffer state (none, w) = recv_synchronized buffer state w
  after_synchronize buffer state (some p, w) = (paused p synchronized, w)

  -- channel_recv with interrupts off
  unfoldable pub recv_start : Bool → ℕ → World R → RecvResult R
  unfolding after_synchronize
  recv_start buffer state w = after_synchronize buffer state (channel_synchronize false state w)

  unfoldable pub channel_recv : Bool → World R → RecvResult R
  channel_recv buffer w =
      if channel_is_closed w.chan && channel_is_empty w
      then (done (0, []), w)
      else let (state, w') = disable w in recv_start buffer state w'

  unfoldable pub channel_recv_msg : World R → RecvResult R
  channel_recv_msg w = let (state, w') = disable w in recv_msg state w'

  unfoldable pub after_chunk : Bool → ℕ → List ℕ → ℕ → World R → RecvResult R
  after_chunk side data_size out state w =
      if length out == data_size
      then (done (length out, out), restore state w)
      else recv_data side data_size out state w

  -- The thread runs again: interrupts go off, and the call goes on at its point.
  unfoldable pub recv_resume : Bool → RecvPoint → World R → RecvResult R
  unfolding after_chunk
  recv_resume buffer synchronized w =
      let (state, w') = disable w in recv_synchronized buffer state w'
  recv_resume buffer (header side) w = let (state, w') = disable w in recv_header side state w'
  recv_resume buffer (chunk_got side data_size out) w =
      let (state, w') = disable w in after_chunk side data_size out state w'
  recv_resume buffer (data_wait side data_size out) w =
      let (state, w') = disable w in recv_data side data_size out state w'

-- channel_recv_ptr, from what channel_recv returned: the buffer, or null
pub channel_recv_ptr : Received → Option (List ℕ)
channel_recv_ptr (data_size, out) = if data_size == 0 then none else some out

-- ===== src/Drop.antt =====
-- modules/csp/csp.c: channel_drop, which takes a message out of the channel and stores nothing.
pub mod Meeting
pub mod Refines
pub mod Whole
use riot_csp_module.Common.{
  ℕ, ◌+◌, ◌-◌, Bool, Option, none, some, length, ◌==◌, not, ◌&&◌, ◌||◌, if◌then◌else◌,
}
use riot_csp_module.Riot.{Riot}
use riot_csp_module.Channel.{
  World, channel_get_rb, channel_is_creator, channel_is_closed, channel_is_empty, size_bytes,
  decode_size,
}
use riot_csp_module.Sched.{
  Pause, sleeps, Outcome, done, paused, read_blocked, write_blocked, restore, disable,
  channel_sched_self, channel_sched_other, channel_synchronize,
}
use riot_csp_module.Send.{with_rb}
use riot_csp_module.Recv.{gives_up}

-- Where a drop goes on, with the file, `data_size` and `bytes`.
pub data DropPoint : Type 0 where
  synchronized : DropPoint
  header : Bool → DropPoint
  chunk_dropped : Bool → ℕ → ℕ → DropPoint
  data_wait : Bool → ℕ → ℕ → DropPoint

abbrev DropResult : Riot → Type 0
DropResult R = Outcome DropPoint ℕ × World R

-- `c->thread_write_blocked`, as a condition
abbrev pub is_set : Option ℕ → Bool
is_set none = Bool.false
is_set (some _) = Bool.true

module _ {R : Riot} where
  -- the message is not complete
  unfoldable pub drop_waits : Bool → ℕ → ℕ → ℕ → World R → DropResult R
  drop_waits side data_size bytes state w =
      if is_set w.thread_write_blocked || R.irq_is_in w.kern then (done 0, restore state w) else (
        paused sleeps (data_wait side data_size bytes),
        channel_sched_self write_blocked state w,
      )

  -- something is gone: the writer may run
  unfoldable pub chunk_gone : Bool → ℕ → ℕ → ℕ → World R → DropResult R
  chunk_gone side data_size bytes state w =
      let (p, w') = channel_sched_other read_blocked state w in
      (paused p (chunk_dropped side data_size bytes), w')

  -- one turn of `while (true)`
  unfoldable pub drop_data : Bool → ℕ → ℕ → ℕ → World R → DropResult R
  unfolding drop_waits chunk_gone
  drop_data side data_size bytes state w =
      let (rb', chunk) = R.rb_drop (channel_get_rb side w.chan) (data_size - bytes) in
      if gives_up side data_size w
      then (done (if bytes == data_size then bytes else 0), restore state w)
      else if bytes + chunk == 0
      then drop_waits side data_size (bytes + chunk) state (with_rb side rb' w)
      else chunk_gone side data_size (bytes + chunk) state (with_rb side rb' w)

  unfoldable pub drop_header : Bool → ℕ → World R → DropResult R
  drop_header side state w =
      let rb = channel_get_rb side w.chan in
      let size = R.rb_peek rb size_bytes in
      let (rb', dropped) = R.rb_drop rb size_bytes in
      if not (length size == size_bytes)
      then (paused sleeps (header side), channel_sched_self write_blocked state w)
      else if not (dropped == size_bytes)
      then (done 0, with_rb side rb' w)
      else drop_data side (decode_size size) 0 state (with_rb side rb' w)

  unfoldable pub drop_synchronized : ℕ → World R → DropResult R
  drop_synchronized state w = drop_header (not (channel_is_creator w)) state w

  unfoldable pub after_synchronize : ℕ → Option Pause × World R → DropResult R
  after_synchronize state (none, w) = drop_synchronized state w
  after_synchronize state (some p, w) = (paused p synchronized, w)

  unfoldable pub channel_drop : World R → DropResult R
  unfolding after_synchronize
  channel_drop w =
      if channel_is_closed w.chan && channel_is_empty w
      then (done 0, w)
      else let (state, w') = disable w in
        after_synchronize state (channel_synchronize (not (channel_is_creator w')) state w')

  unfoldable pub after_chunk : Bool → ℕ → ℕ → ℕ → World R → DropResult R
  unfolding drop_waits
  after_chunk side data_size bytes state w =
      if bytes == data_size
      then (done bytes, restore state w)
      else drop_waits side data_size bytes state w

  -- The thread runs again: interrupts go off, and the call goes on at its point.
  unfoldable pub drop_resume : DropPoint → World R → DropResult R
  unfolding after_chunk
  drop_resume synchronized w = let (state, w') = disable w in drop_synchronized state w'
  drop_resume (header side) w = let (state, w') = disable w in drop_header side state w'
  drop_resume (chunk_dropped side data_size bytes) w =
      let (state, w') = disable w in after_chunk side data_size bytes state w'
  drop_resume (data_wait side data_size bytes) w =
      let (state, w') = disable w in drop_data side data_size bytes state w'

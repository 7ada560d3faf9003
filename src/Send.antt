-- ===== src/Send.antt =====
-- modules/csp/csp.c: _channel_send_msg, channel_send and channel_send_msg. Every turn of their
-- loops ends at a pause or returns, so a call is a start and what it does at each point where it
-- goes on.
pub mod Refines
use riot_csp_module.Common.{
  ℕ, ◌+◌, ◌-◌, ◌<◌, ◌≡◌, arith, length, Bool, true, false, Option, none, some, List, [], take, drop,
  ◌==◌, if◌then◌else◌,
}
use riot_csp_module.Riot.{Riot}
use riot_csp_module.Channel.{
  World, channel_get_rb, set_rb, channel_is_creator, channel_is_closed, size_bytes, encode_size,
}
use riot_csp_module.Sched.{
  Pause, sleeps, Outcome, done, paused, read_blocked, write_blocked, restore, disable,
  channel_sched_self, channel_sched_other, channel_synchronize,
}

-- `channel_msg`. The data pointer may be null; it is read at `data_size` bytes.
pub record Message : Type 0 where
  pub data_size : ℕ
  pub payload : Option (List ℕ)

abbrev pub pointed : Option (List ℕ) → List ℕ
pointed none = []
pointed (some bytes) = bytes

-- the bytes from `data[bytes]` on that are still to go
abbrev pub unsent : Message → ℕ → List ℕ
unsent m bytes = take (m.data_size - bytes) (drop bytes (pointed m.payload))

-- Where a send goes on: after the synchronisation, at the next try to add the size, after a chunk
-- was sent (`bytes` so far), after a wait for room. The Boolean is the file that `rb` points to.
pub data SendPoint : Type 0 where
  synchronized : SendPoint
  header : Bool → SendPoint
  chunk_sent : Bool → ℕ → SendPoint
  data_wait : Bool → ℕ → SendPoint

abbrev SendResult : Riot → Type 0
SendResult R = Outcome SendPoint ℕ × World R

-- `!data || !data_size`
unfoldable pub no_data : Message → Bool
no_data m = elim m.payload [ none ↦ true | some _ ↦ m.data_size == 0 ]

-- A message with bytes in it has data.
pub no_data-message :
    (bytes : List ℕ)
    → 0 < length bytes
    → no_data (record { data_size = length bytes; payload = some bytes }) ≡ false
unfolding no_data
no_data-message bytes h = ground arith

module _ {R : Riot} where
  abbrev pub with_rb : Bool → R.Rb → World R → World R
  with_rb side b w = record w { chan = set_rb side b w.chan }

  -- no room: an error in an interrupt, or a wait for reads
  unfoldable pub no_room : Bool → ℕ → ℕ → World R → SendResult R
  no_room side bytes state w =
      if R.irq_is_in w.kern
      then (done 0, restore state w)
      else (paused sleeps (data_wait side bytes), channel_sched_self read_blocked state w)

  -- a chunk went in: the reader may run
  unfoldable pub sent_chunk : Bool → ℕ → ℕ → World R → SendResult R
  sent_chunk side bytes state w =
      let (p, w') = channel_sched_other write_blocked state w in
      (paused p (chunk_sent side bytes), w')

  -- one turn of `while (true)`
  unfoldable pub send_data : Message → Bool → ℕ → ℕ → World R → SendResult R
  unfolding no_room sent_chunk
  send_data m side bytes state w =
      let rb = channel_get_rb side w.chan in
      let (rb', chunk) = R.rb_add rb (unsent m bytes) in
      if channel_is_closed w.chan
      then (done bytes, restore state w)
      else if R.rb_avail rb == 0
      then no_room side bytes state w
      else if chunk == 0
      then no_room side bytes state (with_rb side rb' w)
      else sent_chunk side (bytes + chunk) state (with_rb side rb' w)

  -- the size goes first; what went in of it is dropped from the front if it did not fit
  unfoldable pub send_header : Message → Bool → ℕ → World R → SendResult R
  send_header m side state w =
      let (rb', count) = R.rb_add (channel_get_rb side w.chan) (encode_size m.data_size) in
      let w' = with_rb side rb' w in
      if count == size_bytes
      then send_data m side 0 state w'
      else if channel_is_closed w.chan
      then (done 0, restore state w')
      else (
        paused sleeps (header side),
        channel_sched_self read_blocked state (with_rb side (R.rb_drop rb' count).0 w),
      )

  -- _channel_send_msg
  unfoldable pub send_msg : Message → ℕ → World R → SendResult R
  send_msg m state w = send_header m (channel_is_creator w) state w

  -- channel_send after its synchronisation
  unfoldable pub send_synchronized : Message → ℕ → World R → SendResult R
  unfolding no_data
  send_synchronized m state w = if no_data m then (done 0, restore state w) else send_msg m state w

  unfoldable pub after_synchronize : Message → ℕ → Option Pause × World R → SendResult R
  after_synchronize m state (none, w) = send_synchronized m state w
  after_synchronize m state (some p, w) = (paused p synchronized, w)

  -- channel_send with interrupts off
  unfoldable pub send_start : Message → ℕ → World R → SendResult R
  unfolding after_synchronize
  send_start m state w = after_synchronize m state (channel_synchronize true state w)

  unfoldable pub channel_send : Message → World R → SendResult R
  channel_send m w =
      if channel_is_closed w.chan
      then (done 0, w)
      else let (state, w') = disable w in send_start m state w'

  unfoldable pub channel_send_msg : Message → World R → SendResult R
  channel_send_msg m w = let (state, w') = disable w in send_msg m state w'

  unfoldable pub after_chunk : Message → Bool → ℕ → ℕ → World R → SendResult R
  after_chunk m side bytes state w =
      if bytes == m.data_size then (done bytes, restore state w) else send_data m side bytes state w

  -- The thread runs again: interrupts go off, and the call goes on at its point.
  unfoldable pub send_resume : Message → SendPoint → World R → SendResult R
  unfolding after_chunk
  send_resume m synchronized w = let (state, w') = disable w in send_synchronized m state w'
  send_resume m (header side) w = let (state, w') = disable w in send_header m side state w'
  send_resume m (chunk_sent side bytes) w =
      let (state, w') = disable w in after_chunk m side bytes state w'
  send_resume m (data_wait side bytes) w =
      let (state, w') = disable w in send_data m side bytes state w'

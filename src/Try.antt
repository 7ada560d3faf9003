-- ===== src/Try.antt =====
-- modules/csp/csp.c: channel_try_send and channel_try_recv, which never pause.
pub mod Contents
pub mod RoundTrip
use riot_csp_module.Common.{ℕ, Bool, [], length, take, ◌==◌, ltb, not, ◌&&◌, if◌then◌else◌}
use riot_csp_module.Riot.{Riot}
use riot_csp_module.Channel.{
  World, channel_get_rb, channel_is_creator, channel_is_closed, channel_is_empty, size_bytes,
  encode_size,
}
use riot_csp_module.Sched.{restore, disable}
use riot_csp_module.Send.{Message, pointed, no_data, with_rb}
use riot_csp_module.Recv.{Received}

module _ {R : Riot} where
  -- `bytes` is what the comparison `rb_add (…) != sizeof (data_size)` gives: 0 or 1.
  unfoldable pub try_add_size : Message → Bool → ℕ → World R → ℕ × World R
  try_add_size m side state w =
      let (rb', count) = R.rb_add (channel_get_rb side w.chan) (encode_size m.data_size) in
      let (rb'', sent) = R.rb_add rb' (take m.data_size (pointed m.payload)) in
      if not (count == size_bytes)
      then (0, restore state (with_rb side (R.rb_drop rb' 1).0 w))
      else (sent, restore state (with_rb side rb'' w))

  -- the room left is compared with the data alone
  unfoldable pub try_send_masked : Message → Bool → ℕ → World R → ℕ × World R
  unfolding try_add_size
  try_send_masked m side state w =
      let rb = channel_get_rb side w.chan in
      if ltb (R.rb_avail rb) m.data_size
      then (0, restore state (with_rb side (R.rb_drop rb 0).0 w))
      else try_add_size m side state w

  unfoldable pub channel_try_send : Message → World R → ℕ × World R
  unfolding try_send_masked
  channel_try_send m w =
      if no_data m
      then (0, w)
      else if channel_is_closed w.chan
      then (0, w)
      else let (state, w') = disable w in try_send_masked m (channel_is_creator w') state w'

  -- `data_size` is the number of bytes that rb_get returned, whatever they say.
  unfoldable pub try_recv_masked : Bool → ℕ → World R → Received × World R
  try_recv_masked side state w =
      let (rb', size) = R.rb_get (channel_get_rb side w.chan) size_bytes in
      let data_size = length size in
      let (rb'', out) = R.rb_get rb' data_size in
      if data_size == 0
      then ((0, []), restore state (with_rb side rb' w))
      else ((length out, out), restore state (with_rb side rb'' w))

  -- the Boolean is whether there is a buffer
  unfoldable pub channel_try_recv : Bool → World R → Received × World R
  unfolding try_recv_masked
  channel_try_recv buffer w =
      if not buffer
      then ((0, []), w)
      else if channel_is_closed w.chan && channel_is_empty w
      then ((0, []), w)
      else let (state, w') = disable w in try_recv_masked (not (channel_is_creator w)) state w'

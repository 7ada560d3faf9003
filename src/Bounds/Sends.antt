-- ===== src/Bounds/Sends.antt =====
-- channel_send and channel_send_msg of modules/csp/csp.c read their data within its size.
use riot_csp_module.Common.{ℕ, ◌+◌, ◌-◌, ◌≤◌, Bool, drop, arith, length-take}
use riot_csp_module.Riot.{Riot}
use riot_csp_module.Channel.{World}
use riot_csp_module.Send
use riot_csp_module.Send.{
  Message, SendPoint, unsent, send_data, send_header, send_msg, send_synchronized, send_start,
  channel_send, channel_send_msg, send_resume, no_room, sent_chunk, pointed,
}
use riot_csp_module.Bounds.{ReadWithin, SendsWithin}

chunk-le :
    (R : Riot) (m : Message) (b : R.Rb) (bytes : ℕ)
    → bytes ≤ m.data_size
    → bytes + (R.rb_add b (unsent m bytes)).1 ≤ m.data_size
chunk-le R m b bytes h = omega (
  arith,
  R.add-count b (unsent m bytes),
  length-take (m.data_size - bytes) (drop bytes (pointed m.payload)),
)

module _ {R : Riot} (m : Message) where
  send_data-Within :
      (side : Bool) (bytes state : ℕ) (w : World R)
      → bytes ≤ m.data_size
      → SendsWithin m (send_data m side bytes state w)
  unfolding send_data no_room sent_chunk
  send_data-Within side bytes state w h = grind (arith, chunk-le R m)

  send_header-Within :
      (side : Bool) (state : ℕ) (w : World R) → SendsWithin m (send_header m side state w)
  unfolding send_header
  send_header-Within side state w = grind (arith, send_data-Within)

  send_synchronized-Within : (state : ℕ) (w : World R) → SendsWithin m (send_synchronized m state w)
  unfolding send_synchronized send_msg
  send_synchronized-Within state w = grind (arith, send_header-Within)

  send_start-Within : (state : ℕ) (w : World R) → SendsWithin m (send_start m state w)
  unfolding send_start Send.after_synchronize
  send_start-Within state w = grind (arith, send_synchronized-Within)

  after_chunk-Within :
      (side : Bool) (bytes state : ℕ) (w : World R)
      → bytes ≤ m.data_size
      → SendsWithin m (Send.after_chunk m side bytes state w)
  unfolding Send.after_chunk
  after_chunk-Within side bytes state w h = grind (arith, send_data-Within)

  resume-Within :
      (point : SendPoint) (w : World R) → ReadWithin m point → SendsWithin m (send_resume m point w)
  unfolding send_resume
  resume-Within SendPoint.synchronized w h = send_synchronized-Within _ _
  resume-Within (SendPoint.header side) w h = send_header-Within side _ _
  resume-Within (SendPoint.chunk_sent side bytes) w h = after_chunk-Within side bytes _ _ h
  resume-Within (SendPoint.data_wait side bytes) w h = send_data-Within side bytes _ _ h

  -- channel_send, channel_send_msg, and a send that goes on from a point where it has read its data within
  -- its size, on every branch: it pauses again within the size, or returns no larger a number.
  pub send-Within :
      (point : SendPoint) (w : World R)
      → ReadWithin m point
      → SendsWithin m (channel_send m w)
        × SendsWithin m (channel_send_msg m w)
        × SendsWithin m (send_resume m point w)
  unfolding channel_send channel_send_msg send_msg
  send-Within point w h =
      (grind (arith, send_start-Within), send_header-Within _ _ _, resume-Within point w h)

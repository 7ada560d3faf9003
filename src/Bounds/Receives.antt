-- ===== src/Bounds/Receives.antt =====
-- channel_recv and channel_recv_msg of modules/csp/csp.c store no more than the size that they have taken
-- from the channel, whatever bytes it stands in.
use riot_csp_module.Common.{
  ℕ, ◌-◌, ◌≤◌, Bool, List, [], ◌++◌, length, arith, length-append, length-take, ap,
}
use riot_csp_module.Riot.{Riot}
use riot_csp_module.Channel.{World, channel_get_rb}
use riot_csp_module.Sched.{disable}
use riot_csp_module.Recv
use riot_csp_module.Recv.{
  RecvPoint, recv_data, recv_header, recv_msg, recv_synchronized, recv_start, channel_recv,
  channel_recv_msg, recv_resume, no_bytes, got_chunk,
}
use riot_csp_module.Bounds.{StoredWithin, ReceivesWithin}

stored-le :
    (R : Riot) (b : R.Rb) (data_size : ℕ) (out : List ℕ)
    → length out ≤ data_size
    → length (out ++ (R.rb_get b (data_size - length out)).1) ≤ data_size
stored-le R b data_size out h = omega (
  arith,
  length-append out (R.rb_get b (data_size - length out)).1,
  ap (λ (bs : List ℕ). length bs) (R.get-bytes b (data_size - length out)),
  length-take (data_size - length out) (R.contents b),
)

module _ {R : Riot} where
  recv_data-Within :
      (side : Bool) (data_size : ℕ) (out : List ℕ) (state : ℕ) (w : World R)
      → length out ≤ data_size
      → ReceivesWithin
          (RecvPoint.data_wait side data_size out)
          (recv_data side data_size out state w)
  unfolding recv_data no_bytes got_chunk
  recv_data-Within side data_size out state w h = grind (arith, stored-le R)

  -- the first turn, with nothing stored yet
  first_turn-Within :
      (side : Bool) (data_size state : ℕ) (w : World R)
      → ReceivesWithin (RecvPoint.header side) (recv_data side data_size [] state w)
  unfolding recv_data no_bytes got_chunk
  first_turn-Within side data_size state w =
      grind (arith, stored-le R (channel_get_rb side w.chan) data_size [] (omega arith))

  recv_header-Within :
      (side : Bool) (state : ℕ) (w : World R)
      → ReceivesWithin (RecvPoint.header side) (recv_header side state w)
  unfolding recv_header
  recv_header-Within side state w = grind (arith, first_turn-Within)

  recv_synchronized-Within :
      (buffer : Bool) (state : ℕ) (w : World R)
      → ReceivesWithin RecvPoint.synchronized (recv_synchronized buffer state w)
  unfolding recv_synchronized recv_msg
  recv_synchronized-Within buffer state w = grind (arith, recv_header-Within)

  recv_start-Within :
      (buffer : Bool) (state : ℕ) (w : World R)
      → ReceivesWithin RecvPoint.synchronized (recv_start buffer state w)
  unfolding recv_start Recv.after_synchronize
  recv_start-Within buffer state w = grind (arith, recv_synchronized-Within)

  after_chunk-Within :
      (side : Bool) (data_size : ℕ) (out : List ℕ) (state : ℕ) (w : World R)
      → length out ≤ data_size
      → ReceivesWithin
          (RecvPoint.chunk_got side data_size out)
          (Recv.after_chunk side data_size out state w)
  unfolding Recv.after_chunk
  after_chunk-Within side data_size out state w h = grind (arith, recv_data-Within)

  resume-Within :
      (buffer : Bool) (point : RecvPoint) (w : World R)
      → StoredWithin point
      → ReceivesWithin point (recv_resume buffer point w)
  unfolding recv_resume
  resume-Within buffer RecvPoint.synchronized w h = recv_synchronized-Within buffer _ _
  resume-Within buffer (RecvPoint.header side) w h = recv_header-Within side _ _
  resume-Within buffer (RecvPoint.chunk_got side data_size out) w h =
      after_chunk-Within side data_size out _ _ h
  resume-Within buffer (RecvPoint.data_wait side data_size out) w h =
      recv_data-Within side data_size out _ _ h

  -- channel_recv, channel_recv_msg, and a receive that goes on from a point where it has stored no more than
  -- the size that it took, on every branch and whatever the channel holds: it pauses with the same
  -- size and no more than that stored, or it returns no larger a number than it has stored, and that is no
  -- more than the size.
  pub recv-Within :
      (buffer : Bool) (point : RecvPoint) (w : World R)
      → StoredWithin point
      → ReceivesWithin RecvPoint.synchronized (channel_recv buffer w)
        × ReceivesWithin RecvPoint.synchronized (channel_recv_msg w)
        × ReceivesWithin point (recv_resume buffer point w)
  unfolding channel_recv channel_recv_msg recv_msg
  recv-Within buffer point w h = (
    grind (arith, recv_start-Within),
    grind (arith, recv_header-Within _ (disable w).0 (disable w).1),
    resume-Within buffer point w h,
  )

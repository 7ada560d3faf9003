-- ===== src/Masks/Calls.antt =====
-- The interrupt mask around the calls of modules/csp/csp.c, from their start and from each point where
-- they go on.
use riot_csp_module.Common.{Bool, arith}
use riot_csp_module.Riot.{Riot}
use riot_csp_module.Channel.{World}
use riot_csp_module.Sched.{disable}
use riot_csp_module.Send.{Message, SendPoint, channel_send, channel_send_msg, send_msg, send_resume}
use riot_csp_module.Recv.{RecvPoint, channel_recv, channel_recv_msg, recv_msg, recv_resume}
use riot_csp_module.Drop.{DropPoint, channel_drop, drop_synchronized, drop_resume}
use riot_csp_module.Try.{
  channel_try_send, channel_try_recv, try_send_masked, try_add_size, try_recv_masked,
}
use riot_csp_module.Masks.{
  MaskIs, send_start-MaskIs, send_header-MaskIs, send_synchronized-MaskIs, send_data-MaskIs,
  after_send_chunk-MaskIs, recv_start-MaskIs, recv_header-MaskIs, recv_synchronized-MaskIs,
  recv_data-MaskIs, after_recv_chunk-MaskIs, drop_start-MaskIs, drop_header-MaskIs,
  drop_data-MaskIs, after_drop_chunk-MaskIs,
}

module _ {R : Riot} where
  send_resume-MaskIs :
      (msg : Message) (point : SendPoint) (w : World R)
      → MaskIs (R.masked w.kern) (send_resume msg point w)
  unfolding send_resume
  send_resume-MaskIs msg SendPoint.synchronized w =
      send_synchronized-MaskIs {R = R} (disable w).0 (R.masked w.kern) (R.masked-irq_restore w.kern)
        msg (disable w).1
  send_resume-MaskIs msg (SendPoint.header s) w =
      send_header-MaskIs {R = R} (disable w).0 (R.masked w.kern) (R.masked-irq_restore w.kern) msg s
        (disable w).1
  send_resume-MaskIs msg (SendPoint.chunk_sent s b) w =
      after_send_chunk-MaskIs {R = R} (disable w).0 (R.masked w.kern) (R.masked-irq_restore w.kern)
        msg s b (disable w).1
  send_resume-MaskIs msg (SendPoint.data_wait s b) w =
      send_data-MaskIs {R = R} (disable w).0 (R.masked w.kern) (R.masked-irq_restore w.kern) msg s b
        (disable w).1

  send-MaskIs :
      (msg : Message) (point : SendPoint) (w : World R)
      → MaskIs (R.masked w.kern) (channel_send msg w)
        × MaskIs (R.masked w.kern) (channel_send_msg msg w)
        × MaskIs (R.masked w.kern) (send_resume msg point w)
  unfolding channel_send channel_send_msg send_msg
  send-MaskIs msg point w = (
    grind (
      arith,
      send_start-MaskIs {R = R} (disable w).0 (R.masked w.kern) (R.masked-irq_restore w.kern) msg,
    ),
    send_header-MaskIs {R = R} (disable w).0 (R.masked w.kern) (R.masked-irq_restore w.kern) msg _
        (disable w).1,
    send_resume-MaskIs msg point w,
  )

  recv_resume-MaskIs :
      (buffer : Bool) (point : RecvPoint) (w : World R)
      → MaskIs (R.masked w.kern) (recv_resume buffer point w)
  unfolding recv_resume
  recv_resume-MaskIs buffer RecvPoint.synchronized w =
      recv_synchronized-MaskIs {R = R} (disable w).0 (R.masked w.kern) (R.masked-irq_restore w.kern)
        buffer (disable w).1
  recv_resume-MaskIs buffer (RecvPoint.header s) w =
      recv_header-MaskIs {R = R} (disable w).0 (R.masked w.kern) (R.masked-irq_restore w.kern) s
        (disable w).1
  recv_resume-MaskIs buffer (RecvPoint.chunk_got s size out) w =
      after_recv_chunk-MaskIs {R = R} (disable w).0 (R.masked w.kern) (R.masked-irq_restore w.kern)
        s size out (disable w).1
  recv_resume-MaskIs buffer (RecvPoint.data_wait s size out) w =
      recv_data-MaskIs {R = R} (disable w).0 (R.masked w.kern) (R.masked-irq_restore w.kern) s size
        out (disable w).1

  recv-MaskIs :
      (buffer : Bool) (point : RecvPoint) (w : World R)
      → MaskIs (R.masked w.kern) (channel_recv buffer w)
        × MaskIs (R.masked w.kern) (channel_recv_msg w)
        × MaskIs (R.masked w.kern) (recv_resume buffer point w)
  unfolding channel_recv channel_recv_msg recv_msg
  recv-MaskIs buffer point w = (
    grind (
      arith,
      recv_start-MaskIs {R = R} (disable w).0 (R.masked w.kern) (R.masked-irq_restore w.kern)
          buffer,
    ),
    recv_header-MaskIs {R = R} (disable w).0 (R.masked w.kern) (R.masked-irq_restore w.kern) _
        (disable w).1,
    recv_resume-MaskIs buffer point w,
  )

  drop_resume-MaskIs :
      (point : DropPoint) (w : World R) → MaskIs (R.masked w.kern) (drop_resume point w)
  unfolding drop_resume drop_synchronized
  drop_resume-MaskIs DropPoint.synchronized w =
      drop_header-MaskIs {R = R} (disable w).0 (R.masked w.kern) (R.masked-irq_restore w.kern) _
        (disable w).1
  drop_resume-MaskIs (DropPoint.header s) w =
      drop_header-MaskIs {R = R} (disable w).0 (R.masked w.kern) (R.masked-irq_restore w.kern) s
        (disable w).1
  drop_resume-MaskIs (DropPoint.chunk_dropped s size b) w =
      after_drop_chunk-MaskIs {R = R} (disable w).0 (R.masked w.kern) (R.masked-irq_restore w.kern)
        s size b (disable w).1
  drop_resume-MaskIs (DropPoint.data_wait s size b) w =
      drop_data-MaskIs {R = R} (disable w).0 (R.masked w.kern) (R.masked-irq_restore w.kern) s size
        b (disable w).1

  drop-MaskIs :
      (point : DropPoint) (w : World R)
      → MaskIs (R.masked w.kern) (channel_drop w) × MaskIs (R.masked w.kern) (drop_resume point w)
  unfolding channel_drop
  drop-MaskIs point w = (
    grind (
      arith,
      drop_start-MaskIs {R = R} (disable w).0 (R.masked w.kern) (R.masked-irq_restore w.kern),
    ),
    drop_resume-MaskIs point w,
  )

  try-MaskIs :
      (msg : Message) (buffer : Bool) (w : World R)
      → MaskIs (R.masked w.kern) (channel_try_send msg w)
        × MaskIs (R.masked w.kern) (channel_try_recv buffer w)
  unfolding channel_try_send channel_try_recv try_send_masked try_add_size try_recv_masked
  try-MaskIs msg buffer w =
      (grind (arith, R.masked-irq_restore w.kern), grind (arith, R.masked-irq_restore w.kern))

  -- Every call of the module that disables interrupts, from its start and from every point, on every branch:
  -- wherever it pauses or returns, interrupts are as they were when the thread made the call or went
  -- on with it.
  pub calls-MaskIs :
      (msg : Message) (sends : SendPoint) (buffer : Bool) (receives : RecvPoint) (drops : DropPoint)
      (w : World R)
      → (MaskIs (R.masked w.kern) (channel_send msg w)
          × MaskIs (R.masked w.kern) (channel_send_msg msg w)
          × MaskIs (R.masked w.kern) (send_resume msg sends w))
        × (MaskIs (R.masked w.kern) (channel_recv buffer w)
            × MaskIs (R.masked w.kern) (channel_recv_msg w)
            × MaskIs (R.masked w.kern) (recv_resume buffer receives w))
        × (MaskIs (R.masked w.kern) (channel_drop w)
            × MaskIs (R.masked w.kern) (drop_resume drops w))
        × (MaskIs (R.masked w.kern) (channel_try_send msg w)
            × MaskIs (R.masked w.kern) (channel_try_recv buffer w))
  calls-MaskIs msg sends buffer receives drops w = (
    send-MaskIs msg sends w,
    recv-MaskIs buffer receives w,
    drop-MaskIs drops w,
    try-MaskIs msg buffer w,
  )

-- ===== src/Frame/Calls.antt =====
-- What the calls of modules/csp/csp.c leave alone, from their start and from each point where they go on.
use riot_csp_module.Common.{◌≡◌, Bool, arith, not}
use riot_csp_module.Riot.{Riot}
use riot_csp_module.Channel.{World, channel_is_creator}
use riot_csp_module.Send.{Message, SendPoint, channel_send, channel_send_msg, send_msg, send_resume}
use riot_csp_module.Recv.{RecvPoint, channel_recv, channel_recv_msg, recv_msg, recv_resume}
use riot_csp_module.Drop.{DropPoint, channel_drop, drop_synchronized, drop_resume}
use riot_csp_module.Try.{
  channel_try_send, channel_try_recv, try_send_masked, try_add_size, try_recv_masked,
}
use riot_csp_module.Frame.{
  frame, frame-with_rb, send_data-frame, send_header-frame, send_synchronized-frame,
  send_start-frame, after_send_chunk-frame, recv_data-frame, recv_header-frame,
  recv_synchronized-frame, recv_start-frame, after_recv_chunk-frame, drop_data-frame,
  drop_header-frame, drop_start-frame, after_drop_chunk-frame,
}

module _ {R : Riot} where
  -- the file that a send goes on with
  abbrev pub send_side : SendPoint → World R → Bool
  send_side SendPoint.synchronized w = channel_is_creator w
  send_side (SendPoint.header side) w = side
  send_side (SendPoint.chunk_sent side bytes) w = side
  send_side (SendPoint.data_wait side bytes) w = side

  abbrev pub recv_side : RecvPoint → World R → Bool
  recv_side RecvPoint.synchronized w = not (channel_is_creator w)
  recv_side (RecvPoint.header side) w = side
  recv_side (RecvPoint.chunk_got side data_size out) w = side
  recv_side (RecvPoint.data_wait side data_size out) w = side

  abbrev drop_side : DropPoint → World R → Bool
  drop_side DropPoint.synchronized w = not (channel_is_creator w)
  drop_side (DropPoint.header side) w = side
  drop_side (DropPoint.chunk_dropped side data_size bytes) w = side
  drop_side (DropPoint.data_wait side data_size bytes) w = side

  send_resume-frame :
      (msg : Message) (point : SendPoint) (w : World R)
      → frame (send_side point w) (send_resume msg point w).1 ≡ frame (send_side point w) w
  unfolding send_resume channel_is_creator
  send_resume-frame msg SendPoint.synchronized w =
      grind (arith, send_synchronized-frame {R = R}, R.getpid-irq_disable)
  send_resume-frame msg (SendPoint.header s) w = send_header-frame {R = R} _ msg s _
  send_resume-frame msg (SendPoint.chunk_sent s b) w = after_send_chunk-frame {R = R} _ msg s b _
  send_resume-frame msg (SendPoint.data_wait s b) w = send_data-frame {R = R} _ msg s b _

  pub send-frame :
      (msg : Message) (point : SendPoint) (w : World R)
      → (frame (channel_is_creator w) (channel_send msg w).1 ≡ frame (channel_is_creator w) w)
        × (frame (channel_is_creator w) (channel_send_msg msg w).1 ≡ frame (channel_is_creator w) w)
        × (frame (send_side point w) (send_resume msg point w).1 ≡ frame (send_side point w) w)
  unfolding channel_send channel_send_msg send_msg channel_is_creator
  send-frame msg point w = (
    grind (arith, send_start-frame {R = R}, R.getpid-irq_disable),
    grind (arith, send_header-frame {R = R}, R.getpid-irq_disable),
    send_resume-frame msg point w,
  )

  recv_resume-frame :
      (buffer : Bool) (point : RecvPoint) (w : World R)
      → frame (recv_side point w) (recv_resume buffer point w).1 ≡ frame (recv_side point w) w
  unfolding recv_resume channel_is_creator
  recv_resume-frame buffer RecvPoint.synchronized w =
      grind (arith, recv_synchronized-frame {R = R}, R.getpid-irq_disable)
  recv_resume-frame buffer (RecvPoint.header s) w = recv_header-frame {R = R} _ s _
  recv_resume-frame buffer (RecvPoint.chunk_got s size out) w =
      after_recv_chunk-frame {R = R} _ s size out _
  recv_resume-frame buffer (RecvPoint.data_wait s size out) w =
      recv_data-frame {R = R} _ s size out _

  pub recv-frame :
      (buffer : Bool) (point : RecvPoint) (w : World R)
      → (frame (not (channel_is_creator w)) (channel_recv buffer w).1
          ≡ frame (not (channel_is_creator w)) w)
        × (frame (not (channel_is_creator w)) (channel_recv_msg w).1
            ≡ frame (not (channel_is_creator w)) w)
        × (frame (recv_side point w) (recv_resume buffer point w).1 ≡ frame (recv_side point w) w)
  unfolding channel_recv channel_recv_msg recv_msg channel_is_creator
  recv-frame buffer point w = (
    grind (arith, recv_start-frame {R = R}, R.getpid-irq_disable),
    grind (arith, recv_header-frame {R = R}, R.getpid-irq_disable),
    recv_resume-frame buffer point w,
  )

  drop_resume-frame :
      (point : DropPoint) (w : World R)
      → frame (drop_side point w) (drop_resume point w).1 ≡ frame (drop_side point w) w
  unfolding drop_resume drop_synchronized channel_is_creator
  drop_resume-frame DropPoint.synchronized w =
      grind (arith, drop_header-frame {R = R}, R.getpid-irq_disable)
  drop_resume-frame (DropPoint.header s) w = drop_header-frame {R = R} _ s _
  drop_resume-frame (DropPoint.chunk_dropped s size b) w =
      after_drop_chunk-frame {R = R} _ s size b _
  drop_resume-frame (DropPoint.data_wait s size b) w = drop_data-frame {R = R} _ s size b _

  drop-frame :
      (w : World R)
      → frame (not (channel_is_creator w)) (channel_drop w).1 ≡ frame (not (channel_is_creator w)) w
  unfolding channel_drop channel_is_creator
  drop-frame w = grind (arith, drop_start-frame {R = R}, R.getpid-irq_disable)

  pub try-frame :
      (msg : Message) (buffer : Bool) (w : World R)
      → (frame (channel_is_creator w) (channel_try_send msg w).1 ≡ frame (channel_is_creator w) w)
        × (frame (not (channel_is_creator w)) (channel_try_recv buffer w).1
            ≡ frame (not (channel_is_creator w)) w)
  unfolding channel_try_send channel_try_recv try_send_masked try_add_size try_recv_masked
      channel_is_creator
  try-frame msg buffer w = (
    grind (arith, frame-with_rb {R = R}, R.getpid-irq_disable, R.add-capacity, R.drop-capacity),
    grind (arith, frame-with_rb {R = R}, R.getpid-irq_disable, R.get-capacity),
  )

  -- Every call of the module that works on a file, from its start and from every point, on every branch:
  -- the flags, the creator and the sizes of both files stay, and the file of the other direction is
  -- not touched.
  pub calls-frame :
      (msg : Message) (sends : SendPoint) (buffer : Bool) (receives : RecvPoint) (drops : DropPoint)
      (w : World R)
      → ((frame (channel_is_creator w) (channel_send msg w).1 ≡ frame (channel_is_creator w) w)
          × (frame (channel_is_creator w) (channel_send_msg msg w).1
              ≡ frame (channel_is_creator w) w)
          × (frame (send_side sends w) (send_resume msg sends w).1 ≡ frame (send_side sends w) w))
        × ((frame (not (channel_is_creator w)) (channel_recv buffer w).1
              ≡ frame (not (channel_is_creator w)) w)
            × (frame (not (channel_is_creator w)) (channel_recv_msg w).1
                ≡ frame (not (channel_is_creator w)) w)
            × (frame (recv_side receives w) (recv_resume buffer receives w).1
                ≡ frame (recv_side receives w) w))
        × ((frame (not (channel_is_creator w)) (channel_drop w).1
              ≡ frame (not (channel_is_creator w)) w)
            × (frame (drop_side drops w) (drop_resume drops w).1 ≡ frame (drop_side drops w) w))
        × ((frame (channel_is_creator w) (channel_try_send msg w).1
              ≡ frame (channel_is_creator w) w)
            × (frame (not (channel_is_creator w)) (channel_try_recv buffer w).1
                ≡ frame (not (channel_is_creator w)) w))
  calls-frame msg sends buffer receives drops w = (
    send-frame msg sends w,
    recv-frame buffer receives w,
    (drop-frame w, drop_resume-frame drops w),
    try-frame msg buffer w,
  )

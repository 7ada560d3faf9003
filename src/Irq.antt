-- ===== src/Irq.antt =====
-- The calls of modules/csp/csp.c in an interrupt, where irq_is_in () holds: there they do not wait for room or
-- for data in the middle of a message.
use riot_csp_module.Common.{ℕ, ◌≡◌, ◌∙◌, Bool, true, false, List, arith}
use riot_csp_module.Riot.{Riot}
use riot_csp_module.Channel.{World}
use riot_csp_module.Sched.{Outcome, paused, disable, channel_synchronize}
use riot_csp_module.Send
use riot_csp_module.Send.{
  Message, SendPoint, with_rb, send_data, send_header, send_msg, send_synchronized, send_start,
  channel_send, send_resume, no_room, sent_chunk,
}
use riot_csp_module.Recv
use riot_csp_module.Recv.{
  RecvPoint, Received, recv_data, recv_header, recv_msg, recv_synchronized, recv_start,
  channel_recv, recv_resume, gives_up, no_bytes, got_chunk,
}
use riot_csp_module.Drop
use riot_csp_module.Drop.{
  DropPoint, drop_data, drop_header, drop_synchronized, channel_drop, drop_resume, drop_waits,
  chunk_gone,
}

-- The call waits in the middle of a message.
abbrev pub send_waits : Outcome SendPoint ℕ → Bool
send_waits (paused p (SendPoint.data_wait side bytes)) = true
send_waits _ = false

abbrev pub recv_waits : Outcome RecvPoint Received → Bool
recv_waits (paused p (RecvPoint.data_wait side data_size out)) = true
recv_waits _ = false

abbrev pub drops_waits : Outcome DropPoint ℕ → Bool
drops_waits (paused p (DropPoint.data_wait side data_size bytes)) = true
drops_waits _ = false

module _ {R : Riot} where
  module _ (state : ℕ) where
    send_data-irq :
        (m : Message) (side : Bool) (b : ℕ) (w : World R)
        → R.irq_is_in w.kern ≡ true
        → send_waits (send_data m side b state w).0 ≡ false
    unfolding send_data no_room sent_chunk
    send_data-irq m side b w h = grind (arith, h)

    send_header-irq :
        (m : Message) (side : Bool) (w : World R)
        → R.irq_is_in w.kern ≡ true
        → send_waits (send_header m side state w).0 ≡ false
    unfolding send_header
    send_header-irq m side w h = grind (arith, h, send_data-irq)

    send_synchronized-irq :
        (m : Message) (w : World R)
        → R.irq_is_in w.kern ≡ true
        → send_waits (send_synchronized m state w).0 ≡ false
    unfolding send_synchronized send_msg
    send_synchronized-irq m w h = grind (arith, h, send_header-irq)

    send_start-irq :
        (m : Message) (w : World R)
        → R.irq_is_in w.kern ≡ true
        → send_waits (send_start m state w).0 ≡ false
    unfolding send_start Send.after_synchronize channel_synchronize
    send_start-irq m w h = grind (arith, h, send_synchronized-irq)

    after_send_chunk-irq :
        (m : Message) (side : Bool) (b : ℕ) (w : World R)
        → R.irq_is_in w.kern ≡ true
        → send_waits (Send.after_chunk m side b state w).0 ≡ false
    unfolding Send.after_chunk
    after_send_chunk-irq m side b w h = grind (arith, h, send_data-irq)

    recv_data-irq :
        (side : Bool) (size : ℕ) (out : List ℕ) (w : World R)
        → R.irq_is_in w.kern ≡ true
        → recv_waits (recv_data side size out state w).0 ≡ false
    unfolding recv_data no_bytes got_chunk
    recv_data-irq side size out w h = grind (arith, h)

    recv_header-irq :
        (side : Bool) (w : World R)
        → R.irq_is_in w.kern ≡ true
        → recv_waits (recv_header side state w).0 ≡ false
    unfolding recv_header
    recv_header-irq side w h = grind (arith, h, recv_data-irq)

    recv_synchronized-irq :
        (buffer : Bool) (w : World R)
        → R.irq_is_in w.kern ≡ true
        → recv_waits (recv_synchronized buffer state w).0 ≡ false
    unfolding recv_synchronized recv_msg
    recv_synchronized-irq buffer w h = grind (arith, h, recv_header-irq)

    recv_start-irq :
        (buffer : Bool) (w : World R)
        → R.irq_is_in w.kern ≡ true
        → recv_waits (recv_start buffer state w).0 ≡ false
    unfolding recv_start Recv.after_synchronize channel_synchronize
    recv_start-irq buffer w h = grind (arith, h, recv_synchronized-irq)

    after_recv_chunk-irq :
        (side : Bool) (size : ℕ) (out : List ℕ) (w : World R)
        → R.irq_is_in w.kern ≡ true
        → recv_waits (Recv.after_chunk side size out state w).0 ≡ false
    unfolding Recv.after_chunk
    after_recv_chunk-irq side size out w h = grind (arith, h, recv_data-irq)

    drop_waits-irq :
        (side : Bool) (size b : ℕ) (w : World R)
        → R.irq_is_in w.kern ≡ true
        → drops_waits (drop_waits side size b state w).0 ≡ false
    unfolding drop_waits
    drop_waits-irq side size b w h = grind (arith, h)

    drop_data-irq :
        (side : Bool) (size b : ℕ) (w : World R)
        → R.irq_is_in w.kern ≡ true
        → drops_waits (drop_data side size b state w).0 ≡ false
    unfolding drop_data chunk_gone
    drop_data-irq side size b w h = grind (arith, h, drop_waits-irq)

    drop_header-irq :
        (side : Bool) (w : World R)
        → R.irq_is_in w.kern ≡ true
        → drops_waits (drop_header side state w).0 ≡ false
    unfolding drop_header
    drop_header-irq side w h = grind (arith, h, drop_data-irq)

    drop_start-irq :
        (sender : Bool) (w : World R)
        → R.irq_is_in w.kern ≡ true
        → drops_waits (Drop.after_synchronize state (channel_synchronize sender state w)).0 ≡ false
    unfolding drop_synchronized Drop.after_synchronize channel_synchronize
    drop_start-irq sender w h = grind (arith, h, drop_header-irq)

  in_irq : (w : World R) → R.irq_is_in w.kern ≡ true → R.irq_is_in (disable w).1.kern ≡ true
  in_irq w h = R.irq_is_in-irq_disable w.kern ∙ h

  send_resume-irq :
      (m : Message) (point : SendPoint) (w : World R)
      → R.irq_is_in w.kern ≡ true
      → send_waits (send_resume m point w).0 ≡ false
  unfolding send_resume
  send_resume-irq m SendPoint.synchronized w h = send_synchronized-irq _ m _ (in_irq w h)
  send_resume-irq m (SendPoint.header s) w h = send_header-irq _ m s _ (in_irq w h)
  send_resume-irq m (SendPoint.chunk_sent s b) w h = after_send_chunk-irq _ m s b _ (in_irq w h)
  send_resume-irq m (SendPoint.data_wait s b) w h = send_data-irq _ m s b _ (in_irq w h)

  recv_resume-irq :
      (buffer : Bool) (point : RecvPoint) (w : World R)
      → R.irq_is_in w.kern ≡ true
      → recv_waits (recv_resume buffer point w).0 ≡ false
  unfolding recv_resume
  recv_resume-irq buffer RecvPoint.synchronized w h = recv_synchronized-irq _ buffer _ (in_irq w h)
  recv_resume-irq buffer (RecvPoint.header s) w h = recv_header-irq _ s _ (in_irq w h)
  recv_resume-irq buffer (RecvPoint.chunk_got s size out) w h =
      after_recv_chunk-irq _ s size out _ (in_irq w h)
  recv_resume-irq buffer (RecvPoint.data_wait s size out) w h =
      recv_data-irq _ s size out _ (in_irq w h)

  drop_resume-irq :
      (point : DropPoint) (w : World R)
      → R.irq_is_in w.kern ≡ true
      → drops_waits (drop_resume point w).0 ≡ false
  unfolding drop_resume drop_synchronized Drop.after_chunk
  drop_resume-irq DropPoint.synchronized w h = drop_header-irq _ _ _ (in_irq w h)
  drop_resume-irq (DropPoint.header s) w h = drop_header-irq _ s _ (in_irq w h)
  drop_resume-irq (DropPoint.chunk_dropped s size b) w h = grind (arith, in_irq w h, drop_waits-irq)
  drop_resume-irq (DropPoint.data_wait s size b) w h = drop_data-irq _ s size b _ (in_irq w h)

  -- In an interrupt no send, receive or drop waits for room or for data in the middle of a message, neither
  -- from its start nor from any point where it goes on.
  pub irq-passes :
      (m : Message) (buffer : Bool) (sends : SendPoint) (receives : RecvPoint) (drops : DropPoint)
      (w : World R)
      → R.irq_is_in w.kern ≡ true
      → (send_waits (channel_send m w).0 ≡ false)
        × (send_waits (send_resume m sends w).0 ≡ false)
        × (recv_waits (channel_recv buffer w).0 ≡ false)
        × (recv_waits (recv_resume buffer receives w).0 ≡ false)
        × (drops_waits (channel_drop w).0 ≡ false)
        × (drops_waits (drop_resume drops w).0 ≡ false)
  unfolding channel_send channel_recv channel_drop
  irq-passes m buffer sends receives drops w h = (
    grind (arith, in_irq w h, send_start-irq),
    send_resume-irq m sends w h,
    grind (arith, in_irq w h, recv_start-irq),
    recv_resume-irq buffer receives w h,
    grind (arith, in_irq w h, drop_start-irq),
    drop_resume-irq drops w h,
  )

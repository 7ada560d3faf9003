-- ===== src/Recv/Refines.antt =====
-- channel_recv of modules/csp/csp.c against the specification of Transfer.antt, from its start and from
-- each point where it goes on.
use riot_csp_module.Common.{
  ℕ, ◌-◌, min, ◌≡◌, refl, ◌∙◌, Bool, true, false, List, [], length, take, drop, ◌==◌, inl, inr,
  Bool-cases,
}
use riot_csp_module.Riot.{Riot}
use riot_csp_module.Channel.{World, channel_get_rb, size_bytes}
use riot_csp_module.Sched.{read_blocked}
use riot_csp_module.Sched.Effects.{
  SlotIs, synchronize_buffered, synchronize_first, synchronize_second,
}
use riot_csp_module.Send.{with_rb}
use riot_csp_module.Recv.{
  RecvPoint, gives_up, no_bytes, got_chunk, recv_data, recv_header, recv_msg, recv_synchronized,
  recv_start, channel_recv, after_chunk, recv_resume,
}
use riot_csp_module.Transfer
use riot_csp_module.Transfer.{Net, at}
use riot_csp_module.Transfer.Starts.{recv_start_buffered, recv_start_second, recv_start_first}
use riot_csp_module.Transfer.Shows.{
  Parties, Shows, Agrees, Shows-receiver_sleeps, Shows-sender_wakes, Shows-restore, Shows-disable,
}
use riot_csp_module.Transfer.Shows.File.{
  Shows-get, Shows-drop, not_closed, buffered_same, empty_same, get-bytes_same, peek_same,
  drop-count_same, receiver_is_other,
}

-- The points of a receive that reads file `side`.
abbrev pub ReceivesOn : Bool → RecvPoint → Type 0
ReceivesOn side RecvPoint.synchronized = Unit
ReceivesOn side (RecvPoint.header s) = s ≡ side
ReceivesOn side (RecvPoint.chunk_got s data_size out) = s ≡ side
ReceivesOn side (RecvPoint.data_wait s data_size out) = s ≡ side

module _ {R : Riot} (p : Parties) where
  open p use {receiver, side, buffered}

  goes_on :
      (data_size : ℕ) (n : Net) (w : World R) → Shows p n w → gives_up side data_size w ≡ false
  unfolding gives_up
  goes_on data_size n w h = rw (not_closed p n w h)

  no_bytes-Agrees :
      (data_size : ℕ) (out : List ℕ) (n : Net) (state : ℕ) (w : World R)
      → R.getpid w.kern ≡ receiver
      → Shows p n w
      → Agrees p
          (at (RecvPoint.data_wait side data_size out), record n { receiver_asleep = true })
          (no_bytes side data_size out state w)
  unfolding no_bytes
  no_bytes-Agrees data_size out n state w e h =
      rw h.stays.in_thread
        (record { task_same = refl; shows = Shows-receiver_sleeps p n state w e h })

  recv_data-Agrees :
      (data_size : ℕ) (out : List ℕ) (n : Net) (state : ℕ) (w : World R)
      → R.getpid w.kern ≡ receiver
      → Shows p n w
      → Agrees p
          (Transfer.recv_data side buffered data_size out n)
          (recv_data side data_size out state w)
  unfolding recv_data Transfer.recv_data got_chunk
  recv_data-Agrees data_size out n state w e h =
      rw
        (
          goes_on data_size n w h,
          empty_same p n w h,
          get-bytes_same p n (data_size - length out) w h,
        )
        (elim (Bool-cases (length n.queue == 0)) [
          | inl empty ↦ rw empty (no_bytes-Agrees data_size out n state w e h)
          | inr held ↦
              rw held (elim (Bool-cases (length (take (data_size - length out) n.queue) == 0)) [
                | inl nothing ↦ rw nothing (no_bytes-Agrees data_size out _ state _ e got)
                | inr chunk ↦
                    rw chunk
                      (record { task_same = refl; shows = Shows-sender_wakes p _ state _ got })
              ])
        ])
    where
      got :
          Shows p
            (record n { queue = drop (data_size - length out) n.queue })
            (with_rb {R = R} side
              (R.rb_get (channel_get_rb side w.chan) (data_size - length out)).0
              w)
      got = Shows-get p n (data_size - length out) w h

  recv_header-Agrees :
      (n : Net) (state : ℕ) (w : World R)
      → R.getpid w.kern ≡ receiver
      → Shows p n w
      → Agrees p (Transfer.recv_header side buffered n) (recv_header side state w)
  unfolding recv_header Transfer.recv_header
  recv_header-Agrees n state w e h =
      rw (peek_same p n size_bytes w h, drop-count_same p n size_bytes w h)
        (elim (Bool-cases (length (take size_bytes n.queue) == size_bytes)) [
          | inr short ↦
              rw short (record { task_same = refl; shows = Shows-receiver_sleeps p n state w e h })
          | inl whole ↦
              rw whole (elim (Bool-cases (min size_bytes (length n.queue) == size_bytes)) [
                | inl gone ↦ rw gone (recv_data-Agrees _ [] _ state _ e dropped)
                | inr left ↦ rw left (record { task_same = refl; shows = dropped })
              ])
        ])
    where
      dropped :
          Shows p
            (record n { queue = drop size_bytes n.queue })
            (with_rb {R = R} side (R.rb_drop (channel_get_rb side w.chan) size_bytes).0 w)
      dropped = Shows-drop p n size_bytes w h

  synchronized-Agrees :
      (n : Net) (state : ℕ) (w : World R)
      → R.getpid w.kern ≡ receiver
      → Shows p n w
      → Agrees p (Transfer.recv_header side buffered n) (recv_synchronized true state w)
  unfolding recv_synchronized recv_msg
  synchronized-Agrees n state w e h =
      rw (receiver_is_other p n w e h) (recv_header-Agrees n state w e h)

  meeting-Agrees :
      (asleep : Bool) (n : Net) (state : ℕ) (w : World R)
      → n.sender_asleep ≡ asleep
      → buffered ≡ false
      → R.getpid w.kern ≡ receiver
      → Shows p n w
      → SlotIs read_blocked p.sender asleep w
      → Agrees p (Transfer.recv_start side buffered n) (recv_start true state w)
  unfolding recv_start
  meeting-Agrees true n state w a u e h s =
      rw
        (
          recv_start_second side buffered n u a,
          synchronize_second false p.sender state w (buffered_same p n w h ∙ u) s.0,
        )
        (record { task_same = refl; shows = Shows-sender_wakes p n state w h })
  meeting-Agrees false n state w a u e h s =
      rw
        (
          recv_start_first side buffered n u a,
          synchronize_first false state w (buffered_same p n w h ∙ u) s.0,
        )
        (record { task_same = refl; shows = Shows-receiver_sleeps p n state w e h })

  start-Agrees :
      (n : Net) (state : ℕ) (w : World R)
      → R.getpid w.kern ≡ receiver
      → Shows p n w
      → Agrees p (Transfer.recv_start side buffered n) (recv_start true state w)
  unfolding recv_start
  start-Agrees n state w e h = elim (Bool-cases buffered) [
    | inl b ↦
        rw
          (
            recv_start_buffered side buffered n b,
            synchronize_buffered false state w (buffered_same p n w h ∙ b),
          )
          (synchronized-Agrees n state w e h)
    | inr u ↦ meeting-Agrees n.sender_asleep n state w refl u e h h.sender_is
  ]

  -- The receiver calls channel_recv with a buffer, over an open channel that shows a queue of bytes and
  -- who sleeps. The call does what the specification's start of a receive says.
  pub channel_recv-Agrees :
      (n : Net) (w : World R)
      → R.getpid w.kern ≡ receiver
      → Shows p n w
      → Agrees p (Transfer.recv_start side buffered n) (channel_recv true w)
  unfolding channel_recv
  channel_recv-Agrees n w e h =
      rw (not_closed p n w h)
        (start-Agrees n _ _ (R.getpid-irq_disable w.kern ∙ e) (Shows-disable p n w h))

  after_chunk-Agrees :
      (data_size : ℕ) (out : List ℕ) (n : Net) (state : ℕ) (w : World R)
      → R.getpid w.kern ≡ receiver
      → Shows p n w
      → Agrees p
          (Transfer.recv_resume side buffered (RecvPoint.chunk_got side data_size out) n)
          (after_chunk side data_size out state w)
  unfolding after_chunk Transfer.recv_resume
  after_chunk-Agrees data_size out n state w e h = elim (Bool-cases (length out == data_size)) [
    | inl all ↦ rw all (record { task_same = refl; shows = Shows-restore p n state w h })
    | inr more ↦ rw more (recv_data-Agrees data_size out n state w e h)
  ]

  -- The receiver goes on with channel_recv from any point, over a channel that shows a queue of bytes
  -- and who sleeps. The call stops, or returns, as the specification says of that point.
  pub recv_resume-Agrees :
      (point : RecvPoint) (n : Net) (w : World R)
      → ReceivesOn side point
      → R.getpid w.kern ≡ receiver
      → Shows p n w
      → Agrees p (Transfer.recv_resume side buffered point n) (recv_resume true point w)
  unfolding recv_resume Transfer.recv_resume
  recv_resume-Agrees RecvPoint.synchronized n w s e h =
      synchronized-Agrees n _ _ (R.getpid-irq_disable w.kern ∙ e) (Shows-disable p n w h)
  recv_resume-Agrees (RecvPoint.header _) n w s e h =
      rw s (recv_header-Agrees n _ _ (R.getpid-irq_disable w.kern ∙ e) (Shows-disable p n w h))
  recv_resume-Agrees (RecvPoint.chunk_got _ data_size out) n w s e h = rw s (
      after_chunk-Agrees data_size out n _ _ (R.getpid-irq_disable w.kern ∙ e)
        (Shows-disable p n w h))
  recv_resume-Agrees (RecvPoint.data_wait _ data_size out) n w s e h = rw s (
      recv_data-Agrees data_size out n _ _ (R.getpid-irq_disable w.kern ∙ e)
        (Shows-disable p n w h))

  -- The receiver calls channel_recv with a buffer, or goes on with it from any point, over an open channel
  -- that shows a queue of bytes and who sleeps. The call does to these what the specification of a
  -- receive does, and stops at the same point or returns the same size and bytes.
  pub recv-Agrees :
      (point : RecvPoint) (n : Net) (w : World R)
      → ReceivesOn side point
      → R.getpid w.kern ≡ receiver
      → Shows p n w
      → Agrees p (Transfer.recv_start side buffered n) (channel_recv true w)
        × Agrees p (Transfer.recv_resume side buffered point n) (recv_resume true point w)
  recv-Agrees point n w s e h = (channel_recv-Agrees n w e h, recv_resume-Agrees point n w s e h)

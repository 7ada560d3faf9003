-- ===== src/Send/Refines.antt =====
-- channel_send of modules/csp/csp.c against the specification of Transfer.antt, from its start and from
-- each point where it goes on.
use riot_csp_module.Common.{
  ℕ, min, ◌≡◌, refl, ◌∙◌, Bool, true, false, ◌++◌, length, take, ◌==◌, inl, inr, Bool-cases,
}
use riot_csp_module.Riot.{Riot}
use riot_csp_module.Channel.{World, channel_get_rb, size_bytes, encode_size, length-encode_size}
use riot_csp_module.Sched.{write_blocked}
use riot_csp_module.Sched.Effects.{
  SlotIs, synchronize_buffered, synchronize_first, synchronize_second,
}
use riot_csp_module.Send.{
  Message, SendPoint, unsent, with_rb, no_room, sent_chunk, send_data, send_header, send_msg,
  send_synchronized, send_start, channel_send, send_resume, after_chunk, no_data,
}
use riot_csp_module.Transfer
use riot_csp_module.Transfer.{Net, room, Task, at}
use riot_csp_module.Transfer.Starts.{send_start_buffered, send_start_second, send_start_first}
use riot_csp_module.Transfer.Shows.{
  Parties, Shows, Agrees, Shows-sender_sleeps, Shows-receiver_wakes, Shows-restore, Shows-disable,
}
use riot_csp_module.Transfer.Shows.File.{
  Shows-add, not_closed, buffered_same, avail_same, add-count_same, Shows-drop_front,
  sender_is_creator,
}

-- The points of a send that writes file `side`.
abbrev pub SendsOn : Bool → SendPoint → Type 0
SendsOn side SendPoint.synchronized = Unit
SendsOn side (SendPoint.header s) = s ≡ side
SendsOn side (SendPoint.chunk_sent s bytes) = s ≡ side
SendsOn side (SendPoint.data_wait s bytes) = s ≡ side

module _ {R : Riot} (p : Parties) (m : Message) where
  open p use {sender, side, buffered}

  no_room-Agrees :
      (bytes : ℕ) (n : Net) (state : ℕ) (w : World R)
      → R.getpid w.kern ≡ sender
      → Shows p n w
      → Agrees p
          (at (SendPoint.data_wait side bytes), record n { sender_asleep = true })
          (no_room side bytes state w)
  unfolding no_room
  no_room-Agrees bytes n state w e h =
      rw h.stays.in_thread
        (record { task_same = refl; shows = Shows-sender_sleeps p n state w e h })

  send_data-Agrees :
      (bytes : ℕ) (n : Net) (state : ℕ) (w : World R)
      → R.getpid w.kern ≡ sender
      → Shows p n w
      → Agrees p (Transfer.send_data side buffered m bytes n) (send_data m side bytes state w)
  unfolding send_data Transfer.send_data sent_chunk
  send_data-Agrees bytes n state w e h =
      rw (not_closed p n w h, avail_same p n w h, add-count_same p n (unsent m bytes) w h)
        (elim (Bool-cases (room n == 0)) [
          | inl full ↦ rw full (no_room-Agrees bytes n state w e h)
          | inr free ↦ rw free (elim (Bool-cases (min (length (unsent m bytes)) (room n) == 0)) [
            | inl nothing ↦ rw nothing (no_room-Agrees bytes _ state _ e added)
            | inr some_bytes ↦
                rw some_bytes
                  (record { task_same = refl; shows = Shows-receiver_wakes p _ state _ added })
          ])
        ])
    where
      added :
          Shows p
            (record n { queue = n.queue ++ take (room n) (unsent m bytes) })
            (with_rb {R = R} side (R.rb_add (channel_get_rb side w.chan) (unsent m bytes)).0 w)
      added = Shows-add p n (unsent m bytes) w h

  send_header-Agrees :
      (n : Net) (state : ℕ) (w : World R)
      → R.getpid w.kern ≡ sender
      → Shows p n w
      → Agrees p (Transfer.send_header side buffered m n) (send_header m side state w)
  unfolding send_header Transfer.send_header
  send_header-Agrees n state w e h =
      rw (add-count_same p n (encode_size m.data_size) w h, length-encode_size m.data_size)
        (elim (Bool-cases (min size_bytes (room n) == size_bytes)) [
          | inl fits ↦ rw fits (send_data-Agrees 0 _ state _ e added)
          | inr short ↦
              rw (short, not_closed p n w h)
                (record {
                  task_same = refl;
                  shows = Shows-sender_sleeps p _ state _ e (Shows-drop_front p n _ _ w h);
                })
        ])
    where
      added :
          Shows p
            (record n { queue = n.queue ++ take (room n) (encode_size m.data_size) })
            (with_rb {R = R} side
              (R.rb_add (channel_get_rb side w.chan) (encode_size m.data_size)).0
              w)
      added = Shows-add p n (encode_size m.data_size) w h

  send_synchronized-Agrees :
      (n : Net) (state : ℕ) (w : World R)
      → R.getpid w.kern ≡ sender
      → Shows p n w
      → Agrees p (Transfer.send_synchronized side buffered m n) (send_synchronized m state w)
  unfolding send_synchronized send_msg Transfer.send_synchronized
  send_synchronized-Agrees n state w e h =
      rw (sender_is_creator p n w e h) (elim (Bool-cases (no_data m)) [
        | inl empty ↦ rw empty (record { task_same = refl; shows = Shows-restore p n state w h })
        | inr full ↦ rw full (send_header-Agrees n state w e h)
      ])

  meeting-Agrees :
      (asleep : Bool) (n : Net) (state : ℕ) (w : World R)
      → n.receiver_asleep ≡ asleep
      → buffered ≡ false
      → R.getpid w.kern ≡ sender
      → Shows p n w
      → SlotIs write_blocked p.receiver asleep w
      → Agrees p (Transfer.send_start side buffered m n) (send_start m state w)
  unfolding send_start
  meeting-Agrees true n state w a u e h s =
      rw
        (
          send_start_second side buffered n m u a,
          synchronize_second true p.receiver state w (buffered_same p n w h ∙ u) s.0,
        )
        (record { task_same = refl; shows = Shows-receiver_wakes p n state w h })
  meeting-Agrees false n state w a u e h s =
      rw
        (
          send_start_first side buffered n m u a,
          synchronize_first true state w (buffered_same p n w h ∙ u) s.0,
        )
        (record { task_same = refl; shows = Shows-sender_sleeps p n state w e h })

  start-Agrees :
      (n : Net) (state : ℕ) (w : World R)
      → R.getpid w.kern ≡ sender
      → Shows p n w
      → Agrees p (Transfer.send_start side buffered m n) (send_start m state w)
  unfolding send_start
  start-Agrees n state w e h = elim (Bool-cases buffered) [
    | inl b ↦
        rw
          (
            send_start_buffered side buffered n m b,
            synchronize_buffered true state w (buffered_same p n w h ∙ b),
          )
          (send_synchronized-Agrees n state w e h)
    | inr u ↦ meeting-Agrees n.receiver_asleep n state w refl u e h h.receiver_is
  ]

  -- The sender calls channel_send over an open channel that shows a queue of bytes and who sleeps. The
  -- call does what the specification's start of a send says: it stops at the same point, and the
  -- channel then shows what the specification leaves.
  pub channel_send-Agrees :
      (n : Net) (w : World R)
      → R.getpid w.kern ≡ sender
      → Shows p n w
      → Agrees p (Transfer.send_start side buffered m n) (channel_send m w)
  unfolding channel_send
  channel_send-Agrees n w e h =
      rw (not_closed p n w h)
        (start-Agrees n _ _ (R.getpid-irq_disable w.kern ∙ e) (Shows-disable p n w h))

  after_chunk-Agrees :
      (bytes : ℕ) (n : Net) (state : ℕ) (w : World R)
      → R.getpid w.kern ≡ sender
      → Shows p n w
      → Agrees p
          (Transfer.send_resume side buffered m (SendPoint.chunk_sent side bytes) n)
          (after_chunk m side bytes state w)
  unfolding after_chunk Transfer.send_resume
  after_chunk-Agrees bytes n state w e h = elim (Bool-cases (bytes == m.data_size)) [
    | inl all ↦ rw all (record { task_same = refl; shows = Shows-restore p n state w h })
    | inr more ↦ rw more (send_data-Agrees bytes n state w e h)
  ]

  -- The sender goes on with channel_send from any point, over a channel that shows a queue of bytes
  -- and who sleeps. The call stops, or returns, as the specification says of that point.
  pub send_resume-Agrees :
      (point : SendPoint) (n : Net) (w : World R)
      → SendsOn side point
      → R.getpid w.kern ≡ sender
      → Shows p n w
      → Agrees p (Transfer.send_resume side buffered m point n) (send_resume m point w)
  unfolding send_resume Transfer.send_resume
  send_resume-Agrees SendPoint.synchronized n w s e h =
      send_synchronized-Agrees n _ _ (R.getpid-irq_disable w.kern ∙ e) (Shows-disable p n w h)
  send_resume-Agrees (SendPoint.header _) n w s e h =
      rw s (send_header-Agrees n _ _ (R.getpid-irq_disable w.kern ∙ e) (Shows-disable p n w h))
  send_resume-Agrees (SendPoint.chunk_sent _ bytes) n w s e h =
      rw s
        (after_chunk-Agrees bytes n _ _ (R.getpid-irq_disable w.kern ∙ e) (Shows-disable p n w h))
  send_resume-Agrees (SendPoint.data_wait _ bytes) n w s e h =
      rw s (send_data-Agrees bytes n _ _ (R.getpid-irq_disable w.kern ∙ e) (Shows-disable p n w h))

  -- The sender calls channel_send, or goes on with it from any point, over an open channel that shows a
  -- queue of bytes and who sleeps. The call does to these what the specification of a send does, and
  -- stops at the same point or returns the same number.
  pub send-Agrees :
      (point : SendPoint) (n : Net) (w : World R)
      → SendsOn side point
      → R.getpid w.kern ≡ sender
      → Shows p n w
      → Agrees p (Transfer.send_start side buffered m n) (channel_send m w)
        × Agrees p (Transfer.send_resume side buffered m point n) (send_resume m point w)
  send-Agrees point n w s e h = (channel_send-Agrees n w e h, send_resume-Agrees point n w s e h)

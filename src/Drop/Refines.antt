-- ===== src/Drop/Refines.antt =====
-- channel_drop of modules/csp/csp.c against channel_recv: what they take out of the file, and where they
-- stop.
use riot_csp_module.Common.{
  ℕ, ◌+◌, ◌-◌, ◌<◌, min, ◌≡◌, refl, ap, ◌∙◌, Bool, true, false, List, [], ◌∷◌, length, take, drop,
  ◌==◌, inl, inr, ◌⊎◌, Bool-cases, arith, ==-eq_true, ==-eq_false_pos, length-take, subst, not,
}
use riot_csp_module.Riot.{Riot}
use riot_csp_module.Channel.{World, channel_get_rb, channel_is_creator, size_bytes}
use riot_csp_module.Sched.{channel_synchronize, read_blocked, write_blocked}
use riot_csp_module.Sched.Effects.{
  SlotIs, synchronize_buffered, synchronize_first, synchronize_second,
}
use riot_csp_module.Send.{with_rb}
use riot_csp_module.Recv.{RecvPoint, Received, gives_up}
use riot_csp_module.Drop
use riot_csp_module.Drop.{
  DropPoint, is_set, drop_waits, chunk_gone, drop_data, drop_header, drop_synchronized,
  channel_drop, drop_resume,
}
use riot_csp_module.Transfer
use riot_csp_module.Transfer.{Net, Task, ready, at, finished, task_of}
use riot_csp_module.Transfer.Starts.{recv_start_buffered, recv_start_second, recv_start_first}
use riot_csp_module.Transfer.Shows.{
  Parties, Shows, Agrees, Shows-receiver_sleeps, Shows-sender_wakes, Shows-disable,
}
use riot_csp_module.Transfer.Shows.File.{
  Shows-drop, not_closed, buffered_same, peek_same, drop-count_same, receiver_is_other,
}

-- The point of a drop that stands where a receive stands: the bytes are counted and not kept.
unfoldable pub drop_point : RecvPoint → DropPoint
drop_point RecvPoint.synchronized = DropPoint.synchronized
drop_point (RecvPoint.header side) = DropPoint.header side
drop_point (RecvPoint.chunk_got side data_size out) =
    DropPoint.chunk_dropped side data_size (length out)
drop_point (RecvPoint.data_wait side data_size out) =
    DropPoint.data_wait side data_size (length out)

-- What a receive does, as what a drop does: the bytes that the receive would store are gone.
abbrev pub drop_task : Task RecvPoint Received → Task DropPoint ℕ
drop_task ready = ready
drop_task (at point) = at (drop_point point)
drop_task (finished (data_size, out)) = finished data_size

abbrev pub drops : Task RecvPoint Received × Net → Task DropPoint ℕ × Net
drops (task, n) = (drop_task task, n)

minus_zero : (n : ℕ) → n - 0 ≡ n
minus_zero n = omega arith

drop-nothing : (d : ℕ) (q : List ℕ) → length q ≡ 0 → drop d q ≡ q
drop-nothing ℕ.zero q h = refl
drop-nothing (ℕ.suc d) [] h = refl
drop-nothing (ℕ.suc d) (x ∷ q) h = absurd (omega arith)

module _ (side buffered : Bool) (data_size : ℕ) (n : Net) where
  recv_nothing :
      min data_size (length n.queue) ≡ 0
      → drops (Transfer.recv_data side buffered data_size [] n) ≡ (
        at (DropPoint.data_wait side data_size 0),
        record n { queue = drop data_size n.queue; receiver_asleep = true },
      )
  unfolding Transfer.recv_data drop_point
  recv_nothing h = elim (Bool-cases (length n.queue == 0)) [
    | inl empty ↦ rw (empty, drop-nothing data_size n.queue (ground arith)) refl
    | inr held ↦
        rw
          (
            held,
            minus_zero data_size,
            ==-eq_true (length (take data_size n.queue)) 0
                (omega (arith, ==-eq_true, ==-eq_false_pos, length-take data_size n.queue)),
          )
          refl
  ]

  recv_chunk :
      0 < min data_size (length n.queue)
      → drops (Transfer.recv_data side buffered data_size [] n) ≡ (
        at (DropPoint.chunk_dropped side data_size (min data_size (length n.queue))),
        record n { queue = drop data_size n.queue; sender_asleep = false },
      )
  unfolding Transfer.recv_data drop_point
  recv_chunk h = rw (
    minus_zero data_size,
    ==-eq_false_pos (length n.queue) (omega arith),
    ==-eq_false_pos (length (take data_size n.queue))
        (omega (arith, ==-eq_true, ==-eq_false_pos, length-take data_size n.queue)),
    length-take data_size n.queue,
  )

module _ {R : Riot} (p : Parties) where
  open p use {receiver, side, buffered}

  waits-Agrees :
      (data_size : ℕ) (n : Net) (state : ℕ) (w : World R)
      → n.receiver_asleep ≡ false
      → R.getpid w.kern ≡ receiver
      → Shows p n w
      → Agrees p
          (at (DropPoint.data_wait side data_size 0), record n { receiver_asleep = true })
          (drop_waits side data_size 0 state w)
  unfolding drop_waits
  waits-Agrees data_size n state w awake e h =
      rw (alone, h.stays.in_thread)
        (record { task_same = refl; shows = Shows-receiver_sleeps p n state w e h })
    where
      alone : is_set w.thread_write_blocked ≡ false
      alone = ap is_set (subst (λ b. SlotIs write_blocked receiver b w) awake h.receiver_is).0

  drop_data-Agrees :
      (data_size : ℕ) (n : Net) (state : ℕ) (w : World R)
      → n.receiver_asleep ≡ false
      → R.getpid w.kern ≡ receiver
      → Shows p n w
      → Agrees p
          (drops (Transfer.recv_data side buffered data_size [] n))
          (drop_data side data_size 0 state w)
  unfolding drop_data chunk_gone gives_up
  drop_data-Agrees data_size n state w awake e h =
      rw (not_closed p n w h, minus_zero data_size, drop-count_same p n data_size w h, none_before)
        (elim (Bool-cases (min data_size (length n.queue) == 0)) [
          | inl empty ↦
              let nothing : min data_size (length n.queue) ≡ 0 = ground arith in
              rw (nothing, recv_nothing side buffered data_size n nothing)
                (waits-Agrees data_size _ state _ awake e dropped)
          | inr chunk ↦
              rw (chunk, recv_chunk side buffered data_size n (ground arith))
                (record { task_same = refl; shows = Shows-sender_wakes p _ state _ dropped })
        ])
    where
      none_before : 0 + min data_size (length n.queue) ≡ min data_size (length n.queue)
      none_before = omega arith

      dropped :
          Shows p
            (record n { queue = drop data_size n.queue })
            (with_rb {R = R} side (R.rb_drop (channel_get_rb side w.chan) data_size).0 w)
      dropped = Shows-drop p n data_size w h

  drop_header-Agrees :
      (n : Net) (state : ℕ) (w : World R)
      → n.receiver_asleep ≡ false
      → R.getpid w.kern ≡ receiver
      → Shows p n w
      → Agrees p (drops (Transfer.recv_header side buffered n)) (drop_header side state w)
  unfolding drop_header Transfer.recv_header drop_point
  drop_header-Agrees n state w awake e h =
      rw (peek_same p n size_bytes w h, drop-count_same p n size_bytes w h)
        (elim (Bool-cases (length (take size_bytes n.queue) == size_bytes)) [
          | inr short ↦
              rw short (record { task_same = refl; shows = Shows-receiver_sleeps p n state w e h })
          | inl whole ↦
              rw whole (elim (Bool-cases (min size_bytes (length n.queue) == size_bytes)) [
                | inl gone ↦ rw gone (drop_data-Agrees _ _ state _ awake e dropped)
                | inr left ↦ rw left (record { task_same = refl; shows = dropped })
              ])
        ])
    where
      dropped :
          Shows p
            (record n { queue = drop size_bytes n.queue })
            (with_rb {R = R} side (R.rb_drop (channel_get_rb side w.chan) size_bytes).0 w)
      dropped = Shows-drop p n size_bytes w h

  meeting-Agrees :
      (asleep : Bool) (n : Net) (state : ℕ) (w : World R)
      → n.sender_asleep ≡ asleep
      → buffered ≡ false
      → R.getpid w.kern ≡ receiver
      → Shows p n w
      → SlotIs read_blocked p.sender asleep w
      → Agrees p
          (drops (Transfer.recv_start side buffered n))
          (Drop.after_synchronize state (channel_synchronize false state w))
  unfolding Drop.after_synchronize drop_point
  meeting-Agrees true n state w a u e h s =
      rw
        (
          recv_start_second side buffered n u a,
          synchronize_second false p.sender state w (buffered_same p n w h ∙ u) s.0,
        )
        (record { task_same = refl; shows = Shows-sender_wakes p n state w h })
  meeting-Agrees false n state w a u e h s =
      rw
        (
          recv_start_first side buffered n u a,
          synchronize_first false state w (buffered_same p n w h ∙ u) s.0,
        )
        (record { task_same = refl; shows = Shows-receiver_sleeps p n state w e h })

  buffered-Agrees :
      (n : Net) (state : ℕ) (w : World R)
      → n.receiver_asleep ≡ false
      → buffered ≡ true
      → R.getpid w.kern ≡ receiver
      → Shows p n w
      → Agrees p
          (drops (Transfer.recv_start side buffered n))
          (Drop.after_synchronize state (channel_synchronize (not (channel_is_creator w)) state w))
  unfolding Drop.after_synchronize drop_synchronized
  buffered-Agrees n state w awake b e h =
      rw
        (
          recv_start_buffered side buffered n b,
          synchronize_buffered (not (channel_is_creator w)) state w (buffered_same p n w h ∙ b),
          receiver_is_other p n w e h,
        )
        (drop_header-Agrees n state w awake e h)

  start-Agrees :
      (n : Net) (state : ℕ) (w : World R)
      → n.receiver_asleep ≡ false
      → (buffered ≡ true) ⊎ (side ≡ false)
      → R.getpid w.kern ≡ receiver
      → Shows p n w
      → Agrees p
          (drops (Transfer.recv_start side buffered n))
          (Drop.after_synchronize state (channel_synchronize (not (channel_is_creator w)) state w))
  start-Agrees n state w awake (inl b) e h = buffered-Agrees n state w awake b e h
  start-Agrees n state w awake (inr made) e h = elim (Bool-cases buffered) [
    | inl b ↦ buffered-Agrees n state w awake b e h
    | inr u ↦
        rw (receiver_is_other p n w e h ∙ made)
          (meeting-Agrees n.sender_asleep n state w refl u e h h.sender_is)
  ]

  -- The channel is open and shows a queue of bytes and who sleeps, the caller is not registered as
  -- asleep, and the channel is buffered or the caller made it. channel_drop does to the queue and the
  -- sleepers what channel_recv does, and stops where that stops, with the bytes counted and not stored.
  pub channel_drop-Agrees :
      (n : Net) (w : World R)
      → n.receiver_asleep ≡ false
      → (buffered ≡ true) ⊎ (side ≡ false)
      → R.getpid w.kern ≡ receiver
      → Shows p n w
      → Agrees p (drops (Transfer.recv_start side buffered n)) (channel_drop w)
  unfolding channel_drop
  channel_drop-Agrees n w awake made e h =
      rw (not_closed p n w h)
        (start-Agrees n _ _ awake made (R.getpid-irq_disable w.kern ∙ e) (Shows-disable p n w h))

-- ===== src/Drop/Whole.antt =====
-- channel_drop of modules/csp/csp.c beside channel_recv, and on a file of whole messages.
use riot_csp_module.Common.{
  ℕ, ◌<◌, ◌^◌, ◌≡◌, refl, sym, ap, ◌∙◌, true, false, List, ◌∷◌, length, inl, ◌⊎◌, ==_refl, subst,
}
use riot_csp_module.Riot.{Riot}
use riot_csp_module.Channel.{World, channel_get_rb}
use riot_csp_module.Recv.{channel_recv}
use riot_csp_module.Recv.Refines.{channel_recv-Agrees}
use riot_csp_module.Drop
use riot_csp_module.Drop.{DropPoint, channel_drop, drop_resume}
use riot_csp_module.Drop.Refines.{drop_point, drop_task, drops, channel_drop-Agrees}
use riot_csp_module.Transfer.{Net, at, finished, task_of}
use riot_csp_module.Transfer.Fifo.Whole.{wires, recv_start_whole}
use riot_csp_module.Transfer.Shows.{Parties, Shows, Agrees, Shows-restore, Shows-disable}

module _ {R : Riot} (p : Parties) where
  open p use {receiver, side, buffered}

  -- An open channel, a caller of it that is not registered as asleep, and the channel is buffered or the
  -- caller made it. channel_drop and channel_recv with a buffer, called there, stop at the same point or
  -- return the same number, with the same bytes left in the file.
  pub drop-as_recv :
      (n : Net) (w : World R)
      → n.receiver_asleep ≡ false
      → (buffered ≡ true) ⊎ (side ≡ false)
      → R.getpid w.kern ≡ receiver
      → Shows p n w
      → (task_of (channel_drop w).0 ≡ drop_task (task_of (channel_recv true w).0))
        × (R.contents (channel_get_rb side (channel_drop w).1.chan)
            ≡ R.contents (channel_get_rb side (channel_recv true w).1.chan))
  drop-as_recv n w awake made e h =
      let d = channel_drop-Agrees p n w awake made e h in
      let r = channel_recv-Agrees p n w e h in
      (d.task_same ∙ ap drop_task (sym r.task_same), d.shows.queue_same ∙ sym r.shows.queue_same)

  -- A buffered channel holds the message `bytes` and behind it the messages `ms`, whole. Then
  -- channel_drop takes `bytes` out in one go, leaves `ms` and readies a sleeping sender; and when the
  -- thread runs again, in any later state `w'` of the channel, the call returns the size.
  channel_drop-dequeues :
      (bytes : List ℕ) (ms : List (List ℕ)) (n n' : Net) (w w' : World R)
      → buffered ≡ true
      → n.queue ≡ wires (bytes ∷ ms)
      → n.receiver_asleep ≡ false
      → 0 < length bytes
      → length bytes < 2 ^ 32
      → R.getpid w.kern ≡ receiver
      → Shows p n w
      → Shows p n' w'
      → Agrees p
          (
            at (DropPoint.chunk_dropped side (length bytes) (length bytes)),
            record n { queue = wires ms; sender_asleep = false },
          )
          (channel_drop w)
        × Agrees p
            (finished (length bytes), n')
            (drop_resume (DropPoint.chunk_dropped side (length bytes) (length bytes)) w')
  unfolding drop_point drop_resume Drop.after_chunk
  channel_drop-dequeues bytes ms n n' w w' b e awake pos small me h h' = (
    subst (λ t. Agrees p (drops t) (channel_drop w))
        (recv_start_whole side buffered bytes n ms b e pos small)
        (channel_drop-Agrees p n w awake (inl b) me h),
    rw (==_refl (length bytes))
        (record { task_same = refl; shows = Shows-restore p n' _ _ (Shows-disable p n' w' h') }),
  )

-- ===== src/Masks.antt =====
-- The interrupt mask in the steps of the calls of modules/csp/csp.c: irq_disable and irq_restore around
-- each pause and return.
pub mod Calls
use riot_csp_module.Common.{
  ℕ, ◌≡◌, ◌≤◌, min, refl, sym, ap, ◌∙◌, Bool, true, false, Option, none, some, not, inl, inr,
  Bool-cases, if_both, length, ==-eq_true, arith, length-take, ◌==◌, List, [],
}
use riot_csp_module.Riot.{Riot}
use riot_csp_module.Channel.{Channel, World, channel_is_buffered, channel_get_rb, size_bytes}
use riot_csp_module.Sched.{
  Slot, Pause, opens, sleeps, restore, get_slot, own_slot, other_slot, can_run, channel_sched_self,
  channel_sched_other, channel_synchronize, wake,
}
use riot_csp_module.Send
use riot_csp_module.Send.{
  Message, SendPoint, send_data, send_header, send_msg, send_synchronized, send_start, channel_send,
  channel_send_msg, send_resume, no_room, sent_chunk,
}
use riot_csp_module.Recv
use riot_csp_module.Recv.{
  RecvPoint, recv_data, recv_header, recv_msg, recv_synchronized, recv_start, channel_recv,
  channel_recv_msg, recv_resume, no_bytes, got_chunk,
}
use riot_csp_module.Drop
use riot_csp_module.Drop.{
  DropPoint, drop_data, drop_header, drop_synchronized, channel_drop, drop_resume, drop_waits,
  chunk_gone,
}
use riot_csp_module.Try.{
  channel_try_send, channel_try_recv, try_send_masked, try_add_size, try_recv_masked,
}

-- The bytes that rb_peek finds are there for rb_drop.
peeked-drop :
    (R : Riot) (b : R.Rb)
    → length (R.rb_peek b size_bytes) ≡ size_bytes
    → ((R.rb_drop b size_bytes).1 == size_bytes) ≡ true
peeked-drop R b h = ==-eq_true _ _ (
    omega (
      arith,
      R.drop-count b size_bytes,
      ap (λ (bs : List ℕ). length bs) (R.peek_lem b size_bytes),
      length-take size_bytes (R.contents b),
      h,
    ))

module _ {R : Riot} where
  -- The mask after a call that paused or returned.
  abbrev pub MaskIs : Bool → {A : Type 0} → A × World R → Type 0
  MaskIs m r = R.masked r.1.kern ≡ m

  -- `state` stands for a saved mask that puts back `m`.
  module _ (state : ℕ) (m : Bool)
      (owns : (k : R.State) → R.masked (R.irq_restore state k) ≡ m) where
    other-MaskIs : (slot : Slot) (w : World R) → MaskIs m (channel_sched_other slot state w)
    unfolding channel_sched_other wake
    other-MaskIs slot w = grind (arith, owns)

    pub send_data-MaskIs :
        (msg : Message) (side : Bool) (b : ℕ) (w : World R)
        → MaskIs m (send_data msg side b state w)
    unfolding send_data sent_chunk no_room channel_sched_self
    send_data-MaskIs msg side b w = grind (arith, owns, other-MaskIs)

    pub send_header-MaskIs :
        (msg : Message) (side : Bool) (w : World R) → MaskIs m (send_header msg side state w)
    unfolding send_header channel_sched_self
    send_header-MaskIs msg side w = grind (arith, owns, send_data-MaskIs)

    pub send_synchronized-MaskIs :
        (msg : Message) (w : World R) → MaskIs m (send_synchronized msg state w)
    unfolding send_synchronized send_msg
    send_synchronized-MaskIs msg w = grind (arith, owns, send_header-MaskIs)

    pub send_start-MaskIs : (msg : Message) (w : World R) → MaskIs m (send_start msg state w)
    unfolding send_start Send.after_synchronize channel_synchronize channel_sched_self
    send_start-MaskIs msg w = grind (arith, owns, other-MaskIs, send_synchronized-MaskIs)

    pub after_send_chunk-MaskIs :
        (msg : Message) (side : Bool) (b : ℕ) (w : World R)
        → MaskIs m (Send.after_chunk msg side b state w)
    unfolding Send.after_chunk
    after_send_chunk-MaskIs msg side b w = grind (arith, owns, send_data-MaskIs)

    pub recv_data-MaskIs :
        (side : Bool) (size : ℕ) (out : List ℕ) (w : World R)
        → MaskIs m (recv_data side size out state w)
    unfolding recv_data got_chunk no_bytes channel_sched_self
    recv_data-MaskIs side size out w = grind (arith, owns, other-MaskIs)

    pub recv_header-MaskIs : (side : Bool) (w : World R) → MaskIs m (recv_header side state w)
    unfolding recv_header channel_sched_self
    recv_header-MaskIs side w =
        grind (arith, owns, recv_data-MaskIs, peeked-drop R (channel_get_rb side w.chan))

    pub recv_synchronized-MaskIs :
        (buffer : Bool) (w : World R) → MaskIs m (recv_synchronized buffer state w)
    unfolding recv_synchronized recv_msg
    recv_synchronized-MaskIs buffer w = grind (arith, owns, recv_header-MaskIs)

    pub recv_start-MaskIs : (buffer : Bool) (w : World R) → MaskIs m (recv_start buffer state w)
    unfolding recv_start Recv.after_synchronize channel_synchronize channel_sched_self
    recv_start-MaskIs buffer w = grind (arith, owns, other-MaskIs, recv_synchronized-MaskIs)

    pub after_recv_chunk-MaskIs :
        (side : Bool) (size : ℕ) (out : List ℕ) (w : World R)
        → MaskIs m (Recv.after_chunk side size out state w)
    unfolding Recv.after_chunk
    after_recv_chunk-MaskIs side size out w = grind (arith, owns, recv_data-MaskIs)

    drop_waits-MaskIs :
        (side : Bool) (size b : ℕ) (w : World R) → MaskIs m (drop_waits side size b state w)
    unfolding drop_waits channel_sched_self
    drop_waits-MaskIs side size b w = grind (arith, owns)

    pub drop_data-MaskIs :
        (side : Bool) (size b : ℕ) (w : World R) → MaskIs m (drop_data side size b state w)
    unfolding drop_data chunk_gone drop_waits channel_sched_self
    drop_data-MaskIs side size b w = grind (arith, owns, other-MaskIs)

    pub drop_header-MaskIs : (side : Bool) (w : World R) → MaskIs m (drop_header side state w)
    unfolding drop_header channel_sched_self
    drop_header-MaskIs side w =
        grind (arith, owns, drop_data-MaskIs, peeked-drop R (channel_get_rb side w.chan))

    pub drop_start-MaskIs :
        (sender : Bool) (w : World R)
        → MaskIs m (Drop.after_synchronize state (channel_synchronize sender state w))
    unfolding drop_synchronized Drop.after_synchronize channel_synchronize channel_sched_self
    drop_start-MaskIs sender w = grind (arith, owns, other-MaskIs, drop_header-MaskIs)

    pub after_drop_chunk-MaskIs :
        (side : Bool) (size b : ℕ) (w : World R) → MaskIs m (Drop.after_chunk side size b state w)
    unfolding Drop.after_chunk
    after_drop_chunk-MaskIs side size b w = grind (arith, owns, drop_waits-MaskIs)

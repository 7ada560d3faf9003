-- ===== src/Frame.antt =====
-- What the calls of modules/csp/csp.c leave alone in a channel, on every branch: its flags, its creator, the
-- sizes of its files, and the file of the other direction.
pub mod Calls
use riot_csp_module.Common.{
  ℕ, ◌≡◌, ◌+◌, ◌-◌, min, refl, sym, ap, ◌∙◌, Bool, true, false, Option, none, some, not, inl, inr,
  Bool-cases, if_both, length, arith, ◌==◌, List, [],
}
use riot_csp_module.Riot.{Riot}
use riot_csp_module.Channel.{Channel, World, channel_get_rb, channel_is_creator, size_bytes}
use riot_csp_module.Sched.{
  Slot, read_blocked, write_blocked, restore, disable, channel_sched_self, channel_sched_other,
  channel_synchronize, wake,
}
use riot_csp_module.Send
use riot_csp_module.Send.{
  Message, SendPoint, with_rb, send_data, send_header, send_msg, send_synchronized, send_start,
  channel_send, channel_send_msg, send_resume, no_room, sent_chunk,
}
use riot_csp_module.Recv
use riot_csp_module.Recv.{
  recv_data, recv_header, recv_msg, recv_synchronized, recv_start, gives_up, no_bytes, got_chunk,
}
use riot_csp_module.Drop
use riot_csp_module.Drop.{drop_data, drop_header, drop_synchronized, drop_waits, chunk_gone}

module _ {R : Riot} where
  -- what a call that works on the file `side` leaves alone
  abbrev pub frame : Bool → World R → ℕ × ℕ × ℕ × R.Rb
  frame side w = (
    w.flags,
    w.creator,
    R.capacity (channel_get_rb side w.chan),
    channel_get_rb (not side) w.chan,
  )

  pub frame-with_rb :
      (side : Bool) (b : R.Rb) (w : World R)
      → R.capacity b ≡ R.capacity (channel_get_rb side w.chan)
      → frame side (with_rb {R = R} side b w) ≡ frame side w
  frame-with_rb false b w e = ap (λ (n : ℕ). (w.flags, w.creator, n, w.file_1)) e
  frame-with_rb true b w e = ap (λ (n : ℕ). (w.flags, w.creator, n, w.file_0)) e

  frame-sched_self :
      (side : Bool) (slot : Slot) (state : ℕ) (w : World R)
      → frame side (channel_sched_self slot state w) ≡ frame side w
  unfolding channel_sched_self
  frame-sched_self false read_blocked state w = refl
  frame-sched_self false write_blocked state w = refl
  frame-sched_self true read_blocked state w = refl
  frame-sched_self true write_blocked state w = refl

  frame-wake :
      (side : Bool) (slot : Slot) (t state : ℕ) (w : World R)
      → frame side (wake slot t state w).1 ≡ frame side w
  unfolding wake
  frame-wake false read_blocked t state w = grind arith
  frame-wake false write_blocked t state w = grind arith
  frame-wake true read_blocked t state w = grind arith
  frame-wake true write_blocked t state w = grind arith

  frame-sched_other :
      (side : Bool) (slot : Slot) (state : ℕ) (w : World R)
      → frame side (channel_sched_other slot state w).1 ≡ frame side w
  unfolding channel_sched_other
  frame-sched_other side slot state w = grind (arith, frame-wake)

  module _ (state : ℕ) where
    pub send_data-frame :
        (msg : Message) (side : Bool) (b : ℕ) (w : World R)
        → frame side (send_data msg side b state w).1 ≡ frame side w
    unfolding send_data sent_chunk no_room
    send_data-frame msg side b w =
        grind (arith, frame-with_rb, frame-sched_self, frame-sched_other, R.add-capacity)

    pub send_header-frame :
        (msg : Message) (side : Bool) (w : World R)
        → frame side (send_header msg side state w).1 ≡ frame side w
    unfolding send_header
    send_header-frame msg side w =
        grind
          (arith, frame-with_rb, frame-sched_self, send_data-frame, R.add-capacity, R.drop-capacity)

    pub send_synchronized-frame :
        (msg : Message) (w : World R)
        → frame (channel_is_creator w) (send_synchronized msg state w).1
          ≡ frame (channel_is_creator w) w
    unfolding send_synchronized send_msg
    send_synchronized-frame msg w = grind (arith, send_header-frame)

    pub after_send_chunk-frame :
        (msg : Message) (side : Bool) (b : ℕ) (w : World R)
        → frame side (Send.after_chunk msg side b state w).1 ≡ frame side w
    unfolding Send.after_chunk
    after_send_chunk-frame msg side b w = grind (arith, send_data-frame)

    pub send_start-frame :
        (msg : Message) (w : World R)
        → frame (channel_is_creator w) (send_start msg state w).1 ≡ frame (channel_is_creator w) w
    unfolding send_start Send.after_synchronize channel_synchronize
    send_start-frame msg w =
        grind (arith, send_synchronized-frame, frame-sched_self, frame-sched_other)

    pub recv_data-frame :
        (side : Bool) (size : ℕ) (out : List ℕ) (w : World R)
        → frame side (recv_data side size out state w).1 ≡ frame side w
    unfolding recv_data got_chunk no_bytes
    recv_data-frame side size out w =
        grind (arith, frame-with_rb, frame-sched_self, frame-sched_other, R.get-capacity)

    pub recv_header-frame :
        (side : Bool) (w : World R) → frame side (recv_header side state w).1 ≡ frame side w
    unfolding recv_header
    recv_header-frame side w =
        grind (arith, frame-with_rb, frame-sched_self, recv_data-frame, R.drop-capacity)

    pub recv_synchronized-frame :
        (buffer : Bool) (w : World R)
        → frame (not (channel_is_creator w)) (recv_synchronized buffer state w).1
          ≡ frame (not (channel_is_creator w)) w
    unfolding recv_synchronized recv_msg
    recv_synchronized-frame buffer w = grind (arith, recv_header-frame)

    pub after_recv_chunk-frame :
        (side : Bool) (size : ℕ) (out : List ℕ) (w : World R)
        → frame side (Recv.after_chunk side size out state w).1 ≡ frame side w
    unfolding Recv.after_chunk
    after_recv_chunk-frame side size out w = grind (arith, recv_data-frame)

    pub recv_start-frame :
        (buffer : Bool) (w : World R)
        → frame (not (channel_is_creator w)) (recv_start buffer state w).1
          ≡ frame (not (channel_is_creator w)) w
    unfolding recv_start Recv.after_synchronize channel_synchronize
    recv_start-frame buffer w =
        grind (arith, recv_synchronized-frame, frame-sched_self, frame-sched_other)

    drop_waits-frame :
        (side : Bool) (size b : ℕ) (w : World R)
        → frame side (drop_waits side size b state w).1 ≡ frame side w
    unfolding drop_waits
    drop_waits-frame side size b w = grind (arith, frame-sched_self)

    pub drop_data-frame :
        (side : Bool) (size b : ℕ) (w : World R)
        → frame side (drop_data side size b state w).1 ≡ frame side w
    unfolding drop_data chunk_gone
    drop_data-frame side size b w = elim (Bool-cases (gives_up side size w)) [
      | inl up ↦ rw up refl
      | inr on ↦ rw on (elim (Bool-cases (b + gone == 0)) [
        | inl nothing ↦ rw nothing (drop_waits-frame side size (b + gone) left ∙ dropped)
        | inr some_bytes ↦ rw some_bytes (frame-sched_other side read_blocked state left ∙ dropped)
      ])
    ]
      where
        gone : ℕ
        gone = (R.rb_drop (channel_get_rb side w.chan) (size - b)).1

        left : World R
        left = with_rb {R = R} side (R.rb_drop (channel_get_rb side w.chan) (size - b)).0 w

        dropped : frame side left ≡ frame side w
        dropped = frame-with_rb side _ w (R.drop-capacity _ _)

    pub drop_header-frame :
        (side : Bool) (w : World R) → frame side (drop_header side state w).1 ≡ frame side w
    unfolding drop_header
    drop_header-frame side w =
        grind (arith, frame-with_rb, frame-sched_self, drop_data-frame, R.drop-capacity)

    pub after_drop_chunk-frame :
        (side : Bool) (size b : ℕ) (w : World R)
        → frame side (Drop.after_chunk side size b state w).1 ≡ frame side w
    unfolding Drop.after_chunk
    after_drop_chunk-frame side size b w = grind (arith, drop_waits-frame)

    pub drop_start-frame :
        (sender : Bool) (w : World R)
        → frame
            (not (channel_is_creator w))
            (Drop.after_synchronize state (channel_synchronize sender state w)).1
          ≡ frame (not (channel_is_creator w)) w
    unfolding drop_synchronized Drop.after_synchronize channel_synchronize
    drop_start-frame sender w =
        grind (arith, drop_header-frame, frame-sched_self, frame-sched_other)

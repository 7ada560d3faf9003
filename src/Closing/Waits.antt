-- ===== src/Closing/Waits.antt =====
-- Calls of modules/csp/csp.c that are at a pause when the channel is closed.
use riot_csp_module.Common.{
  ℕ, ◌≡◌, ◌<◌, refl, Bool, true, false, length, take, arith, ==-eq_false, length-take, Bool-cases,
  inl, inr,
}
use riot_csp_module.Riot.{Riot}
use riot_csp_module.Channel.{World, channel_get_rb, channel_is_closed, size_bytes}
use riot_csp_module.Sched.{
  Outcome, done, paused, sleeps, write_blocked, disable, channel_sched_self,
}
use riot_csp_module.Send
use riot_csp_module.Send.{
  Message, SendPoint, with_rb, send_data, send_header, send_msg, send_synchronized, send_resume,
  channel_send,
}
use riot_csp_module.Recv.{RecvPoint, recv_header, recv_resume}
use riot_csp_module.Try.{channel_try_send}
use riot_csp_module.Transfer.System.{on}

-- The call has returned.
abbrev pub is_done : {L A : Type 0} → Outcome L A → Bool
is_done (done a) = true
is_done (paused p l) = false

module _ {R : Riot} where
  closed-with_rb :
      (side : Bool) (b : R.Rb) (w : World R)
      → channel_is_closed (with_rb {R = R} side b w).chan ≡ channel_is_closed w.chan
  unfolding channel_is_closed
  closed-with_rb false b w = refl
  closed-with_rb true b w = refl

  data_ends :
      (m : Message) (side : Bool) (bytes state : ℕ) (w : World R)
      → channel_is_closed w.chan ≡ true
      → is_done (send_data m side bytes state w).0 ≡ true
  unfolding send_data
  data_ends m side bytes state w c = rw c refl

  header_ends :
      (m : Message) (side : Bool) (state : ℕ) (w : World R)
      → channel_is_closed w.chan ≡ true
      → is_done (send_header m side state w).0 ≡ true
  unfolding send_header
  header_ends m side state w c = grind (arith, data_ends, closed-with_rb, c)

  -- A send that is past its start, at any point, returns when it goes on over a channel that was closed
  -- meanwhile: it does not pause again.
  pub closed-send_ends :
      (m : Message) (point : SendPoint) (w : World R)
      → channel_is_closed w.chan ≡ true
      → is_done (send_resume m point w).0 ≡ true
  unfolding send_resume send_synchronized send_msg Send.after_chunk
  closed-send_ends m SendPoint.synchronized w c = grind (arith, header_ends, c)
  closed-send_ends m (SendPoint.header s) w c = header_ends m s _ _ c
  closed-send_ends m (SendPoint.chunk_sent s bytes) w c = grind (arith, data_ends, c)
  closed-send_ends m (SendPoint.data_wait s bytes) w c = data_ends m s bytes _ _ c

  -- no message can be read
  abbrev Few : Bool → World R → Type 0
  Few side w = length (R.contents (channel_get_rb side w.chan)) < size_bytes

  sleeps_on :
      (buffer side : Bool) (w : World R)
      → Few side w
      → recv_resume buffer (RecvPoint.header side) w ≡ (
        paused sleeps (RecvPoint.header side),
        channel_sched_self write_blocked (disable w).0 (disable w).1,
      )
  unfolding recv_resume recv_header
  sleeps_on buffer side w few = rw (
    R.peek_lem,
    ==-eq_false (length (take size_bytes (R.contents (channel_get_rb side w.chan)))) size_bytes
        (omega (arith, length-take size_bytes (R.contents (channel_get_rb side w.chan)))),
  )

  -- What may happen to a closed channel while a receiver waits for a message: the receiver goes on, or any
  -- thread calls channel_send or channel_try_send, in any state of the kernel. A send that was called before the
  -- channel was closed does not go on: one that waits at its synchronisation still puts its size into
  -- the file. Nor does anybody call channel_send_msg, which does not look at the flag.
  pub data Later (side : Bool) (w : World R) : World R → Type 0 where
    here : Later side w w
    goes_on :
        {v : World R} (buffer : Bool) (k : R.State)
        → Later side w v
        → Later side w (recv_resume buffer (RecvPoint.header side) (on k v)).1
    sends :
        {v : World R} (m : Message) (k : R.State)
        → Later side w v
        → Later side w (channel_send m (on k v)).1
    tries :
        {v : World R} (m : Message) (k : R.State)
        → Later side w v
        → Later side w (channel_try_send m (on k v)).1

  Few-sched_self :
      (side : Bool) (state : ℕ) (w : World R)
      → Few side w
      → Few side (channel_sched_self write_blocked state w)
  unfolding channel_sched_self
  Few-sched_self false state w h = h
  Few-sched_self true state w h = h

  closed-sched_self :
      (state : ℕ) (w : World R)
      → channel_is_closed w.chan ≡ true
      → channel_is_closed (channel_sched_self write_blocked state w).chan ≡ true
  unfolding channel_sched_self channel_is_closed
  closed-sched_self state w h = h

  try_refused :
      (m : Message) (w : World R) → channel_is_closed w.chan ≡ true → (channel_try_send m w).1 ≡ w
  unfolding channel_try_send
  try_refused m w c = elim (Bool-cases (Send.no_data m)) [
    | inl nothing ↦ rw nothing refl
    | inr data_there ↦ rw (data_there, c) refl
  ]

  stays :
      {side : Bool} {w v : World R}
      → channel_is_closed w.chan ≡ true
      → Few side w
      → Later side w v
      → (channel_is_closed v.chan ≡ true) × Few side v
  unfolding channel_send
  stays c few here = (c, few)
  stays {side} c few (goes_on {v} buffer k l) =
      let h = stays c few l in
      rw (sleeps_on buffer side (on k v) h.1) (
        closed-sched_self _ (disable (on k v)).1 h.0,
        Few-sched_self side _ (disable (on k v)).1 h.1,
      )
  stays c few (sends m k l) = let h = stays c few l in rw h.0 h
  stays c few (tries {v} m k l) = let h = stays c few l in rw (try_refused m (on k v) h.0) h

  -- A receiver waits for a size on a closed channel, with fewer bytes in its file than a size has. As long as
  -- nothing happens after that but that it goes on, and that threads call channel_send or
  -- channel_try_send, it sleeps again each time that it goes on.
  pub closed-recv_sleeps :
      (buffer side : Bool) (w v : World R)
      → channel_is_closed w.chan ≡ true
      → length (R.contents (channel_get_rb side w.chan)) < size_bytes
      → Later side w v
      → (recv_resume buffer (RecvPoint.header side) v).0 ≡ paused sleeps (RecvPoint.header side)
  closed-recv_sleeps buffer side w v c few l = rw (sleeps_on buffer side v (stays c few l).1) refl

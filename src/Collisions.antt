-- ===== src/Collisions.antt =====
-- Calls of modules/csp/csp.c that come one after the other on the same side of an unbuffered channel:
-- the channel has one slot for a sender and one for a receiver (channel_sched_self).
pub mod Met
use riot_csp_module.Common.{
  ℕ, ◌≡◌, ◌≢◌, refl, sym, ap, subst, ◌∙◌, Bool, true, false, not, some, none, Option,
}
use riot_csp_module.Riot.{Riot, sleeping}
use riot_csp_module.Channel.{
  World, channel_is_creator, channel_is_closed, channel_is_buffered, has_flag, channel_closed,
  channel_buffered,
}
use riot_csp_module.Sched.{
  Pause, paused, get_slot, own_slot, other_slot, channel_sched_self, channel_sched_other,
  channel_synchronize, disable,
}
use riot_csp_module.Sched.Effects.{
  across, Untouched, SlotIs, synchronize_first, synchronize_second, SlotIs-sched_self,
  SlotIs-sched_other, Untouched-sched_self, Untouched-sched_other, Rest-sched_self,
}
use riot_csp_module.Send
use riot_csp_module.Send.{Message, SendPoint, channel_send, send_start}
use riot_csp_module.Recv
use riot_csp_module.Recv.{RecvPoint, channel_recv, recv_start}
use riot_csp_module.Drop
use riot_csp_module.Drop.{DropPoint, channel_drop}
use riot_csp_module.Transfer.System.{on}

-- The calls that synchronise, channel_recv with a buffer or without.
pub data Call : Type 0 where
  sends : Message → Call
  receives : Bool → Call
  drops : Call

-- The argument `sender` of channel_synchronize, in a call by the thread that made the channel or another.
abbrev pub as_sender : Call → Bool → Bool
as_sender (sends m) made = true
as_sender (receives buffer) made = false
as_sender drops made = not made

pub other-across : (sender : Bool) → other_slot sender ≡ across (own_slot sender)
other-across true = refl
other-across false = refl

other-not : (sender : Bool) → other_slot (not sender) ≡ own_slot sender
other-not true = refl
other-not false = refl

module _ {R : Riot} where
  -- what the call has done at its first pause, or at its end
  abbrev pub begin : Call → World R → World R
  begin (sends m) w = (channel_send m w).1
  begin (receives buffer) w = (channel_recv buffer w).1
  begin drops w = (channel_drop w).1

  abbrev pub sender_of : Call → World R → Bool
  sender_of c w = as_sender c (channel_is_creator w)

  module _ (w w' : World R) (p : Pause) (still_open : channel_is_closed w.chan ≡ false) where
    send_paused :
        (m : Message)
        → channel_synchronize true (disable w).0 (disable w).1 ≡ (some p, w')
        → channel_send m w ≡ (paused p SendPoint.synchronized, w')
    unfolding channel_send send_start Send.after_synchronize
    send_paused m e = rw (still_open, e)

    recv_paused :
        (buffer : Bool)
        → channel_synchronize false (disable w).0 (disable w).1 ≡ (some p, w')
        → channel_recv buffer w ≡ (paused p RecvPoint.synchronized, w')
    unfolding channel_recv recv_start Recv.after_synchronize
    recv_paused buffer e = rw (still_open, e)

    drop_paused :
        channel_synchronize (not (channel_is_creator w)) (disable w).0 (disable w).1 ≡ (some p, w')
        → channel_drop w ≡ (paused p DropPoint.synchronized, w')
    unfolding channel_drop Drop.after_synchronize channel_is_creator
    drop_paused e = rw (still_open, R.getpid-irq_disable w.kern, e)

  -- a call that pauses at its synchronisation leaves what this leaves
  begin_paused :
      (c : Call) (w w' : World R) (p : Pause)
      → channel_is_closed w.chan ≡ false
      → channel_synchronize (sender_of c w) (disable w).0 (disable w).1 ≡ (some p, w')
      → begin c w ≡ w'
  begin_paused (sends m) w w' p c e = ap (λ r. r.1) (send_paused w w' p c m e)
  begin_paused (receives buffer) w w' p c e = ap (λ r. r.1) (recv_paused w w' p c buffer e)
  begin_paused drops w w' p c e = ap (λ r. r.1) (drop_paused w w' p c e)

  -- Two threads sleep, and only the second is registered, on the side of `sender`.
  pub record Stuck (sender : Bool) (first second : ℕ) (w : World R) : Type 0 where
    pub first_sleeps : R.status w.kern first ≡ sleeping
    pub second_is : SlotIs (own_slot sender) second true w
    pub nobody_across : get_slot (other_slot sender) w.chan ≡ none

  -- A thread sleeps in no slot.
  pub record Lost (first : ℕ) (w : World R) : Type 0 where
    pub still_sleeps : R.status w.kern first ≡ sleeping
    pub no_sender : get_slot (own_slot true) w.chan ≡ none
    pub no_receiver : get_slot (own_slot false) w.chan ≡ none

  pub sides :
      (sender : Bool) (w : World R)
      → get_slot (own_slot sender) w.chan ≡ none
      → get_slot (other_slot sender) w.chan ≡ none
      → (get_slot (own_slot true) w.chan ≡ none) × (get_slot (own_slot false) w.chan ≡ none)
  sides true w own other = (own, other)
  sides false w own other = (other, own)

  -- the synchronisation, when nobody waits for it and when somebody does
  begin_first :
      (c : Call) (sender : Bool) (w : World R)
      → sender_of c w ≡ sender
      → channel_is_closed w.chan ≡ false
      → channel_is_buffered w.chan ≡ false
      → get_slot (other_slot sender) w.chan ≡ none
      → begin c w ≡ channel_sched_self (own_slot sender) (disable w).0 (disable w).1
  begin_first c sender w e still_open unbuffered nobody =
      begin_paused c w _ Pause.sleeps still_open (
        ap (λ b. channel_synchronize b (disable w).0 (disable w).1) e
        ∙ synchronize_first sender (disable w).0 (disable w).1 unbuffered nobody)

  pub begin_second :
      (c : Call) (sender : Bool) (t : ℕ) (w : World R)
      → sender_of c w ≡ not sender
      → channel_is_closed w.chan ≡ false
      → channel_is_buffered w.chan ≡ false
      → get_slot (own_slot sender) w.chan ≡ some t
      → begin c w ≡ (channel_sched_other (own_slot sender) (disable w).0 (disable w).1).1
  begin_second c sender t w e still_open unbuffered registered =
      begin_paused c w _ _ still_open (
        ap (λ b. channel_synchronize b (disable w).0 (disable w).1) e
        ∙ synchronize_second (not sender) t (disable w).0 (disable w).1 unbuffered
            (ap (λ slot. get_slot slot w.chan) (other-not sender) ∙ registered))
      ∙ ap (λ slot. (channel_sched_other slot (disable w).0 (disable w).1).1) (other-not sender)

  -- the flags after a thread has gone to sleep at its synchronisation
  module _ (c : Call) (sender : Bool) (w : World R) (side : sender_of c w ≡ sender)
      (still_open : channel_is_closed w.chan ≡ false)
      (unbuffered : channel_is_buffered w.chan ≡ false)
      (nobody : get_slot (other_slot sender) w.chan ≡ none) where
    begin-flags : (begin c w).flags ≡ w.flags
    begin-flags =
        ap (λ (x : World R). x.flags) (begin_first c sender w side still_open unbuffered nobody)
        ∙ (Rest-sched_self (own_slot sender) (disable w).0 (disable w).1).flags

    pub begin-open : channel_is_closed (begin c w).chan ≡ false
    unfolding channel_is_closed
    begin-open = ap (has_flag channel_closed) begin-flags ∙ still_open

    pub begin-unbuffered : channel_is_buffered (begin c w).chan ≡ false
    unfolding channel_is_buffered
    begin-unbuffered = ap (has_flag channel_buffered) begin-flags ∙ unbuffered

    pub begin-SlotIs : SlotIs (own_slot sender) (R.getpid w.kern) true (begin c w)
    begin-SlotIs =
        subst (SlotIs (own_slot sender) (R.getpid w.kern) true)
          (sym (begin_first c sender w side still_open unbuffered nobody))
          (SlotIs-sched_self (own_slot sender) (R.getpid w.kern) (disable w).0 (disable w).1
            (R.getpid-irq_disable w.kern))

    module _ (u : ℕ) (apart : R.getpid w.kern ≢ u) where
      begin-Untouched : Untouched (across (own_slot sender)) u w (begin c w)
      begin-Untouched =
          subst (Untouched (across (own_slot sender)) u w)
            (sym (begin_first c sender w side still_open unbuffered nobody))
            (record {
              slot_same = caller_sleeps.slot_same;
              status_same = caller_sleeps.status_same ∙ R.status-irq_disable w.kern u;
            })
        where
          caller_sleeps :
              Untouched
                (across (own_slot sender))
                u
                (disable w).1
                (channel_sched_self (own_slot sender) (disable w).0 (disable w).1)
          caller_sleeps =
              Untouched-sched_self (own_slot sender) (R.getpid w.kern) u (disable w).0 (disable w).1
                (R.getpid-irq_disable w.kern) apart

      pub begin-status : R.status (begin c w).kern u ≡ R.status w.kern u
      begin-status = begin-Untouched.status_same

      pub begin-nobody : get_slot (other_slot sender) (begin c w).chan ≡ none
      begin-nobody =
          ap (λ slot. get_slot slot (begin c w).chan) (other-across sender)
          ∙ begin-Untouched.slot_same
          ∙ ap (λ slot. get_slot slot w.chan) (sym (other-across sender))
          ∙ nobody

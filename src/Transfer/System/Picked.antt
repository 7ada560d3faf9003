-- ===== src/Transfer/System/Picked.antt =====
-- A thread that the kernel picked, over a world that shows a queue and who sleeps.
use riot_csp_module.Common.{ℕ, ◌≡◌, ◌≢◌, refl, sym, ◌∙◌, Bool, true, false}
use riot_csp_module.Riot.{Riot, sleeping}
use riot_csp_module.Channel.{World}
use riot_csp_module.Sched.{Slot, read_blocked, write_blocked}
use riot_csp_module.Sched.Effects.{SlotIs}
use riot_csp_module.Transfer.{Net}
use riot_csp_module.Transfer.Shows.{Parties, Shows}
use riot_csp_module.Transfer.System.{Picks, on}

-- A thread that was picked has an empty slot.
pub picked-awake :
    {R : Riot} (slot : Slot) (t : ℕ) (asleep : Bool) (w : World R)
    → R.status w.kern t ≢ sleeping
    → SlotIs slot t asleep w
    → asleep ≡ false
picked-awake slot t true w h s = absurd (h s.1)
picked-awake slot t false w h s = refl

on-SlotIs :
    {R : Riot} (slot : Slot) (u : ℕ) (asleep : Bool) (w : World R) (k : R.State)
    → R.status k u ≡ R.status w.kern u
    → SlotIs slot u asleep w
    → SlotIs slot u asleep (on k w)
on-SlotIs slot u true w k e h = (h.0, e ∙ h.1)
on-SlotIs slot u false w k e h = (h.0, λ q. h.1 (sym e ∙ q))

module _ {R : Riot} (p : Parties) where
  pub on-Shows :
      (t : ℕ) (n : Net) (w : World R) (k : R.State) → Picks t w k → Shows p n w → Shows p n (on k w)
  on-Shows t n w k c h = record {
    stays = record {
      size = h.stays.size;
      flags_same = h.stays.flags_same;
      creator_same = h.stays.creator_same;
      in_thread = c.in_thread;
    };
    queue_same = h.queue_same;
    sender_is = on-SlotIs read_blocked p.sender n.sender_asleep w k (c.states p.sender) h.sender_is;
    receiver_is =
        on-SlotIs write_blocked p.receiver n.receiver_asleep w k (c.states p.receiver)
          h.receiver_is;
  }

-- ===== src/Transfer/Shows.antt =====
-- When a world of the module stands for a queue with two threads, and how the scheduling steps
-- and the writes to the file move both together.
pub mod File
use riot_csp_module.Common.{
  ℕ, ◌≡◌, ◌≢◌, min, refl, sym, ap, ◌∙◌, Bool, true, false, List, ◌++◌, length, take, drop, not,
  ◌==◌,
}
use riot_csp_module.Riot.{Riot}
use riot_csp_module.Channel.{
  Channel, World, channel_get_rb, set_rb, has_flag, channel_closed, channel_buffered,
  channel_bufsize, channel_is_closed, channel_is_buffered, channel_is_creator,
}
use riot_csp_module.Sched.{
  Slot, Outcome, read_blocked, write_blocked, channel_sched_self, channel_sched_other, restore,
  disable,
}
use riot_csp_module.Sched.Effects.{
  SlotIs, Rest, Untouched, SlotIs-Untouched, Rest-sched_self, Rest-sched_other,
  Untouched-sched_self, Untouched-sched_other, Rest-restore, Untouched-restore, Rest-disable,
  Untouched-disable, SlotIs-sched_self, SlotIs-sched_other,
}
use riot_csp_module.Send.{with_rb}
use riot_csp_module.Transfer.{Net, room, Task, task_of}

-- The two threads of an open channel, one of which made it. `side` is the file that the sender
-- writes and the receiver reads.
pub record Parties : Type 0 where
  pub sender : ℕ
  pub receiver : ℕ
  pub creator : ℕ
  pub flags : ℕ
  pub side : Bool
  pub buffered : Bool
  pub apart : sender ≢ receiver
  pub send_side : (creator == sender) ≡ side
  pub recv_side : not (creator == receiver) ≡ side
  pub not_closed : has_flag channel_closed flags ≡ false
  pub is_buffered : has_flag channel_buffered flags ≡ buffered

module _ {R : Riot} (p : Parties) where
  -- what no step of the two threads changes
  pub record Stays (w : World R) : Type 0 where
    pub size : R.capacity (channel_get_rb p.side w.chan) ≡ channel_bufsize
    pub flags_same : w.flags ≡ p.flags
    pub creator_same : w.creator ≡ p.creator
    pub in_thread : R.irq_is_in w.kern ≡ false

  pub record Shows (n : Net) (w : World R) : Type 0 where
    pub stays : Stays w
    pub queue_same : R.contents (channel_get_rb p.side w.chan) ≡ n.queue
    pub sender_is : SlotIs read_blocked p.sender n.sender_asleep w
    pub receiver_is : SlotIs write_blocked p.receiver n.receiver_asleep w

  -- a call that stopped, with the world that it left, against the specification
  pub record Agrees {L A : Type 0} (s : Task L A × Net) (r : Outcome L A × World R) : Type 0 where
    pub task_same : task_of r.0 ≡ s.0
    pub shows : Shows s.1 r.1

get_rb-Rest :
    {R : Riot} (side : Bool) (w w' : World R)
    → Rest w w'
    → channel_get_rb side w'.chan ≡ channel_get_rb side w.chan
get_rb-Rest false w w' e = e.file_0
get_rb-Rest true w w' e = e.file_1

pub get_rb-set_rb :
    {R : Riot} (side : Bool) (b : R.Rb) (c : Channel R) → channel_get_rb side (set_rb side b c) ≡ b
get_rb-set_rb false b c = refl
get_rb-set_rb true b c = refl

pub fields-set_rb :
    {R : Riot} (side : Bool) (b : R.Rb) (c : Channel R)
    → ((set_rb {R = R} side b c).flags ≡ c.flags) × ((set_rb {R = R} side b c).creator ≡ c.creator)
fields-set_rb false b c = (refl, refl)
fields-set_rb true b c = (refl, refl)

Untouched-with_rb :
    {R : Riot} (slot : Slot) (side : Bool) (u : ℕ) (b : R.Rb) (w : World R)
    → Untouched slot u w (with_rb {R = R} side b w)
Untouched-with_rb read_blocked false u b w = record { slot_same = refl; status_same = refl }
Untouched-with_rb read_blocked true u b w = record { slot_same = refl; status_same = refl }
Untouched-with_rb write_blocked false u b w = record { slot_same = refl; status_same = refl }
Untouched-with_rb write_blocked true u b w = record { slot_same = refl; status_same = refl }

module _ {R : Riot} (p : Parties) where
  Stays-Rest : (w w' : World R) → Rest w w' → Stays p w → Stays p w'
  Stays-Rest w w' e h = record {
    size = ap R.capacity (get_rb-Rest p.side w w' e) ∙ h.size;
    flags_same = e.flags ∙ h.flags_same;
    creator_same = e.creator ∙ h.creator_same;
    in_thread = e.irq_is_in ∙ h.in_thread;
  }

  -- The sender goes to sleep.
  pub Shows-sender_sleeps :
      (n : Net) (state : ℕ) (w : World R)
      → R.getpid w.kern ≡ p.sender
      → Shows p n w
      → Shows p (record n { sender_asleep = true }) (channel_sched_self read_blocked state w)
  Shows-sender_sleeps n state w e h = record {
    stays = Stays-Rest w _ rest h.stays;
    queue_same = ap R.contents (get_rb-Rest p.side w _ rest) ∙ h.queue_same;
    sender_is = SlotIs-sched_self read_blocked p.sender state w e;
    receiver_is =
        SlotIs-Untouched write_blocked p.receiver n.receiver_asleep w _
          (Untouched-sched_self read_blocked p.sender p.receiver state w e p.apart) h.receiver_is;
  }
    where
      rest : Rest w (channel_sched_self read_blocked state w)
      rest = Rest-sched_self read_blocked state w

  pub Shows-receiver_sleeps :
      (n : Net) (state : ℕ) (w : World R)
      → R.getpid w.kern ≡ p.receiver
      → Shows p n w
      → Shows p (record n { receiver_asleep = true }) (channel_sched_self write_blocked state w)
  Shows-receiver_sleeps n state w e h = record {
    stays = Stays-Rest w _ rest h.stays;
    queue_same = ap R.contents (get_rb-Rest p.side w _ rest) ∙ h.queue_same;
    receiver_is = SlotIs-sched_self write_blocked p.receiver state w e;
    sender_is =
        SlotIs-Untouched read_blocked p.sender n.sender_asleep w _
          (Untouched-sched_self write_blocked p.receiver p.sender state w e (λ q. p.apart (sym q)))
          h.sender_is;
  }
    where
      rest : Rest w (channel_sched_self write_blocked state w)
      rest = Rest-sched_self write_blocked state w

  -- The sender wakes the receiver, if that sleeps.
  pub Shows-receiver_wakes :
      (n : Net) (state : ℕ) (w : World R)
      → Shows p n w
      → Shows p (record n { receiver_asleep = false }) (channel_sched_other write_blocked state w).1
  Shows-receiver_wakes n state w h = record {
    stays = Stays-Rest w _ rest h.stays;
    queue_same = ap R.contents (get_rb-Rest p.side w _ rest) ∙ h.queue_same;
    receiver_is =
        SlotIs-sched_other write_blocked p.receiver state n.receiver_asleep w h.receiver_is;
    sender_is =
        SlotIs-Untouched read_blocked p.sender n.sender_asleep w _
          (Untouched-sched_other write_blocked p.receiver p.sender state n.receiver_asleep w
            h.receiver_is (λ q. p.apart (sym q)))
          h.sender_is;
  }
    where
      rest : Rest w (channel_sched_other write_blocked state w).1
      rest = Rest-sched_other write_blocked p.receiver state n.receiver_asleep w h.receiver_is

  pub Shows-sender_wakes :
      (n : Net) (state : ℕ) (w : World R)
      → Shows p n w
      → Shows p (record n { sender_asleep = false }) (channel_sched_other read_blocked state w).1
  Shows-sender_wakes n state w h = record {
    stays = Stays-Rest w _ rest h.stays;
    queue_same = ap R.contents (get_rb-Rest p.side w _ rest) ∙ h.queue_same;
    sender_is = SlotIs-sched_other read_blocked p.sender state n.sender_asleep w h.sender_is;
    receiver_is =
        SlotIs-Untouched write_blocked p.receiver n.receiver_asleep w _
          (Untouched-sched_other read_blocked p.sender p.receiver state n.sender_asleep w
            h.sender_is p.apart)
          h.receiver_is;
  }
    where
      rest : Rest w (channel_sched_other read_blocked state w).1
      rest = Rest-sched_other read_blocked p.sender state n.sender_asleep w h.sender_is

  -- A step that touches neither slot nor the states of the two threads.
  Shows-same :
      (n : Net) (w w' : World R)
      → Rest w w'
      → Untouched read_blocked p.sender w w'
      → Untouched write_blocked p.receiver w w'
      → Shows p n w
      → Shows p n w'
  Shows-same n w w' rest s r h = record {
    stays = Stays-Rest w w' rest h.stays;
    queue_same = ap R.contents (get_rb-Rest p.side w w' rest) ∙ h.queue_same;
    sender_is = SlotIs-Untouched read_blocked p.sender n.sender_asleep w w' s h.sender_is;
    receiver_is = SlotIs-Untouched write_blocked p.receiver n.receiver_asleep w w' r h.receiver_is;
  }

  pub Shows-restore :
      (n : Net) (state : ℕ) (w : World R) → Shows p n w → Shows p n (restore state w)
  Shows-restore n state w =
      Shows-same n w (restore state w) (Rest-restore state w)
        (Untouched-restore read_blocked p.sender state w)
        (Untouched-restore write_blocked p.receiver state w)

  pub Shows-disable : (n : Net) (w : World R) → Shows p n w → Shows p n (disable w).1
  Shows-disable n w =
      Shows-same n w (disable w).1 (Rest-disable w) (Untouched-disable read_blocked p.sender w)
        (Untouched-disable write_blocked p.receiver w)

  -- The file is written.
  pub Shows-with_rb :
      (n : Net) (b : R.Rb) (q : List ℕ) (w : World R)
      → R.capacity b ≡ R.capacity (channel_get_rb p.side w.chan)
      → R.contents b ≡ q
      → Shows p n w
      → Shows p (record n { queue = q }) (with_rb {R = R} p.side b w)
  Shows-with_rb n b q w size held h = record {
    stays = record {
      size = ap R.capacity (get_rb-set_rb p.side b w.chan) ∙ size ∙ h.stays.size;
      flags_same = keeps.0 ∙ h.stays.flags_same;
      creator_same = keeps.1 ∙ h.stays.creator_same;
      in_thread = h.stays.in_thread;
    };
    queue_same = ap R.contents (get_rb-set_rb p.side b w.chan) ∙ held;
    sender_is =
        SlotIs-Untouched read_blocked p.sender n.sender_asleep w _
          (Untouched-with_rb read_blocked p.side p.sender b w) h.sender_is;
    receiver_is =
        SlotIs-Untouched write_blocked p.receiver n.receiver_asleep w _
          (Untouched-with_rb write_blocked p.side p.receiver b w) h.receiver_is;
  }
    where
      keeps :
          ((set_rb {R = R} p.side b w.chan).flags ≡ w.flags)
          × ((set_rb {R = R} p.side b w.chan).creator ≡ w.creator)
      keeps = fields-set_rb p.side b w.chan

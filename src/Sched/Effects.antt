-- ===== src/Sched/Effects.antt =====
-- What the scheduling steps of a channel operation do to the two slots, to the threads that wait
-- in them and to the rest of the world.
use riot_csp_module.Common.{ℕ, ◌≡◌, ◌≢◌, refl, sym, ◌∙◌, Bool, true, false, none, some}
use riot_csp_module.Riot.{Riot, sleeping, pending}
use riot_csp_module.Channel.{World, channel_is_buffered}
use riot_csp_module.Sched.{
  Slot, read_blocked, write_blocked, get_slot, set_slot, can_run, restore, disable,
  channel_sched_self, channel_sched_other, wake, Pause, other_slot, own_slot, channel_synchronize,
}

-- the slot that the other side waits in
abbrev pub across : Slot → Slot
across read_blocked = write_blocked
across write_blocked = read_blocked

module _ {R : Riot} where
  -- Thread `t` sleeps in the slot, or the slot is empty and `t` does not sleep.
  abbrev pub SlotIs : Slot → ℕ → Bool → World R → Type 0
  SlotIs slot t true w = (get_slot slot w.chan ≡ some t) × (R.status w.kern t ≡ sleeping)
  SlotIs slot t false w = (get_slot slot w.chan ≡ none) × (R.status w.kern t ≢ sleeping)

  -- What a step leaves alone, beside the slots and the states of the threads.
  pub record Rest (w w' : World R) : Type 0 where
    pub file_0 : w'.file_0 ≡ w.file_0
    pub file_1 : w'.file_1 ≡ w.file_1
    pub flags : w'.flags ≡ w.flags
    pub creator : w'.creator ≡ w.creator
    pub irq_is_in : R.irq_is_in w'.kern ≡ R.irq_is_in w.kern

  -- The slot and the state of a thread that a step does not touch.
  pub record Untouched (slot : Slot) (u : ℕ) (w w' : World R) : Type 0 where
    pub slot_same : get_slot slot w'.chan ≡ get_slot slot w.chan
    pub status_same : R.status w'.kern u ≡ R.status w.kern u

  pub SlotIs-Untouched :
      (slot : Slot) (u : ℕ) (asleep : Bool) (w w' : World R)
      → Untouched slot u w w'
      → SlotIs slot u asleep w
      → SlotIs slot u asleep w'
  SlotIs-Untouched slot u true w w' e h = (e.slot_same ∙ h.0, e.status_same ∙ h.1)
  SlotIs-Untouched slot u false w w' e h = (e.slot_same ∙ h.0, λ p. h.1 (sym e.status_same ∙ p))

  pub Rest-sched_self :
      (slot : Slot) (state : ℕ) (w : World R) → Rest w (channel_sched_self slot state w)
  unfolding channel_sched_self
  Rest-sched_self read_blocked state w = record {
    file_0 = refl;
    file_1 = refl;
    flags = refl;
    creator = refl;
    irq_is_in = R.irq_is_in-irq_restore _ _ ∙ R.irq_is_in-set_status _ _ _;
  }
  Rest-sched_self write_blocked state w = record {
    file_0 = refl;
    file_1 = refl;
    flags = refl;
    creator = refl;
    irq_is_in = R.irq_is_in-irq_restore _ _ ∙ R.irq_is_in-set_status _ _ _;
  }

  -- The caller is asleep in the slot.
  pub SlotIs-sched_self :
      (slot : Slot) (t state : ℕ) (w : World R)
      → R.getpid w.kern ≡ t
      → SlotIs slot t true (channel_sched_self slot state w)
  unfolding channel_sched_self
  SlotIs-sched_self read_blocked t state w e =
      rw e (refl, R.status-irq_restore _ _ _ ∙ R.status-set_status_self _ _ _)
  SlotIs-sched_self write_blocked t state w e =
      rw e (refl, R.status-irq_restore _ _ _ ∙ R.status-set_status_self _ _ _)

  pub Untouched-sched_self :
      (slot : Slot) (t u state : ℕ) (w : World R)
      → R.getpid w.kern ≡ t
      → t ≢ u
      → Untouched (across slot) u w (channel_sched_self slot state w)
  unfolding channel_sched_self
  Untouched-sched_self read_blocked t u state w e ne = rw e (record {
    slot_same = refl;
    status_same = R.status-irq_restore _ _ _ ∙ R.status-set_status_ne _ _ _ _ ne;
  })
  Untouched-sched_self write_blocked t u state w e ne = rw e (record {
    slot_same = refl;
    status_same = R.status-irq_restore _ _ _ ∙ R.status-set_status_ne _ _ _ _ ne;
  })

  -- the world when thread `t` was readied from the slot
  abbrev woken : Slot → ℕ → ℕ → World R → World R
  woken slot t state w = record {
    chan = set_slot slot none w.chan;
    kern = R.irq_restore state (R.set_status t pending w.kern);
  }

  wake-eq-woken :
      (slot : Slot) (t state : ℕ) (w : World R)
      → R.status w.kern t ≡ sleeping
      → (wake slot t state w).1 ≡ woken slot t state w
  unfolding wake can_run
  wake-eq-woken slot t state w h = rw (h, wake, can_run)

  -- A wake-up opens the interrupts and does nothing else, or readies the slot's thread.
  sched_other_cases {ℓ} :
      (P : World R → Type ℓ) (slot : Slot) (t state : ℕ) (asleep : Bool) (w : World R)
      → SlotIs slot t asleep w
      → (asleep ≡ false → P (restore state w))
      → (asleep ≡ true → P (woken slot t state w))
      → P (channel_sched_other slot state w).1
  unfolding channel_sched_other
  sched_other_cases P slot t state true w h idle ready =
      rw (h.0, channel_sched_other) (rw (wake-eq-woken slot t state w h.1) (ready refl))
  sched_other_cases P slot t state false w h idle ready = rw (h.0, channel_sched_other) (idle refl)

  pub Rest-restore : (state : ℕ) (w : World R) → Rest w (restore state w)
  Rest-restore state w = record {
    file_0 = refl;
    file_1 = refl;
    flags = refl;
    creator = refl;
    irq_is_in = R.irq_is_in-irq_restore _ _;
  }

  Rest-woken : (slot : Slot) (t state : ℕ) (w : World R) → Rest w (woken slot t state w)
  Rest-woken read_blocked t state w = record {
    file_0 = refl;
    file_1 = refl;
    flags = refl;
    creator = refl;
    irq_is_in = R.irq_is_in-irq_restore _ _ ∙ R.irq_is_in-set_status _ _ _;
  }
  Rest-woken write_blocked t state w = record {
    file_0 = refl;
    file_1 = refl;
    flags = refl;
    creator = refl;
    irq_is_in = R.irq_is_in-irq_restore _ _ ∙ R.irq_is_in-set_status _ _ _;
  }

  pub Rest-sched_other :
      (slot : Slot) (t state : ℕ) (asleep : Bool) (w : World R)
      → SlotIs slot t asleep w
      → Rest w (channel_sched_other slot state w).1
  Rest-sched_other slot t state asleep w h =
      sched_other_cases (Rest w) slot t state asleep w h (λ _. Rest-restore state w)
        (λ _. Rest-woken slot t state w)

  pub Untouched-restore :
      (slot : Slot) (u state : ℕ) (w : World R) → Untouched slot u w (restore state w)
  Untouched-restore slot u state w = record {
    slot_same = refl;
    status_same = R.status-irq_restore _ _ _;
  }

  Untouched-woken :
      (slot : Slot) (t u state : ℕ) (w : World R)
      → t ≢ u
      → Untouched (across slot) u w (woken slot t state w)
  Untouched-woken read_blocked t u state w ne = record {
    slot_same = refl;
    status_same = R.status-irq_restore _ _ _ ∙ R.status-set_status_ne _ _ _ _ ne;
  }
  Untouched-woken write_blocked t u state w ne = record {
    slot_same = refl;
    status_same = R.status-irq_restore _ _ _ ∙ R.status-set_status_ne _ _ _ _ ne;
  }

  pub Untouched-sched_other :
      (slot : Slot) (t u state : ℕ) (asleep : Bool) (w : World R)
      → SlotIs slot t asleep w
      → t ≢ u
      → Untouched (across slot) u w (channel_sched_other slot state w).1
  Untouched-sched_other slot t u state asleep w h ne =
      sched_other_cases (Untouched (across slot) u w) slot t state asleep w h
        (λ _. Untouched-restore (across slot) u state w) (λ _. Untouched-woken slot t u state w ne)

  woken-not-asleep :
      (slot : Slot) (t state : ℕ) (w : World R) → R.status (woken slot t state w).kern t ≢ sleeping
  woken-not-asleep slot t state w p = cc (
    R.status-irq_restore state (R.set_status t pending w.kern) t,
    R.status-set_status_self t pending w.kern,
  )

  SlotIs-woken :
      (slot : Slot) (t state : ℕ) (w : World R) → SlotIs slot t false (woken slot t state w)
  SlotIs-woken read_blocked t state w = (refl, woken-not-asleep read_blocked t state w)
  SlotIs-woken write_blocked t state w = (refl, woken-not-asleep write_blocked t state w)

  -- Whoever waited in the slot is ready, and the slot is empty.
  pub SlotIs-sched_other :
      (slot : Slot) (t state : ℕ) (asleep : Bool) (w : World R)
      → SlotIs slot t asleep w
      → SlotIs slot t false (channel_sched_other slot state w).1
  SlotIs-sched_other slot t state true w h =
      sched_other_cases (SlotIs slot t false) slot t state true w h (λ e. cc)
        (λ _. SlotIs-woken slot t state w)
  SlotIs-sched_other slot t state false w h =
      sched_other_cases (SlotIs slot t false) slot t state false w h
        (λ _.
          SlotIs-Untouched slot t false w (restore state w) (Untouched-restore slot t state w) h)
        (λ e. cc)

  -- Switching interrupts off.
  pub Rest-disable : (w : World R) → Rest w (disable w).1
  Rest-disable w = record {
    file_0 = refl;
    file_1 = refl;
    flags = refl;
    creator = refl;
    irq_is_in = R.irq_is_in-irq_disable _;
  }

  pub Untouched-disable : (slot : Slot) (u : ℕ) (w : World R) → Untouched slot u w (disable w).1
  Untouched-disable slot u w = record { slot_same = refl; status_same = R.status-irq_disable _ _ }

  -- channel_synchronize, case by case.
  pub synchronize_buffered :
      (sender : Bool) (state : ℕ) (w : World R)
      → channel_is_buffered w.chan ≡ true
      → channel_synchronize sender state w ≡ (none, w)
  unfolding channel_synchronize
  synchronize_buffered sender state w b = rw b

  pub synchronize_second :
      (sender : Bool) (t state : ℕ) (w : World R)
      → channel_is_buffered w.chan ≡ false
      → get_slot (other_slot sender) w.chan ≡ some t
      → channel_synchronize sender state w ≡ (
        some (channel_sched_other (other_slot sender) state w).0,
        (channel_sched_other (other_slot sender) state w).1,
      )
  unfolding channel_synchronize
  synchronize_second sender t state w b h = rw (b, h, channel_synchronize)

  pub synchronize_first :
      (sender : Bool) (state : ℕ) (w : World R)
      → channel_is_buffered w.chan ≡ false
      → get_slot (other_slot sender) w.chan ≡ none
      → channel_synchronize sender state w
        ≡ (some Pause.sleeps, channel_sched_self (own_slot sender) state w)
  unfolding channel_synchronize
  synchronize_first sender state w b h = rw (b, h, channel_synchronize)

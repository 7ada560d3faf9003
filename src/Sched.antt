-- ===== src/Sched.antt =====
-- modules/csp/csp.c: how a call gives up the processor inside a channel operation
-- (channel_sched_self, channel_sched_other, channel_synchronize). A call runs with interrupts off
-- up to such a point; the rest of it is a value, the program point at which it goes on.
pub mod Effects
use riot_csp_module.Common.{ℕ, Bool, true, false, Option, none, some, if◌then◌else◌, not}
use riot_csp_module.Riot.{Riot, Status, stopped, zombie, sleeping, pending, other}
use riot_csp_module.Channel.{Channel, World, channel_is_buffered}

-- What the calling thread does at a pause: it has marked itself asleep and yields
-- (thread_yield_higher), it has readied another thread and switches to that priority
-- (sched_switch), or it lets interrupts through and goes on.
pub data Pause : Type 0 where
  sleeps : Pause
  switches : ℕ → Pause
  opens : Pause

-- A call has returned, or stands at a point of type `L`.
pub data Outcome {ℓ} (L A : Type ℓ) : Type ℓ where
  done : A → Outcome L A
  paused : Pause → L → Outcome L A

-- `&c->thread_read_blocked` and `&c->thread_write_blocked`
pub data Slot : Type 0 where
  read_blocked write_blocked : Slot

-- STATUS_STOPPED and STATUS_ZOMBIE threads are not scheduled.
unfoldable pub can_run : Status → Bool
can_run stopped = false
can_run zombie = false
can_run _ = true

-- The slot that the other side waits in, and the caller's own.
abbrev pub other_slot : Bool → Slot
other_slot sender = if sender then write_blocked else read_blocked

abbrev pub own_slot : Bool → Slot
own_slot sender = if sender then read_blocked else write_blocked

module _ {R : Riot} where
  abbrev pub get_slot : Slot → Channel R → Option ℕ
  get_slot read_blocked c = c.thread_read_blocked
  get_slot write_blocked c = c.thread_write_blocked

  abbrev pub set_slot : Slot → Option ℕ → Channel R → Channel R
  set_slot read_blocked t c = record c { thread_read_blocked = t }
  set_slot write_blocked t c = record c { thread_write_blocked = t }

  -- irq_restore (state)
  abbrev pub restore : ℕ → World R → World R
  restore state w = record w { kern = R.irq_restore state w.kern }

  -- irq_disable (): the state replaced, and the world with interrupts off
  abbrev pub disable : World R → ℕ × World R
  disable w = let (state, k) = R.irq_disable w.kern in (state, record w { kern = k })

  -- up to the yield; what follows is `disable`
  unfoldable pub channel_sched_self : Slot → ℕ → World R → World R
  channel_sched_self me state w = record {
    chan = set_slot me (some (R.getpid w.kern)) w.chan;
    kern = R.irq_restore state (R.set_status (R.getpid w.kern) sleeping w.kern);
  }

  -- Readies thread `t`, unless it cannot run.
  unfoldable pub wake : Slot → ℕ → ℕ → World R → Pause × World R
  wake slot t state w =
      if can_run (R.status w.kern t)
      then (
        switches (R.priority w.kern t),
        record {
          chan = set_slot slot none w.chan;
          kern = R.irq_restore state (R.set_status t pending w.kern);
        },
      )
      else (opens, restore state w)

  unfoldable pub channel_sched_other : Slot → ℕ → World R → Pause × World R
  channel_sched_other slot state w = elim (get_slot slot w.chan) [
    | none ↦ (opens, restore state w)
    | some t ↦ wake slot t state w
  ]

  -- `none`: no pause, `state` still stands and interrupts are off.
  unfoldable pub channel_synchronize : Bool → ℕ → World R → Option Pause × World R
  channel_synchronize sender state w =
      if not (channel_is_buffered w.chan)
      then (elim (get_slot (other_slot sender) w.chan) [
        | none ↦ (some sleeps, channel_sched_self (own_slot sender) state w)
        | some t ↦ let (p, w') = channel_sched_other (other_slot sender) state w in (some p, w')
      ])
      else (none, w)

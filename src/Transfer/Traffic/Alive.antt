-- ===== src/Transfer/Traffic/Alive.antt =====
-- Who sleeps, over every schedule of the sends and receives over a channel (channel_send and channel_recv of
-- modules/csp/csp.c).
use riot_csp_module.Common.{
  ℕ, ◌<◌, ◌≡◌, ◌≢◌, refl, ap, ◌∙◌, Bool, true, false, List, [], length, arith,
}
use riot_csp_module.Riot.{Riot, sleeping}
use riot_csp_module.Channel.{World, channel_get_rb}
use riot_csp_module.Sched.{Slot, read_blocked, write_blocked}
use riot_csp_module.Sched.Effects.{SlotIs}
use riot_csp_module.Send.{SendPoint}
use riot_csp_module.Transfer.{Task, at}
use riot_csp_module.Transfer.Fifo.Whole.{wires}
use riot_csp_module.Transfer.Shows.{Parties}
use riot_csp_module.Transfer.Delivery.{not_asleep}
use riot_csp_module.Transfer.Traffic.Held.{Sending, Holds, idle, meets, returns}
use riot_csp_module.Transfer.Traffic.Sends.{Kept}
use riot_csp_module.Transfer.Traffic.Steps.{fresh-Kept, Run-Kept}
use riot_csp_module.Transfer.Traffic.{Traffic, Run, IsFresh}

-- a thread that sleeps, as its slot shows it
asleep-slot :
    {R : Riot} (slot : Slot) (t : ℕ) (b : Bool) (w : World R)
    → SlotIs slot t b w
    → R.status w.kern t ≡ sleeping
    → b ≡ true
asleep-slot slot t true w h e = refl
asleep-slot slot t false w h e = absurd (h.1 e)

-- a send that has not put its message into the file stands at its synchronisation
stands_there :
    {side : Bool} {task : Task SendPoint ℕ} {message : List ℕ} {spare : ℕ} {waiting : List (List ℕ)}
    → Sending side task message spare waiting
    → 0 < length waiting
    → task ≡ at SendPoint.synchronized
stands_there (idle _ e) pos = absurd (omega (arith, ap (λ (z : List (List ℕ)). length z) e))
stands_there (meets e _ _ _) pos = e
stands_there (returns _ e) pos = absurd (omega (arith, ap (λ (z : List (List ℕ)). length z) e))

-- Not both threads sleep, the sender sleeps only at its synchronisation, and over a buffered channel the
-- sender never sleeps and the receiver only when the file is empty.
pub record Alive {R : Riot} (p : Parties) (t : Traffic R) : Type 0 where
  pub one_awake :
      R.status t.world.kern p.sender ≡ sleeping → R.status t.world.kern p.receiver ≢ sleeping
  pub sleeps_there :
      R.status t.world.kern p.sender ≡ sleeping → t.sender ≡ at SendPoint.synchronized
  pub sender_awake : p.buffered ≡ true → R.status t.world.kern p.sender ≢ sleeping
  pub sleeps_empty :
      p.buffered ≡ true
      → R.status t.world.kern p.receiver ≡ sleeping
      → R.contents (channel_get_rb p.side t.world.chan) ≡ []

module _ {R : Riot} (p : Parties) {s t : Traffic R} where
  -- Two threads, over an open channel, with the buffered flag or without, whose file is empty: one sends
  -- non-empty messages, each when the file has room for it with its size, the other receives. After every
  -- order of their steps: if the sender sleeps, it stands at its synchronisation and the receiver does not
  -- sleep; and if the channel is buffered, the sender does not sleep, and when the receiver sleeps the
  -- file is empty.
  pub traffic-Alive : IsFresh p s → Run p s t → Alive p t
  traffic-Alive f run = record {
    one_awake = λ e.
        not_asleep write_blocked p.receiver _ t.world (h.alert.one_awake (sender_is e))
          h.shows.receiver_is;
    sleeps_there = λ e. stands_there h.sending (h.alert.asleep_waits (sender_is e));
    sender_awake =
        λ b. not_asleep read_blocked p.sender _ t.world (h.sender_awake b) h.shows.sender_is;
    sleeps_empty = λ b e.
        h.shows.queue_same
        ∙ h.queue_same
        ∙ ap wires (
            h.receiver_alert b
              (asleep-slot write_blocked p.receiver _ t.world h.shows.receiver_is e));
  }
    where
      q : Kept p t
      q = Run-Kept p (fresh-Kept p f) run

      h : Holds p q.waiting t
      h = q.holds

      sender_is : R.status t.world.kern p.sender ≡ sleeping → h.net.sender_asleep ≡ true
      sender_is e = asleep-slot read_blocked p.sender _ t.world h.shows.sender_is e

  -- Over a buffered channel no message waits for a receiver that sleeps.
  pub sleeps-empty :
      p.buffered ≡ true
      → IsFresh p s
      → Run p s t
      → R.status t.world.kern p.receiver ≡ sleeping
      → (R.contents (channel_get_rb p.side t.world.chan) ≡ [])
        × (R.status t.world.kern p.sender ≢ sleeping)
  sleeps-empty b f run e = let a = traffic-Alive f run in (a.sleeps_empty b e, a.sender_awake b)

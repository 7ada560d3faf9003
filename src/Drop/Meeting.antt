-- ===== src/Drop/Meeting.antt =====
-- channel_drop of modules/csp/csp.c on an unbuffered channel: whom it waits for.
use riot_csp_module.Common.{ℕ, ◌≡◌, ◌≢◌, refl, sym, ap, ◌∙◌, true, false, not, some, none, arith}
use riot_csp_module.Riot.{Riot, sleeping}
use riot_csp_module.Channel.{World, channel_is_creator, channel_is_closed, channel_is_buffered}
use riot_csp_module.Sched.{Outcome}
use riot_csp_module.Send.{Message, SendPoint, channel_send}
use riot_csp_module.Drop.{channel_drop}
use riot_csp_module.Collisions.{sends, drops, Stuck}
use riot_csp_module.Collisions.Met.{both-Stuck}
use riot_csp_module.Transfer.System.{on}

-- channel_drop by the running thread, then, once the scheduler has turned to the thread that runs in
-- `k`, a send by that one.
abbrev pub drop_then_send : {R : Riot} → Message → World R → R.State → Outcome SendPoint ℕ × World R
drop_then_send m w k = channel_send m (on k (channel_drop w).1)

module _ {R : Riot} (m : Message) (w : World R) (k : R.State)
    (still_open : channel_is_closed w.chan ≡ false)
    (unbuffered : channel_is_buffered w.chan ≡ false) (nobody : w.thread_write_blocked ≡ none)
    (other : channel_is_creator w ≡ false) (creator_runs : R.getpid k ≡ w.creator)
    (states : (u : ℕ) → R.status k u ≡ R.status (channel_drop w).1.kern u) where
  apart : w.creator ≢ R.getpid w.kern
  unfolding channel_is_creator
  apart = ground (arith, other)

  both-Stuck_creator : Stuck true (R.getpid w.kern) (R.getpid k) (drop_then_send m w k).1
  both-Stuck_creator =
      both-Stuck drops (sends m) true w k still_open unbuffered nobody
        (λ q. apart (sym creator_runs ∙ q)) (ap not other) refl states

  -- On an open unbuffered channel where no receiver waits, a thread that did not make the channel
  -- calls channel_drop, and sleeps. The creator then calls channel_send, with a message to drop: it
  -- sleeps too, since no receiver is registered. Both threads sleep, and only the creator is
  -- registered, as a sender.
  pub drop-send_deadlock :
      (R.status (drop_then_send m w k).1.kern (R.getpid w.kern) ≡ sleeping)
      × (R.status (drop_then_send m w k).1.kern w.creator ≡ sleeping)
      × ((drop_then_send m w k).1.thread_read_blocked ≡ some w.creator)
      × ((drop_then_send m w k).1.thread_write_blocked ≡ none)
  drop-send_deadlock =
      let s = both-Stuck_creator in
      (
        s.first_sleeps,
        ap (R.status (drop_then_send m w k).1.kern) (sym creator_runs) ∙ s.second_is.1,
        s.second_is.0 ∙ ap some creator_runs,
        s.nobody_across,
      )

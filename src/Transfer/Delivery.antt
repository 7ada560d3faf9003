-- ===== src/Transfer/Delivery.antt =====
-- Two threads that pass one message over an open channel, in every order in which the scheduler runs
-- them (channel_send and channel_recv of modules/csp/csp.c).
pub mod Made
pub mod Completed
use riot_csp_module.Common.{
  ℕ, ◌+◌, ◌*◌, ◌^◌, ◌≤◌, ◌<◌, ◌≡◌, ◌≢◌, refl, sym, subst, ap₂, ◌∙◌, ◌⊎◌, inl, inr, Bool, true,
  false, List, [], length, arith, length-append,
}
use riot_csp_module.Riot.{Riot, sleeping}
use riot_csp_module.Channel.{World, encode_size, length-encode_size, size_bytes}
use riot_csp_module.Sched.{Slot, read_blocked, write_blocked}
use riot_csp_module.Sched.Effects.{SlotIs}
use riot_csp_module.Send.{SendPoint}
use riot_csp_module.Recv.{RecvPoint, Received}
use riot_csp_module.Transfer.{Net, Task, ready, at, finished}
use riot_csp_module.Transfer.Link.{Inv, SenderIs, ReceiverIs, is_ready, recv_early, send_early}
use riot_csp_module.Transfer.Link.Progress.{is_open, Inv-CanMove}
use riot_csp_module.Transfer.Shows.{Parties}
use riot_csp_module.Transfer.System.{System, Run, here, next, IsFresh, idle_net}
use riot_csp_module.Transfer.System.Simulation.{Holds, Kept, Step-Kept, measure}

module _ (side buffered : Bool) (bytes : List ℕ) where
  idle-Inv : Inv side buffered bytes (record { net = idle_net; sender = ready; receiver = ready })
  idle-Inv = record {
    stream = refl;
    fits = omega arith;
    sender_is = refl;
    receiver_is = refl;
    met = record { sender_first = λ _ _. refl; receiver_first = λ _ _. refl };
  }

-- An empty slot: the thread does not sleep.
pub not_asleep :
    {R : Riot} (slot : Slot) (t : ℕ) (asleep : Bool) (w : World R)
    → asleep ≡ false
    → SlotIs slot t asleep w
    → R.status w.kern t ≢ sleeping
not_asleep slot t true w e h = cc
not_asleep slot t false w e h = h.1

module _ {R : Riot} (p : Parties) (bytes : List ℕ) where
  pub fresh-Holds : (s : System R) → IsFresh p bytes s → Holds p bytes s
  fresh-Holds s f = record {
    net = idle_net;
    shows = f.shows;
    inv =
        subst
          (λ t.
            Inv p.side p.buffered bytes
              (record { net = idle_net; sender = t; receiver = s.receiver }))
          (sym f.no_send)
          (subst
            (λ t.
              Inv p.side p.buffered bytes (record { net = idle_net; sender = ready; receiver = t }))
            (sym f.no_recv) (idle-Inv p.side p.buffered bytes));
  }

  -- what is left to do at the start
  fresh-measure : (s : System R) → IsFresh p bytes s → measure p bytes s ≡ 4 * length bytes + 23
  fresh-measure s f =
      rw (f.no_send, f.no_recv)
        (omega (
          arith,
          length-append (encode_size (length bytes)) bytes,
          length-encode_size (length bytes),
        ))

  record Bounded (n : ℕ) (s₀ s : System R) : Type 0 where
    holds : Holds p bytes s
    left : measure p bytes s + n ≤ measure p bytes s₀

  Run-Bounded :
      {s₀ s : System R} {n : ℕ}
      → 0 < length bytes
      → length bytes < 2 ^ 32
      → Holds p bytes s₀
      → Run p bytes s₀ n s
      → Bounded n s₀ s
  Run-Bounded pos small h here = record { holds = h; left = omega arith }
  Run-Bounded pos small h (next r st) =
      let before = Run-Bounded pos small h r in
      let kept = Step-Kept p bytes pos small st before.holds in
      record { holds = kept.holds; left = omega (arith, kept.less, before.left) }

  module _ {s₀ s : System R} {n : ℕ} (pos : 0 < length bytes) (small : length bytes < 2 ^ 32)
      (fresh : IsFresh p bytes s₀) (run : Run p bytes s₀ n s) where
    reached : Holds p bytes s
    reached = (Run-Bounded pos small (fresh-Holds s₀ fresh) run).holds

    -- Two threads pass a non-empty message of less than 2 ^ 32 bytes over an open channel whose file
    -- is empty. In every order of their steps: when channel_recv has returned, it has returned the
    -- size of the message and has stored its bytes in the buffer.
    pub recv-delivers : (r : Received) → s.receiver ≡ finished r → r ≡ (length bytes, bytes)
    recv-delivers (b, out) e = ap₂ (λ (c : ℕ) (o : List ℕ). (c, o)) got.0 got.1
      where
        got : (b ≡ length bytes) × (out ≡ bytes) × (reached.net.receiver_asleep ≡ false)
        got =
            subst (λ t. ReceiverIs p.side p.buffered bytes reached.net s.sender t) e
              reached.inv.receiver_is

    -- Two threads pass a non-empty message of less than 2 ^ 32 bytes over an open channel whose
    -- file is empty, in any order of their steps. When channel_send has returned, it has returned
    -- the size of the message.
    pub send-returns_size : (b : ℕ) → s.sender ≡ finished b → b ≡ length bytes
    send-returns_size b e = sent.0
      where
        sent : (b ≡ length bytes) × (reached.net.sender_asleep ≡ false)
        sent =
            subst (λ t. SenderIs p.side p.buffered bytes reached.net s.receiver t) e
              reached.inv.sender_is

    -- Two threads pass a non-empty message of less than 2 ^ 32 bytes over an open channel whose
    -- file is empty, in any order of their steps. After any number of steps either both calls have
    -- returned, the send with the size and the receive with the size and the bytes, or one of the
    -- two threads has not returned and does not sleep, so that the scheduler can run it.
    pub no_deadlock :
        ((s.sender ≡ finished (length bytes)) × (s.receiver ≡ finished (length bytes, bytes)))
        ⊎ (((is_open s.sender ≡ true) × (R.status s.world.kern p.sender ≢ sleeping))
            ⊎ ((is_open s.receiver ≡ true) × (R.status s.world.kern p.receiver ≢ sleeping)))
    no_deadlock =
        elim (Inv-CanMove p.side p.buffered bytes reached.net s.sender s.receiver reached.inv) [
          | inl done ↦ inl done
          | inr (inl (open_call, a)) ↦ inr (
              inl (open_call, not_asleep read_blocked p.sender _ s.world a reached.shows.sender_is))
          | inr (inr (open_call, a)) ↦ inr (
              inr (
                open_call,
                not_asleep write_blocked p.receiver _ s.world a reached.shows.receiver_is,
              ))
        ]

    -- Two threads pass a non-empty message of less than 2 ^ 32 bytes over an open channel whose
    -- file is empty, in any order of their steps. No run takes more than 4 * length + 23 steps,
    -- from pause to pause. So every run that goes on while a thread can be run ends.
    pub run-le : n ≤ 4 * length bytes + 23
    run-le =
        omega
          (arith, (Run-Bounded pos small (fresh-Holds s₀ fresh) run).left, fresh-measure s₀ fresh)

    -- Two threads pass a non-empty message of less than 2 ^ 32 bytes over an open channel whose
    -- file is empty, in any order of their steps. On a channel without the buffered flag: while one
    -- side has not made its call, the other has not gone past its synchronisation, and so has not
    -- returned.
    pub rendezvous :
        p.buffered ≡ false
        → (is_ready s.receiver ≡ true → send_early s.sender ≡ true)
          × (is_ready s.sender ≡ true → recv_early s.receiver ≡ true)
    rendezvous u = (reached.inv.met.receiver_first u, reached.inv.met.sender_first u)

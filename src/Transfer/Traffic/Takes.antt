-- ===== src/Transfer/Traffic/Takes.antt =====
-- What the steps of channel_recv (modules/csp/csp.c) do to the account of the messages.
use riot_csp_module.Common.{
  ℕ, ◌≡◌, refl, sym, ap, ◌∙◌, true, false, List, [], ◌∷◌, ◌++◌, length, arith, append_assoc, subst,
}
use riot_csp_module.Riot.{Riot}
use riot_csp_module.Channel.{World}
use riot_csp_module.Sched.{Outcome}
use riot_csp_module.Recv.{RecvPoint, Received}
use riot_csp_module.Transfer
use riot_csp_module.Transfer.{Net, Task, ready, at, finished, task_of, room}
use riot_csp_module.Transfer.Fifo.Whole.{wires}
use riot_csp_module.Transfer.Shows.{Parties, Agrees}
use riot_csp_module.Transfer.Traffic.{Traffic, IsFree, after_recv}
use riot_csp_module.Transfer.Fifo.Whole.{recv_header_whole}
use riot_csp_module.Transfer.Traffic.Held.{
  Sized, collect-at, collect-finished, at_rest, comes, waits, stores, Sending-room,
  recv_header_empty, room-wires, Holds, IsEarly, Alert,
}

module _ {R : Riot} (p : Parties) (waiting : List (List ℕ)) (s : Traffic R)
    (h : Holds p waiting s) where
  open p use {side, buffered}

  -- A receive looks for a message, after its synchronisation or after a wait.
  pub looks :
      (r : Outcome RecvPoint Received × World R) (ms : List (List ℕ))
      → h.ms ≡ ms
      → h.hand ≡ []
      → h.net.receiver_asleep ≡ false
      → (ms ≡ [] → h.net.sender_asleep ≡ false)
      → Agrees p (Transfer.recv_header side buffered h.net) r
      → Holds p waiting (after_recv s r)
  looks r [] e empty up awake a =
      let b =
        subst (λ t. Agrees p t r)
          (recv_header_empty side buffered h.net (h.queue_same ∙ ap wires e)) a in
      record {
        net = record h.net { receiver_asleep = true };
        ms = [];
        hand = [];
        shows = b.shows;
        queue_same = h.queue_same ∙ ap wires e;
        sized = tt;
        order = h.order ∙ rw (empty, e, collect-at s.got r.0 _ b.task_same);
        sending = h.sending;
        receiving = waits b.task_same refl;
        sender_awake = h.sender_awake;
        receiver_alert = λ _ _. refl;
        alert = record {
          one_awake = λ q. absurd (let quiet = awake refl in cc);
          answered = λ _ q. absurd cc;
          asleep_waits = λ q. absurd (let quiet = awake refl in cc);
          asleep_early = λ _. subst IsEarly (sym b.task_same) tt;
        };
      }
  looks r (m ∷ ms) e empty up awake a =
      let z = subst Sized e h.sized in
      let b =
        subst (λ t. Agrees p t r)
          (recv_header_whole side buffered m h.net ms (h.queue_same ∙ ap wires e) z.0 z.1) a in
      record {
        net = record h.net { queue = wires ms; sender_asleep = false };
        ms = ms;
        hand = m ∷ [];
        shows = b.shows;
        queue_same = refl;
        sized = z.2;
        order = h.order ∙ rw (empty, e, collect-at s.got r.0 _ b.task_same);
        sending = Sending-room side (room-wires m ms h.net (h.queue_same ∙ ap wires e)) h.sending;
        receiving = stores m b.task_same refl;
        sender_awake = λ _. refl;
        receiver_alert = λ b q. absurd (let none_left = h.receiver_alert b q in cc);
        alert = record {
          one_awake = λ q. absurd cc;
          answered = λ early. absurd (subst IsEarly b.task_same early);
          asleep_waits = λ q. absurd cc;
          asleep_early = λ q. absurd cc;
        };
      }

  -- A receive waits at its synchronisation, or readies the sender there.
  pub comes_to :
      (r : Outcome RecvPoint Received × World R) (n : Net)
      → buffered ≡ false
      → n.queue ≡ h.net.queue
      → h.hand ≡ []
      → Alert n h.ms waiting Unit
      → Agrees p (at RecvPoint.synchronized, n) r
      → Holds p waiting (after_recv s r)
  comes_to r n u same empty alert a = record {
    net = n;
    ms = h.ms;
    hand = h.hand;
    shows = a.shows;
    queue_same = same ∙ h.queue_same;
    sized = h.sized;
    order = h.order ∙ rw (collect-at s.got r.0 _ a.task_same);
    sending = Sending-room side (omega (arith, ap (λ (q : List ℕ). length q) same)) h.sending;
    receiving = comes a.task_same empty;
    sender_awake = λ b. absurd cc;
    receiver_alert = λ b _. absurd cc;
    alert = record {
      one_awake = alert.one_awake;
      answered = λ _. alert.answered tt;
      asleep_waits = alert.asleep_waits;
      asleep_early = λ _. subst IsEarly (sym a.task_same) tt;
    };
  }

  -- A receive that has stored a message returns it.
  pub hands_over :
      (r : Outcome RecvPoint Received × World R) (out : List ℕ)
      → h.hand ≡ out ∷ []
      → h.net.receiver_asleep ≡ false
      → Agrees p (finished (length out, out), h.net) r
      → Holds p waiting (after_recv s r)
  hands_over r out e up a = record {
    net = h.net;
    ms = h.ms;
    hand = [];
    shows = a.shows;
    queue_same = h.queue_same;
    sized = h.sized;
    order =
        h.order
        ∙ rw (e, collect-finished s.got r.0 _ a.task_same)
            (sym (append_assoc s.got (out ∷ []) (h.ms ++ waiting)));
    sending = h.sending;
    receiving = at_rest (subst IsFree (sym a.task_same) tt) refl;
    sender_awake = h.sender_awake;
    receiver_alert = h.receiver_alert;
    alert = record {
      one_awake = h.alert.one_awake;
      answered = λ early. absurd (subst IsEarly a.task_same early);
      asleep_waits = h.alert.asleep_waits;
      asleep_early = λ q. absurd cc;
    };
  }

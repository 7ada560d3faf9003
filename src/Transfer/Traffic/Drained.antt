-- ===== src/Transfer/Traffic/Drained.antt =====
-- No message stays in a buffered channel for good: whatever the threads have done, the receives that are still
-- to come (channel_recv of modules/csp/csp.c) get all that was sent.
use riot_csp_module.Common.{
  ℕ, Bool, ◌≡◌, refl, sym, ◌∙◌, true, false, inl, inr, List, [], ◌∷◌, ◌++◌, length, append_assoc,
  append-nil, subst, Bool-cases,
}
use riot_csp_module.Riot.{Riot}
use riot_csp_module.Recv.{RecvPoint, Received}
use riot_csp_module.Recv.Refines.{ReceivesOn}
use riot_csp_module.Transfer
use riot_csp_module.Transfer.{Task, at}
use riot_csp_module.Transfer.Fifo.Whole.{wires, recv_start_whole, recv_header_whole, recv_returns}
use riot_csp_module.Transfer.Shows.{Parties}
use riot_csp_module.Transfer.Delivery.Completed.{Scheduler}
use riot_csp_module.Transfer.Traffic.{Traffic, IsFree, Run, here, IsFresh}
use riot_csp_module.Transfer.Traffic.Held.{
  Sized, Receiving, at_rest, comes, waits, stores, Holds, IsEarly,
}
use riot_csp_module.Transfer.Traffic.Sends.{Kept}
use riot_csp_module.Transfer.Traffic.Steps.{fresh-Kept, Run-Kept}
use riot_csp_module.Transfer.Traffic.Walk.{View, Reaches, calls_recv, goes_on_recv, returns_recv}

-- a receive that looks for a message has none in hand
early-hand :
    {side : Bool} {task : Task RecvPoint Received} {hand : List (List ℕ)}
    → Receiving side task hand
    → IsEarly task
    → hand ≡ []
early-hand (at_rest _ e) early = e
early-hand (comes _ e) early = e
early-hand (waits _ e) early = e
early-hand (stores out e' _) early = absurd (subst IsEarly e' early)

module _ {R : Riot} (p : Parties) where
  -- Some run goes on to where all that was sent has been received, and nothing more was sent.
  pub record AllReceived (t : Traffic R) : Type 0 where
    pub last : Traffic R
    pub run : Run p t last
    pub sent_same : last.sent ≡ t.sent
    pub all_got : last.got ≡ t.sent

  -- What a walk from a view leads to: the messages have been received.
  record Drains (t : Traffic R) (v : View) (ms : List (List ℕ)) : Type 0 where
    after : View
    reached : Reaches p t after
    all_got : after.got ≡ v.got ++ ms
    sent_same : after.sent ≡ v.sent

module _ {R : Riot} (p : Parties) (is_buffered : p.buffered ≡ true) (runs : Scheduler R)
    {t : Traffic R} where
  open p use {side, buffered}

  drain :
      (ms : List (List ℕ)) (v : View)
      → Reaches p t v
      → v.net.queue ≡ wires ms
      → Sized ms
      → IsFree v.recv
      → v.net.receiver_asleep ≡ false
      → Drains p t v ms
  drain [] v r q z free up = record {
    after = v;
    reached = r;
    all_got = sym (append-nil v.got);
    sent_same = refl;
  }
  drain (m ∷ ms) v r q z free up =
      let taken =
        calls_recv p runs r (RecvPoint.chunk_got side (length m) m) _ up free
          (recv_start_whole side buffered m v.net ms is_buffered q z.0 z.1) in
      let back = returns_recv p runs taken _ _ _ up refl refl (recv_returns side buffered m _) in
      let rest = drain ms _ back refl z.2 tt up in
      record {
        after = rest.after;
        reached = rest.reached;
        all_got = rest.all_got ∙ append_assoc v.got (m ∷ []) ms;
        sent_same = rest.sent_same;
      }

  module _ (v : View) (r : Reaches p t v) (up : v.net.receiver_asleep ≡ false) where
    -- a receive that has stored a message returns it
    hands :
        (out : List ℕ) (ms : List (List ℕ))
        → v.net.queue ≡ wires ms
        → Sized ms
        → v.recv ≡ at (RecvPoint.chunk_got side (length out) out)
        → Drains p t v (out ∷ ms)
    hands out ms q z stands =
        let back = returns_recv p runs r _ _ _ up stands refl (recv_returns side buffered out _) in
        let rest = drain ms _ back q z tt up in
        record {
          after = rest.after;
          reached = rest.reached;
          all_got = rest.all_got ∙ append_assoc v.got (out ∷ []) ms;
          sent_same = rest.sent_same;
        }

  -- a receive that looks for a message takes the first
  looks_on :
      (ms : List (List ℕ)) (v : View) (point : RecvPoint)
      → Reaches p t v
      → v.net.receiver_asleep ≡ false
      → v.net.queue ≡ wires ms
      → Sized ms
      → v.recv ≡ at point
      → ReceivesOn side point
      → Transfer.recv_resume side buffered point v.net ≡ Transfer.recv_header side buffered v.net
      → Drains p t v ms
  looks_on [] v point r up q z stands on_side e = record {
    after = v;
    reached = r;
    all_got = sym (append-nil v.got);
    sent_same = refl;
  }
  looks_on (m ∷ ms) v point r up q z stands on_side e =
      let taken =
        goes_on_recv p runs r point (RecvPoint.chunk_got side (length m) m) _ up stands on_side
          (e ∙ recv_header_whole side buffered m v.net ms q z.0 z.1) in
      let rest = hands _ taken up m ms refl z.2 refl in
      record {
        after = rest.after;
        reached = rest.reached;
        all_got = rest.all_got;
        sent_same = rest.sent_same;
      }

  from_there :
      (hand ms : List (List ℕ)) (v : View)
      → Receiving side v.recv hand
      → Reaches p t v
      → v.net.receiver_asleep ≡ false
      → v.net.queue ≡ wires ms
      → Sized ms
      → Drains p t v (hand ++ ms)
  unfolding Transfer.recv_resume
  from_there hand ms v (at_rest free e) r up q z =
      subst (λ h. Drains p t v (h ++ ms)) (sym e) (drain ms v r q z free up)
  from_there hand ms v (comes stands e) r up q z =
      subst (λ h. Drains p t v (h ++ ms)) (sym e)
        (looks_on ms v RecvPoint.synchronized r up q z stands tt refl)
  from_there hand ms v (waits stands e) r up q z =
      subst (λ h. Drains p t v (h ++ ms)) (sym e)
        (looks_on ms v (RecvPoint.header side) r up q z stands refl refl)
  from_there hand ms v (stores out stands e) r up q z =
      subst (λ h. Drains p t v (h ++ ms)) (sym e) (hands v r up out ms q z stands)

  -- Two threads, over an open buffered channel whose file is empty: one sends non-empty messages, each when
  -- the file has room for it with its size, the other receives; and a scheduler that can run any thread that
  -- does not sleep. Whatever they have done so far, in any order of their steps, they can go on, with no
  -- further send, to where all messages sent have been received, in their order.
  pub sent-AllReceived : {s : Traffic R} → IsFresh p s → Run p s t → AllReceived p t
  sent-AllReceived {s} f run = elim (Bool-cases h.net.receiver_asleep) [
    | inl asleep ↦ record {
      last = t;
      run = here;
      sent_same = refl;
      all_got = sym (
          h.order
          ∙ rw
              (
                early-hand h.receiving (h.alert.asleep_early asleep),
                h.receiver_alert is_buffered asleep,
                q.at_once is_buffered,
              )
              (append-nil t.got));
    }
    | inr up ↦
        let d = from_there h.hand h.ms there h.receiving arrived up h.queue_same h.sized in
        record {
          last = d.reached.last;
          run = d.reached.run;
          sent_same = d.reached.is_as.sent_is ∙ d.sent_same;
          all_got =
              d.reached.is_as.got_is
              ∙ d.all_got
              ∙ sym (h.order ∙ rw (q.at_once is_buffered, append-nil h.ms));
        }
  ]
    where
      q : Kept p t
      q = Run-Kept p (fresh-Kept p f) run

      h : Holds p q.waiting t
      h = q.holds

      there : View
      there = record {
        net = h.net;
        send = t.sender;
        recv = t.receiver;
        message = t.message;
        sent = t.sent;
        got = t.got;
      }

      arrived : Reaches p t there
      arrived = record {
        last = t;
        run = here;
        is_as = record {
          shows = h.shows;
          send_is = refl;
          recv_is = refl;
          message_is = refl;
          sent_is = refl;
          got_is = refl;
        };
      }

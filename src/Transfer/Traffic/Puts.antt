-- ===== src/Transfer/Traffic/Puts.antt =====
-- What the steps of channel_send (modules/csp/csp.c) do to the account of the messages.
use riot_csp_module.Common.{
  ℕ, ◌+◌, ◌<◌, ◌≤◌, ◌≡◌, refl, sym, ap, ◌∙◌, false, List, [], ◌∷◌, ◌++◌, length, arith,
  append_assoc, append-nil, subst,
}
use riot_csp_module.Riot.{Riot}
use riot_csp_module.Channel.{World, size_bytes}
use riot_csp_module.Sched.{Outcome}
use riot_csp_module.Send.{SendPoint}
use riot_csp_module.Transfer
use riot_csp_module.Transfer.{Net, Task, ready, at, finished, task_of, room}
use riot_csp_module.Transfer.Fifo.Whole.{wires}
use riot_csp_module.Transfer.Shows.{Parties, Agrees}
use riot_csp_module.Transfer.System.{data_message}
use riot_csp_module.Transfer.Traffic.{Traffic, IsFree, after_send}
use riot_csp_module.Transfer.Fifo.Whole.{send_synchronized_whole}
use riot_csp_module.Transfer.Traffic.Held.{
  Sized-append, idle, meets, returns, Holds, IsEarly, Alert,
}

not-nil : (ms : List (List ℕ)) (m : List ℕ) → ms ++ (m ∷ []) ≡ [] → ⊥
not-nil [] m e = cc
not-nil (x ∷ ms) m e = cc

module _ {R : Riot} (p : Parties) (waiting : List (List ℕ)) (s : Traffic R)
    (h : Holds p waiting s) where
  open p use {side, buffered}

  -- A send puts its message into the file.
  pub puts :
      (r : Outcome SendPoint ℕ × World R)
      → waiting ≡ s.message ∷ []
      → 0 < length s.message
      → size_bytes + length s.message ≤ room h.net
      → h.net.sender_asleep ≡ false
      → Agrees p (Transfer.send_synchronized side buffered (data_message s.message) h.net) r
      → Holds p [] (after_send s r)
  puts r one pos fits awake a =
      let b =
        subst (λ t. Agrees p t r)
          (send_synchronized_whole side buffered s.message h.net h.ms h.queue_same pos
            (omega arith))
          a in
      record {
        net = record h.net { queue = wires (h.ms ++ (s.message ∷ [])); receiver_asleep = false };
        ms = h.ms ++ (s.message ∷ []);
        hand = h.hand;
        shows = b.shows;
        queue_same = refl;
        sized = Sized-append h.ms s.message pos (omega arith) h.sized;
        order = h.order ∙ rw (one, append-nil (h.ms ++ (s.message ∷ [])));
        sending = returns b.task_same refl;
        receiving = h.receiving;
        sender_awake = h.sender_awake;
        receiver_alert = λ _ q. absurd cc;
        alert = record {
          one_awake = λ _. refl;
          answered = λ _ _ none_left. absurd (not-nil h.ms s.message none_left);
          asleep_waits = λ q. absurd cc;
          asleep_early = λ q. absurd cc;
        };
      }

  -- A send waits at its synchronisation, or readies the receiver there.
  pub meets_at :
      (r : Outcome SendPoint ℕ × World R) (n : Net)
      → buffered ≡ false
      → n.queue ≡ h.net.queue
      → waiting ≡ s.message ∷ []
      → 0 < length s.message
      → size_bytes + length s.message ≤ room h.net
      → Alert n h.ms waiting (IsEarly s.receiver)
      → Agrees p (at SendPoint.synchronized, n) r
      → Holds p waiting (after_send s r)
  meets_at r n u same one pos fits alert a = record {
    net = n;
    ms = h.ms;
    hand = h.hand;
    shows = a.shows;
    queue_same = same ∙ h.queue_same;
    sized = h.sized;
    order = h.order;
    sending = meets a.task_same one pos (omega (arith, ap (λ (q : List ℕ). length q) same));
    receiving = h.receiving;
    sender_awake = λ b. absurd cc;
    receiver_alert = λ b _. absurd cc;
    alert = alert;
  }

  pub finishes :
      (r : Outcome SendPoint ℕ × World R)
      → waiting ≡ []
      → Agrees p (finished (length s.message), h.net) r
      → Holds p waiting (after_send s r)
  finishes r none_waits a = record {
    net = h.net;
    ms = h.ms;
    hand = h.hand;
    shows = a.shows;
    queue_same = h.queue_same;
    sized = h.sized;
    order = h.order;
    sending = idle (subst IsFree (sym a.task_same) tt) none_waits;
    receiving = h.receiving;
    sender_awake = h.sender_awake;
    receiver_alert = h.receiver_alert;
    alert = h.alert;
  }

-- The message of a send that has been called and has not come to its synchronisation.
abbrev pub called : {R : Riot} → Traffic R → List ℕ → Traffic R
called s bytes = record s {
  sender = at SendPoint.synchronized;
  message = bytes;
  sent = s.sent ++ (bytes ∷ []);
}

-- The call of a send. A receiver that is awake finds a message in the file.
pub record Called {R : Riot} (p : Parties) (s : Traffic R) (bytes : List ℕ) : Type 0 where
  pub holds : Holds p (bytes ∷ []) (called s bytes)
  pub finds : IsEarly s.receiver → holds.net.receiver_asleep ≡ false → holds.ms ≡ [] → ⊥

pub Holds-Called :
    {R : Riot} (p : Parties) (s : Traffic R) (bytes : List ℕ) (h : Holds p [] s)
    → 0 < length bytes
    → size_bytes + length bytes ≤ room h.net
    → Called p s bytes
Holds-Called p s bytes h pos fits = record {
  holds = record {
    net = h.net;
    ms = h.ms;
    hand = h.hand;
    shows = h.shows;
    queue_same = h.queue_same;
    sized = h.sized;
    order =
        rw (h.order, append-nil h.ms)
          (append_assoc s.got (h.hand ++ h.ms) (bytes ∷ [])
            ∙ ap (λ (z : List (List ℕ)). s.got ++ z) (append_assoc h.hand h.ms (bytes ∷ [])));
    sending = meets refl refl pos fits;
    receiving = h.receiving;
    sender_awake = h.sender_awake;
    receiver_alert = h.receiver_alert;
    alert = record {
      one_awake = h.alert.one_awake;
      answered = λ early awake none_left. absurd (nobody early awake none_left);
      asleep_waits = λ _. omega arith;
      asleep_early = h.alert.asleep_early;
    };
  };
  finds = nobody;
}
  where
    nobody : IsEarly s.receiver → h.net.receiver_asleep ≡ false → h.ms ≡ [] → ⊥
    nobody early awake none_left =
        let one = (h.alert.answered early awake none_left).0 in omega (arith, one)

-- ===== src/Transfer/Traffic/Held.antt =====
-- What holds between two steps of the sends and receives over a channel: the messages sent are those
-- received, the one that the receiver has in hand, those in the file, and the one of a send that waits to
-- synchronise.
use riot_csp_module.Common.{
  ℕ, ◌+◌, ◌<◌, ◌≤◌, ◌^◌, ◌≡◌, refl, length-append, ap, Bool, true, false, List, [], ◌∷◌, ◌++◌,
  length, arith, subst,
}
use riot_csp_module.Riot.{Riot}
use riot_csp_module.Channel.{size_bytes, encode_size}
use riot_csp_module.Sched.{Outcome, done, paused}
use riot_csp_module.Send.{SendPoint}
use riot_csp_module.Recv.{RecvPoint, Received}
use riot_csp_module.Transfer
use riot_csp_module.Transfer.{Net, Task, ready, at, finished, task_of, room}
use riot_csp_module.Transfer.Fifo.Whole.{wires}
use riot_csp_module.Transfer.Shows.{Parties, Shows}
use riot_csp_module.Transfer.Traffic.{Traffic, IsFree, collect}

-- Each message has bytes, and its size fits in a size_t.
abbrev pub Sized : List (List ℕ) → Type 0
Sized [] = Unit
Sized (m ∷ ms) = (0 < length m) × (length m < 2 ^ 32) × Sized ms

pub Sized-append :
    (ms : List (List ℕ)) (m : List ℕ)
    → 0 < length m
    → length m < 2 ^ 32
    → Sized ms
    → Sized (ms ++ (m ∷ []))
Sized-append [] m pos small h = (pos, small, tt)
Sized-append (x ∷ ms) m pos small h = (h.0, h.1, Sized-append ms m pos small h.2)

pub collect-at :
    (got : List (List ℕ)) (o : Outcome RecvPoint Received) (l : RecvPoint)
    → task_of o ≡ at l
    → collect got o ≡ got
collect-at got (done r) l e = absurd cc
collect-at got (paused p _) l e = refl

pub collect-finished :
    (got : List (List ℕ)) (o : Outcome RecvPoint Received) (r : Received)
    → task_of o ≡ finished r
    → collect got o ≡ got ++ (r.1 ∷ [])
collect-finished got (done x) r e =
    let same : x ≡ r = cc in ap (λ (z : Received). got ++ (z.1 ∷ [])) same
collect-finished got (paused p _) r e = absurd cc

pub busy : {L A : Type 0} (task : Task L A) (l : L) → task ≡ at l → IsFree task → ⊥
busy task l e h = subst IsFree e h

module _ (side : Bool) where
  -- The sender is not in a call, waits at its synchronisation with a message for which the file has room,
  -- or its message is in the file. `waiting` is what it has not put into the file.
  pub data Sending (task : Task SendPoint ℕ) (message : List ℕ) (spare : ℕ)
      (waiting : List (List ℕ)) : Type 0 where
    idle : IsFree task → waiting ≡ [] → Sending task message spare waiting
    meets :
        task ≡ at SendPoint.synchronized
        → waiting ≡ message ∷ []
        → 0 < length message
        → size_bytes + length message ≤ spare
        → Sending task message spare waiting
    returns :
        task ≡ at (SendPoint.chunk_sent side (length message))
        → waiting ≡ []
        → Sending task message spare waiting

  -- The receiver is not in a call, waits at its synchronisation or for a message, or has taken one that
  -- it has not returned.
  pub data Receiving (task : Task RecvPoint Received) (hand : List (List ℕ)) : Type 0 where
    at_rest : IsFree task → hand ≡ [] → Receiving task hand
    comes : task ≡ at RecvPoint.synchronized → hand ≡ [] → Receiving task hand
    waits : task ≡ at (RecvPoint.header side) → hand ≡ [] → Receiving task hand
    stores :
        (out : List ℕ)
        → task ≡ at (RecvPoint.chunk_got side (length out) out)
        → hand ≡ out ∷ []
        → Receiving task hand

  -- more room does not matter
  pub Sending-room :
      {task : Task SendPoint ℕ} {message : List ℕ} {spare spare' : ℕ} {waiting : List (List ℕ)}
      → spare ≤ spare'
      → Sending task message spare waiting
      → Sending task message spare' waiting
  Sending-room le (idle free none_waits) = idle free none_waits
  Sending-room le (meets e one pos fits) = meets e one pos (omega arith)
  Sending-room le (returns e none_waits) = returns e none_waits

  -- no message waits to be put into the file when no send is under way
  pub none_waiting :
      {task : Task SendPoint ℕ} {message : List ℕ} {spare : ℕ} {waiting : List (List ℕ)}
      → IsFree task
      → Sending task message spare waiting
      → waiting ≡ []
  none_waiting free (idle _ none_waits) = none_waits
  none_waiting {task} free (meets e _ _ _) = absurd (busy task _ e free)
  none_waiting free (returns _ none_waits) = none_waits

  pub one_waiting :
      {task : Task SendPoint ℕ} {message : List ℕ} {spare : ℕ} {waiting : List (List ℕ)}
      → Sending task message spare waiting
      → length waiting ≤ 1
  one_waiting (idle _ e) = rw e (omega arith)
  one_waiting (meets _ e _ _) = rw e (omega arith)
  one_waiting (returns _ e) = rw e (omega arith)

  pub in_hand :
      {task : Task RecvPoint Received} {hand : List (List ℕ)}
      → Receiving task hand
      → (length hand ≤ 1) × (IsFree task → hand ≡ [])
  in_hand (at_rest _ e) = rw e (omega arith, λ _. refl)
  in_hand (comes e' e) = rw e (omega arith, λ _. refl)
  in_hand (waits e' e) = rw e (omega arith, λ _. refl)
  in_hand {task} (stores out e' e) = (rw e (omega arith), λ free. absurd (busy task _ e' free))

  pub recv_header_empty :
      (buffered : Bool) (n : Net)
      → n.queue ≡ []
      → Transfer.recv_header side buffered n
        ≡ (at (RecvPoint.header side), record n { receiver_asleep = true })
  unfolding Transfer.recv_header
  recv_header_empty buffered n e = rw e refl

pub room-wires :
    (m : List ℕ) (ms : List (List ℕ)) (n : Net)
    → n.queue ≡ wires (m ∷ ms)
    → room n ≤ room (record n { queue = wires ms; sender_asleep = false })
room-wires m ms n e = omega (
  arith,
  ap (λ (q : List ℕ). length q) e,
  length-append (encode_size (length m)) (m ++ wires ms),
  length-append m (wires ms),
)

-- The receiver has called and has not found a message.
abbrev pub IsEarly : Task RecvPoint Received → Type 0
IsEarly ready = ⊥
IsEarly (at RecvPoint.synchronized) = Unit
IsEarly (at (RecvPoint.header side)) = Unit
IsEarly (at (RecvPoint.chunk_got side data_size out)) = ⊥
IsEarly (at (RecvPoint.data_wait side data_size out)) = ⊥
IsEarly (finished result) = ⊥

-- Who sleeps: not both, and a receiver that looks for a message and is awake finds one, or the sender has
-- one in hand and is awake; a sender that sleeps has one, and a receiver that sleeps looks for one.
pub record Alert (n : Net) (ms waiting : List (List ℕ)) (early : Type 0) : Type 0 where
  pub one_awake : n.sender_asleep ≡ true → n.receiver_asleep ≡ false
  pub answered :
      early → n.receiver_asleep ≡ false → ms ≡ [] → (0 < length waiting) × (n.sender_asleep ≡ false)
  pub asleep_waits : n.sender_asleep ≡ true → 0 < length waiting
  pub asleep_early : n.receiver_asleep ≡ true → early

module _ {R : Riot} (p : Parties) where
  open p use {side, buffered}

  pub record Holds (waiting : List (List ℕ)) (s : Traffic R) : Type 0 where
    pub net : Net
    pub ms : List (List ℕ)
    pub hand : List (List ℕ)
    pub shows : Shows p net s.world
    pub queue_same : net.queue ≡ wires ms
    pub sized : Sized ms
    pub order : s.sent ≡ s.got ++ (hand ++ (ms ++ waiting))
    pub sending : Sending side s.sender s.message (room net) waiting
    pub receiving : Receiving side s.receiver hand
    pub sender_awake : buffered ≡ true → net.sender_asleep ≡ false
    pub receiver_alert : buffered ≡ true → net.receiver_asleep ≡ true → ms ≡ []
    pub alert : Alert net ms waiting (IsEarly s.receiver)

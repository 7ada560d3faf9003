-- ===== src/Transfer/Link.antt =====
-- One message from one thread to another over the specification of a channel: who may move, and
-- what holds between any two moves.
pub mod Sender
pub mod Receiver
pub mod Progress
use riot_csp_module.Common.{
  ℕ, ◌+◌, ◌*◌, ◌≤◌, ◌<◌, ◌≡◌, Bool, true, false, List, [], ◌++◌, length, take, drop, ◌==◌, ltb,
  some,
}
use riot_csp_module.Channel.{channel_bufsize, size_bytes, encode_size}
use riot_csp_module.Send.{Message, SendPoint}
use riot_csp_module.Recv.{RecvPoint, Received}
use riot_csp_module.Transfer.{
  Net, Task, ready, at, finished, send_start, send_resume, recv_start, recv_resume,
}

pub record Link : Type 0 where
  pub net : Net
  pub open net use *
  pub sender : Task SendPoint ℕ
  pub receiver : Task RecvPoint Received

abbrev pub is_ready : {L A : Type 0} → Task L A → Bool
is_ready ready = true
is_ready (at _) = false
is_ready (finished _) = false

-- A receive that has not gone past its synchronisation, and so for a send.
abbrev pub recv_early : Task RecvPoint Received → Bool
recv_early ready = true
recv_early (at RecvPoint.synchronized) = true
recv_early (at _) = false
recv_early (finished _) = false

abbrev pub send_early : Task SendPoint ℕ → Bool
send_early ready = true
send_early (at SendPoint.synchronized) = true
send_early (at _) = false
send_early (finished _) = false

module _ (side buffered : Bool) (bytes : List ℕ) where
  abbrev pub message : Message
  message = record { data_size = length bytes; payload = some bytes }

  -- what the message is in the file
  abbrev pub wire : List ℕ
  wire = encode_size (length bytes) ++ bytes

  -- what of it is not yet in the file
  abbrev pub unsent_wire : Task SendPoint ℕ → List ℕ
  unsent_wire ready = wire
  unsent_wire (at SendPoint.synchronized) = wire
  unsent_wire (at (SendPoint.header _)) = wire
  unsent_wire (at (SendPoint.chunk_sent _ b)) = drop b bytes
  unsent_wire (at (SendPoint.data_wait _ b)) = drop b bytes
  unsent_wire (finished b) = drop b bytes

  -- what of it is not yet out of the file
  abbrev pub pending_wire : Task RecvPoint Received → List ℕ
  pending_wire ready = wire
  pending_wire (at RecvPoint.synchronized) = wire
  pending_wire (at (RecvPoint.header _)) = wire
  pending_wire (at (RecvPoint.chunk_got _ _ out)) = drop (length out) bytes
  pending_wire (at (RecvPoint.data_wait _ _ out)) = drop (length out) bytes
  pending_wire (finished (b, out)) = drop b bytes

  -- What holds at each point of the send; `other` is the receive.
  abbrev pub SenderIs : Net → Task RecvPoint Received → Task SendPoint ℕ → Type 0
  SenderIs n other ready = n.sender_asleep ≡ false
  SenderIs n other (at SendPoint.synchronized) =
      (buffered ≡ false) × (n.sender_asleep ≡ is_ready other)
  SenderIs n other (at (SendPoint.header s)) = ⊥
  SenderIs n other (at (SendPoint.chunk_sent s b)) =
      (s ≡ side) × (b ≤ length bytes) × (n.sender_asleep ≡ false)
  SenderIs n other (at (SendPoint.data_wait s b)) =
      (s ≡ side) × (b < length bytes) × (n.sender_asleep ≡ (length n.queue == channel_bufsize))
  SenderIs n other (finished b) = (b ≡ length bytes) × (n.sender_asleep ≡ false)

  abbrev pub ReceiverIs : Net → Task SendPoint ℕ → Task RecvPoint Received → Type 0
  ReceiverIs n other ready = n.receiver_asleep ≡ false
  ReceiverIs n other (at RecvPoint.synchronized) =
      (buffered ≡ false) × (n.receiver_asleep ≡ is_ready other)
  ReceiverIs n other (at (RecvPoint.header s)) =
      (s ≡ side) × (n.receiver_asleep ≡ ltb (length n.queue) size_bytes)
  ReceiverIs n other (at (RecvPoint.chunk_got s size out)) =
      (s ≡ side)
      × (size ≡ length bytes)
      × (out ++ drop (length out) bytes ≡ bytes)
      × (length out ≤ length bytes)
      × (n.receiver_asleep ≡ false)
  ReceiverIs n other (at (RecvPoint.data_wait s size out)) =
      (s ≡ side)
      × (size ≡ length bytes)
      × (out ++ drop (length out) bytes ≡ bytes)
      × (length out < length bytes)
      × (n.receiver_asleep ≡ (length n.queue == 0))
  ReceiverIs n other (finished (b, out)) =
      (b ≡ length bytes) × (out ≡ bytes) × (n.receiver_asleep ≡ false)

  -- Without a buffer neither side gets past the synchronisation before the other has come.
  pub record Met (l : Link) : Type 0 where
    pub sender_first : buffered ≡ false → is_ready l.sender ≡ true → recv_early l.receiver ≡ true
    pub receiver_first : buffered ≡ false → is_ready l.receiver ≡ true → send_early l.sender ≡ true

  pub record Inv (l : Link) : Type 0 where
    pub stream : l.queue ++ unsent_wire l.sender ≡ pending_wire l.receiver
    pub fits : length l.queue ≤ channel_bufsize
    pub sender_is : SenderIs l.net l.receiver l.sender
    pub receiver_is : ReceiverIs l.net l.sender l.receiver
    pub met : Met l

  -- how much is left to do, at most
  abbrev send_weight : Task SendPoint ℕ → ℕ
  send_weight ready = 3
  send_weight (at SendPoint.synchronized) = 2
  send_weight (at (SendPoint.header _)) = 1
  send_weight (at (SendPoint.chunk_sent _ _)) = 1
  send_weight (at (SendPoint.data_wait _ _)) = 0
  send_weight (finished _) = 0

  abbrev recv_weight : Task RecvPoint Received → ℕ
  recv_weight ready = 4
  recv_weight (at RecvPoint.synchronized) = 3
  recv_weight (at (RecvPoint.header _)) = 2
  recv_weight (at (RecvPoint.chunk_got _ _ _)) = 1
  recv_weight (at (RecvPoint.data_wait _ _ _)) = 0
  recv_weight (finished _) = 0

  abbrev pub send_measure : Task SendPoint ℕ → ℕ
  send_measure t = 2 * length (unsent_wire t) + send_weight t

  abbrev pub recv_measure : Task RecvPoint Received → ℕ
  recv_measure t = 2 * length (pending_wire t) + recv_weight t

  abbrev pub after_sender : Link → Task SendPoint ℕ × Net → Link
  after_sender l (t, n) = record l { net = n; sender = t }

  abbrev pub after_receiver : Link → Task RecvPoint Received × Net → Link
  after_receiver l (t, n) = record l { net = n; receiver = t }

-- ===== src/Transfer/Traffic.antt =====
-- Any number of messages over one channel, interleaved: one thread calls channel_send again and again,
-- the other channel_recv with a buffer (modules/csp/csp.c). As in System.antt the scheduler picks any
-- thread that does not sleep, and the picked thread runs to its next pause.
pub mod Held
pub mod Takes
pub mod Puts
pub mod Receives
pub mod Sends
pub mod Steps
pub mod Order
pub mod Alive
pub mod Walk
pub mod Unmet
pub mod Drained
use riot_csp_module.Common.{ℕ, ◌+◌, ◌≤◌, ◌<◌, ◌≡◌, true, List, [], ◌∷◌, ◌++◌, length}
use riot_csp_module.Riot.{Riot}
use riot_csp_module.Channel.{World, channel_get_rb, size_bytes}
use riot_csp_module.Sched.{Outcome, done, paused}
use riot_csp_module.Send.{SendPoint, channel_send, send_resume}
use riot_csp_module.Recv.{RecvPoint, Received, channel_recv, recv_resume}
use riot_csp_module.Transfer.{Task, ready, at, finished, task_of}
use riot_csp_module.Transfer.Shows.{Parties, Shows}
use riot_csp_module.Transfer.System.{Picks, on, data_message, idle_net}

-- The calls of both threads, the message of the last send, the messages of all sends in their order, and
-- the bytes of the receives that returned, in their order.
pub record Traffic (R : Riot) : Type 0 where
  pub world : World R
  pub sender : Task SendPoint ℕ
  pub message : List ℕ
  pub receiver : Task RecvPoint Received
  pub sent : List (List ℕ)
  pub got : List (List ℕ)

-- The thread is not in the middle of a call.
abbrev pub IsFree : {L A : Type 0} → Task L A → Type 0
IsFree ready = Unit
IsFree (at point) = ⊥
IsFree (finished result) = Unit

-- what a receive that stopped adds to what was received
abbrev pub collect : List (List ℕ) → Outcome RecvPoint Received → List (List ℕ)
collect got (done (data_size, out)) = got ++ (out ∷ [])
collect got (paused p l) = got

module _ {R : Riot} where
  abbrev pub begin_send : Traffic R → List ℕ → Outcome SendPoint ℕ × World R → Traffic R
  begin_send s bytes (o, w) = record s {
    world = w;
    sender = task_of o;
    message = bytes;
    sent = s.sent ++ (bytes ∷ []);
  }

  abbrev pub after_send : Traffic R → Outcome SendPoint ℕ × World R → Traffic R
  after_send s (o, w) = record s { world = w; sender = task_of o }

  abbrev pub after_recv : Traffic R → Outcome RecvPoint Received × World R → Traffic R
  after_recv s (o, w) = record s { world = w; receiver = task_of o; got = collect s.got o }

  module _ (p : Parties) where
    -- A send is called when the file has room for the message with its size.
    pub data Step (s : Traffic R) : Traffic R → Type 0 where
      sends :
          (k : R.State) (bytes : List ℕ)
          → Picks p.sender s.world k
          → IsFree s.sender
          → 0 < length bytes
          → size_bytes + length bytes ≤ R.rb_avail (channel_get_rb p.side s.world.chan)
          → Step s (begin_send s bytes (channel_send (data_message bytes) (on k s.world)))
      send_goes_on :
          (k : R.State) (point : SendPoint)
          → Picks p.sender s.world k
          → s.sender ≡ at point
          → Step s (after_send s (send_resume (data_message s.message) point (on k s.world)))
      receives :
          (k : R.State)
          → Picks p.receiver s.world k
          → IsFree s.receiver
          → Step s (after_recv s (channel_recv true (on k s.world)))
      recv_goes_on :
          (k : R.State) (point : RecvPoint)
          → Picks p.receiver s.world k
          → s.receiver ≡ at point
          → Step s (after_recv s (recv_resume true point (on k s.world)))

    pub data Run (s : Traffic R) : Traffic R → Type 0 where
      here : Run s s
      next : {t u : Traffic R} → Run s t → Step t u → Run s u

    -- Nothing was sent or received yet, the file is empty and nobody sleeps.
    pub record IsFresh (s : Traffic R) : Type 0 where
      pub shows : Shows p idle_net s.world
      pub no_send : s.sender ≡ ready
      pub no_recv : s.receiver ≡ ready
      pub none_sent : s.sent ≡ []
      pub none_got : s.got ≡ []

-- ===== src/Transfer/System.antt =====
-- Two threads over one channel, interleaved: one calls channel_send with a message, the other
-- channel_recv with a buffer (modules/csp/csp.c). The scheduler picks any thread that does not
-- sleep; the picked thread runs to its next pause.
pub mod Picked
pub mod Simulation
use riot_csp_module.Common.{ℕ, suc, ◌≡◌, ◌≢◌, true, false, List, [], length, some}
use riot_csp_module.Riot.{Riot, sleeping}
use riot_csp_module.Channel.{World}
use riot_csp_module.Sched.{Outcome}
use riot_csp_module.Send.{Message, SendPoint, channel_send, send_resume}
use riot_csp_module.Recv.{RecvPoint, Received, channel_recv, recv_resume}
use riot_csp_module.Transfer.{Net, Task, ready, at, task_of}
use riot_csp_module.Transfer.Shows.{Parties, Shows}

pub record System (R : Riot) : Type 0 where
  pub world : World R
  pub sender : Task SendPoint ℕ
  pub receiver : Task RecvPoint Received

abbrev pub idle_net : Net
idle_net = record { queue = []; sender_asleep = false; receiver_asleep = false }

-- the message, of as many bytes as the data has
abbrev pub data_message : List ℕ → Message
data_message bytes = record { data_size = length bytes; payload = some bytes }

module _ {R : Riot} where
  -- The kernel picks thread `t`: it did not sleep and now runs, and no state of a thread changes.
  pub record Picks (t : ℕ) (w : World R) (k : R.State) : Type 0 where
    pub awake : R.status w.kern t ≢ sleeping
    pub running : R.getpid k ≡ t
    pub states : (u : ℕ) → R.status k u ≡ R.status w.kern u
    pub in_thread : R.irq_is_in k ≡ false

  abbrev pub on : R.State → World R → World R
  on k w = record w { kern = k }

  abbrev pub after_send : System R → Outcome SendPoint ℕ × World R → System R
  after_send s (o, w) = record s { world = w; sender = task_of o }

  abbrev pub after_recv : System R → Outcome RecvPoint Received × World R → System R
  after_recv s (o, w) = record s { world = w; receiver = task_of o }

  module _ (p : Parties) (bytes : List ℕ) where
    pub data Step (s : System R) : System R → Type 0 where
      sends :
          (k : R.State)
          → Picks p.sender s.world k
          → s.sender ≡ ready
          → Step s (after_send s (channel_send (data_message bytes) (on k s.world)))
      send_goes_on :
          (k : R.State) (point : SendPoint)
          → Picks p.sender s.world k
          → s.sender ≡ at point
          → Step s (after_send s (send_resume (data_message bytes) point (on k s.world)))
      receives :
          (k : R.State)
          → Picks p.receiver s.world k
          → s.receiver ≡ ready
          → Step s (after_recv s (channel_recv true (on k s.world)))
      recv_goes_on :
          (k : R.State) (point : RecvPoint)
          → Picks p.receiver s.world k
          → s.receiver ≡ at point
          → Step s (after_recv s (recv_resume true point (on k s.world)))

    -- `n` steps lead from one state to another.
    pub data Run (s : System R) : ℕ → System R → Type 0 where
      here : Run s 0 s
      next : {n : ℕ} {t u : System R} → Run s n t → Step t u → Run s (suc n) u

    -- Nobody has called, the file is empty and nobody sleeps.
    pub record IsFresh (s : System R) : Type 0 where
      pub shows : Shows p idle_net s.world
      pub no_send : s.sender ≡ ready
      pub no_recv : s.receiver ≡ ready

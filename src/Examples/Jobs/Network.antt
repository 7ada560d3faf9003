-- ===== src/Examples/Jobs/Network.antt =====
-- Programs that call one another over buffered channels, in any order of their calls
-- (examples/workergroups/main.c). A channel holds its messages in their order, for each direction,
-- and a call is one step: a send when the file has room for the message, a receive when one is there.
use riot_csp_module.Common.{
  ℕ, suc, ◌+◌, ◌*◌, ◌<◌, ◌≡◌, List, [], ◌∷◌, ◌++◌, length, ◌==◌, if◌then◌else◌,
}
use riot_csp_module.Examples.Jobs.{
  Who, main_thread, worker_0, worker_1, Chan, jobs, results, Value, Prog, sends, receives,
}

abbrev pub num : Who → ℕ
num main_thread = 0
num worker_0 = 1
num worker_1 = 2

abbrev pub chan_num : Chan → ℕ
chan_num jobs = 0
chan_num results = 1

-- the queue from one thread to another over a channel
abbrev pub key : Who → Who → Chan → ℕ
key from to l = (num from * 3 + num to) * 2 + chan_num l

-- a CHANNEL_BUFSIZE of 32 holds four messages of four bytes with their sizes
abbrev pub most : ℕ
most = 4

abbrev pub put : {A : Type 0} → ℕ → A → (ℕ → A) → ℕ → A
put at x f k = if k == at then x else f k

pub record Group : Type 0 where
  pub progs : ℕ → Prog
  pub queues : ℕ → List Value

-- Thread `i` goes on with `p`, and queue `at` holds `q`.
abbrev pub after : ℕ → Prog → ℕ → List Value → Group → Group
after i p at q s = record { progs = put i p s.progs; queues = put at q s.queues }

-- A thread makes its next call: a send when the file has room, a receive when there is a message.
pub data Step (w : Who) (s : Group) : Group → Type 0 where
  sent :
      (j : Who) (l : Chan) (v : Value) (p : Prog)
      → s.progs (num w) ≡ sends j l v p
      → length (s.queues (key w j l)) < most
      → Step w s (after (num w) p (key w j l) (s.queues (key w j l) ++ (v ∷ [])) s)
  got :
      (j : Who) (l : Chan) (next : Value → Prog) (v : Value) (rest : List Value)
      → s.progs (num w) ≡ receives j l next
      → s.queues (key j w l) ≡ v ∷ rest
      → Step w s (after (num w) (next v) (key j w l) rest s)

-- `n` calls lead from one state to another.
pub data Runs : Group → ℕ → Group → Type 0 where
  here : {s : Group} → Runs s 0 s
  first : {s t u : Group} {n : ℕ} (w : Who) → Step w s t → Runs t n u → Runs s (suc n) u

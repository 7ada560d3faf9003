-- ===== src/Transfer/Talk.antt =====
-- Messages in both directions over one channel, one after the other: each is passed by one thread that
-- calls channel_send and the other that calls channel_recv (modules/csp/csp.c), in any order of their
-- steps.
pub mod Other
pub mod Heard
pub mod Completed
use riot_csp_module.Common.{
  ℕ, ◌^◌, ◌<◌, ◌≡◌, ◌≢◌, sym, ap, ◌∙◌, Bool, true, false, not, List, [], ◌∷◌, ◌++◌, length, ◌==◌,
}
use riot_csp_module.Riot.{Riot}
use riot_csp_module.Channel.{World}
use riot_csp_module.Recv.{Received}
use riot_csp_module.Transfer.{finished, ready}
use riot_csp_module.Transfer.Shows.{Parties, Shows}
use riot_csp_module.Transfer.System.{System, Run, idle_net}

pub not-not : (b : Bool) → not (not b) ≡ b
not-not true = λ i. true
not-not false = λ i. false

-- The same channel with sender and receiver the other way round.
abbrev pub reverse : Parties → Parties
reverse p = record {
  sender = p.receiver;
  receiver = p.sender;
  creator = p.creator;
  flags = p.flags;
  side = not p.side;
  buffered = p.buffered;
  apart = λ e. p.apart (sym e);
  send_side = sym (not-not (p.creator == p.receiver)) ∙ ap not p.recv_side;
  recv_side = ap not p.send_side;
  not_closed = p.not_closed;
  is_buffered = p.is_buffered;
}

-- from the first thread to the second, or back
abbrev pub toward : Parties → Bool → Parties
toward p true = p
toward p false = reverse p

-- what is said: which way, and the bytes
abbrev pub Said : Type 0
Said = Bool × List ℕ

module _ {R : Riot} where
  -- Both files are empty and nobody sleeps.
  pub record IsQuiet (p : Parties) (w : World R) : Type 0 where
    pub there : Shows p idle_net w
    pub back : Shows (reverse p) idle_net w

  -- From one world to another: the messages sent, and what the receives returned, in their order. Between
  -- two messages nothing happens, and within one the two threads take their steps in any order, until
  -- both calls have returned.
  pub data Talk (p : Parties) (w : World R)
      : List Said → List (Bool × Received) → World R → Type 0 where
    silent : Talk p w [] [] w
    says :
        {said : List Said} {heard : List (Bool × Received)} {n : ℕ} (way : Bool) (bytes : List ℕ)
        (s t : System R) (sent : ℕ) (got : Received)
        → Talk p w said heard s.world
        → s.sender ≡ ready
        → s.receiver ≡ ready
        → 0 < length bytes
        → length bytes < 2 ^ 32
        → Run (toward p way) bytes s n t
        → t.sender ≡ finished sent
        → t.receiver ≡ finished got
        → Talk p w (said ++ ((way, bytes) ∷ [])) (heard ++ ((way, got) ∷ [])) t.world

-- ===== src/Transfer/Traffic/Sends.antt =====
-- A step of channel_send (modules/csp/csp.c) keeps the account of the messages.
use riot_csp_module.Common.{
  ℕ, ◌+◌, ◌≤◌, ◌<◌, ◌≡◌, refl, true, false, arith, inl, inr, List, [], ◌∷◌, length, subst, ==_refl,
  Bool-cases,
}
use riot_csp_module.Riot.{Riot}
use riot_csp_module.Channel.{World, size_bytes}
use riot_csp_module.Sched.{read_blocked}
use riot_csp_module.Send
use riot_csp_module.Send.{SendPoint}
use riot_csp_module.Send.Refines.{channel_send-Agrees, send_resume-Agrees}
use riot_csp_module.Transfer
use riot_csp_module.Transfer.{Net, Task, ready, at, finished, task_of, room}
use riot_csp_module.Transfer.Starts.{send_start_buffered, send_start_first, send_start_second}
use riot_csp_module.Transfer.Shows.{Parties, Shows, Agrees}
use riot_csp_module.Transfer.System.{Picks, on, data_message}
use riot_csp_module.Transfer.System.Picked.{on-Shows, picked-awake}
use riot_csp_module.Transfer.Traffic.Held.{Sending, idle, meets, returns, busy, Holds}
use riot_csp_module.Transfer.Traffic.Puts.{puts, meets_at, finishes, called, Called}
use riot_csp_module.Transfer.Traffic.{Traffic, begin_send, after_send}

module _ {R : Riot} (p : Parties) where
  open p use {side, buffered}

  -- A send over a buffered channel does not wait to synchronise.
  pub record Kept (s : Traffic R) : Type 0 where
    pub waiting : List (List ℕ)
    pub holds : Holds p waiting s
    pub at_once : buffered ≡ true → waiting ≡ []

  module _ (waiting : List (List ℕ)) (s : Traffic R) (h : Holds p waiting s)
      (at_once : buffered ≡ true → waiting ≡ []) where
    -- The sender goes on: it waits at its synchronisation, or stands behind its chunk.
    pub send_goes_on_Kept :
        (k : R.State) (point : SendPoint)
        → Picks p.sender s.world k
        → s.sender ≡ at point
        → Sending side s.sender s.message (room h.net) waiting
        → Kept (after_send s (Send.send_resume (data_message s.message) point (on k s.world)))
    unfolding Transfer.send_resume
    send_goes_on_Kept k point c e (idle free _) = absurd (busy s.sender point e free)
    send_goes_on_Kept k point c e (meets e' one pos fits) =
        let here_it_is : point ≡ SendPoint.synchronized = cc in
        rw here_it_is (record {
          waiting = [];
          holds =
              puts p waiting s h _ one pos fits
                (picked-awake read_blocked p.sender h.net.sender_asleep s.world c.awake
                  h.shows.sender_is)
                (send_resume-Agrees p (data_message s.message) SendPoint.synchronized h.net
                  (on k s.world) tt c.running (on-Shows p p.sender h.net s.world k c h.shows));
          at_once = λ _. refl;
        })
    send_goes_on_Kept k point c e (returns e' none_waits) =
        let here_it_is : point ≡ SendPoint.chunk_sent side (length s.message) = cc in
        rw here_it_is (record {
          waiting = waiting;
          holds = finishes p waiting s h _ none_waits (
              subst
                (λ t. Agrees p t (
                  Send.send_resume (data_message s.message)
                    (SendPoint.chunk_sent side (length s.message)) (on k s.world)))
                (rw (==_refl (length s.message)))
                (send_resume-Agrees p (data_message s.message)
                  (SendPoint.chunk_sent side (length s.message)) h.net (on k s.world) refl c.running
                  (on-Shows p p.sender h.net s.world k c h.shows)));
          at_once = at_once;
        })

  -- A send begins.
  pub sends_Kept :
      (s : Traffic R) (bytes : List ℕ) (first : Called p s bytes) (w : World R)
      → R.getpid w.kern ≡ p.sender
      → Shows p first.holds.net w
      → 0 < length bytes
      → size_bytes + length bytes ≤ room first.holds.net
      → first.holds.net.sender_asleep ≡ false
      → Kept (begin_send s bytes (Send.channel_send (data_message bytes) w))
  sends_Kept s bytes first w me shows pos fits runs =
      let h = first.holds in
      let agrees = channel_send-Agrees p (data_message bytes) h.net w me shows in
      elim (Bool-cases buffered) [
        | inl b ↦ record {
          waiting = [];
          holds = puts p (bytes ∷ []) (called s bytes) h _ refl pos fits runs (
              subst (λ t. Agrees p t (Send.channel_send (data_message bytes) w))
                (send_start_buffered side buffered h.net (data_message bytes) b) agrees);
          at_once = λ _. refl;
        }
        | inr u ↦ record {
          waiting = bytes ∷ [];
          holds = elim (Bool-cases h.net.receiver_asleep) [
            | inl asleep ↦
                meets_at p (bytes ∷ []) (called s bytes) h _ _ u refl refl pos fits
                  (record {
                    one_awake = λ _. refl;
                    answered = λ _ _ _. (omega arith, runs);
                    asleep_waits = λ _. omega arith;
                    asleep_early = λ q. absurd cc;
                  })
                  (subst (λ t. Agrees p t (Send.channel_send (data_message bytes) w))
                    (send_start_second side buffered h.net (data_message bytes) u asleep) agrees)
            | inr awake ↦
                meets_at p (bytes ∷ []) (called s bytes) h _ _ u refl refl pos fits
                  (record {
                    one_awake = λ _. awake;
                    answered = λ early a none_left. absurd (first.finds early a none_left);
                    asleep_waits = λ _. omega arith;
                    asleep_early = λ q. absurd cc;
                  })
                  (subst (λ t. Agrees p t (Send.channel_send (data_message bytes) w))
                    (send_start_first side buffered h.net (data_message bytes) u awake) agrees)
          ];
          at_once = λ b. absurd cc;
        }
      ]

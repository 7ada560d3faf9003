-- ===== src/Transfer/Traffic/Steps.antt =====
-- A step of the sends and receives over a channel (channel_send and channel_recv of modules/csp/csp.c) keeps
-- the account of the messages.
use riot_csp_module.Common.{◌+◌, ◌≤◌, refl, sym, [], length, subst}
use riot_csp_module.Riot.{Riot}
use riot_csp_module.Channel.{size_bytes}
use riot_csp_module.Sched.{read_blocked, write_blocked}
use riot_csp_module.Transfer.{room}
use riot_csp_module.Transfer.Shows.{Parties}
use riot_csp_module.Transfer.Shows.File.{avail_same}
use riot_csp_module.Transfer.System.{on, idle_net}
use riot_csp_module.Transfer.System.Picked.{on-Shows, picked-awake}
use riot_csp_module.Transfer.Traffic.Held.{idle, at_rest, none_waiting, in_hand, Holds, IsEarly}
use riot_csp_module.Transfer.Traffic.Puts.{Holds-Called}
use riot_csp_module.Transfer.Traffic.{
  Traffic, IsFree, Step, sends, send_goes_on, receives, recv_goes_on, Run, here, next, IsFresh,
}
use riot_csp_module.Transfer.Traffic.Sends.{Kept, send_goes_on_Kept, sends_Kept}
use riot_csp_module.Transfer.Traffic.Receives.{recv_goes_on_Holds, receives_Holds}

module _ {R : Riot} (p : Parties) where
  open p use {side, buffered}

  Step-Kept : {s t : Traffic R} → Kept p s → Step p s t → Kept p t
  Step-Kept {s} q (sends k bytes c free pos fits) =
      let h = subst (λ z. Holds p z s) (none_waiting side free q.holds.sending) q.holds in
      let first = Holds-Called p s bytes h pos (fits_in h) in
      let w = on-Shows p p.sender first.holds.net s.world k c first.holds.shows in
      sends_Kept p s bytes first (on k s.world) c.running w pos
        (subst (λ n. size_bytes + length bytes ≤ n) (avail_same p first.holds.net _ w) fits)
        (picked-awake read_blocked p.sender first.holds.net.sender_asleep s.world c.awake
          first.holds.shows.sender_is)
    where
      fits_in : (h : Holds p [] s) → size_bytes + length bytes ≤ room h.net
      fits_in h =
          subst (λ n. size_bytes + length bytes ≤ n) (avail_same p h.net s.world h.shows) fits
  Step-Kept {s} q (send_goes_on k point c e) =
      send_goes_on_Kept p q.waiting s q.holds q.at_once k point c e q.holds.sending
  Step-Kept {s} q (receives k c free) = record {
    waiting = q.waiting;
    holds =
        receives_Holds p q.waiting s q.holds (on k s.world) c.running
          (on-Shows p p.receiver q.holds.net s.world k c q.holds.shows)
          ((in_hand side q.holds.receiving).1 free)
          (picked-awake write_blocked p.receiver q.holds.net.receiver_asleep s.world c.awake
            q.holds.shows.receiver_is);
    at_once = q.at_once;
  }
  Step-Kept {s} q (recv_goes_on k point c e) = record {
    waiting = q.waiting;
    holds = recv_goes_on_Holds p q.waiting s q.holds k point c e q.holds.receiving;
    at_once = q.at_once;
  }

  pub fresh-Kept : {s : Traffic R} → IsFresh p s → Kept p s
  fresh-Kept {s} f = record {
    waiting = [];
    holds = record {
      net = idle_net;
      ms = [];
      hand = [];
      shows = f.shows;
      queue_same = refl;
      sized = tt;
      order = rw (f.none_sent, f.none_got) refl;
      sending = idle (subst IsFree (sym f.no_send) tt) refl;
      receiving = at_rest (subst IsFree (sym f.no_recv) tt) refl;
      sender_awake = λ _. refl;
      receiver_alert = λ _ _. refl;
      alert = record {
        one_awake = λ q. absurd cc;
        answered = λ early. absurd (subst IsEarly f.no_recv early);
        asleep_waits = λ q. absurd cc;
        asleep_early = λ q. absurd cc;
      };
    };
    at_once = λ _. refl;
  }

  pub Run-Kept : {s t : Traffic R} → Kept p s → Run p s t → Kept p t
  Run-Kept q here = q
  Run-Kept q (next run step) = Step-Kept (Run-Kept q run) step

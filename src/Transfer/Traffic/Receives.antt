-- ===== src/Transfer/Traffic/Receives.antt =====
-- A step of channel_recv (modules/csp/csp.c) keeps the account of the messages.
use riot_csp_module.Common.{
  ℕ, ◌≡◌, refl, sym, true, false, inl, inr, List, [], length, subst, ==_refl, Bool-cases,
}
use riot_csp_module.Riot.{Riot}
use riot_csp_module.Channel.{World}
use riot_csp_module.Sched.{write_blocked}
use riot_csp_module.Recv
use riot_csp_module.Recv.{RecvPoint, Received}
use riot_csp_module.Recv.Refines.{channel_recv-Agrees, recv_resume-Agrees}
use riot_csp_module.Transfer
use riot_csp_module.Transfer.{Net, Task, ready, at, finished, task_of, room}
use riot_csp_module.Transfer.Starts.{recv_start_buffered, recv_start_first, recv_start_second}
use riot_csp_module.Transfer.Shows.{Parties, Shows, Agrees}
use riot_csp_module.Transfer.System.{Picks, on}
use riot_csp_module.Transfer.System.Picked.{on-Shows, picked-awake}
use riot_csp_module.Transfer.Traffic.Held.{
  Receiving, at_rest, comes, waits, stores, busy, Holds, IsEarly,
}
use riot_csp_module.Transfer.Traffic.Takes.{looks, comes_to, hands_over}
use riot_csp_module.Transfer.Traffic.{Traffic, after_recv}

module _ {R : Riot} (p : Parties) where
  open p use {side, buffered}

  module _ (waiting : List (List ℕ)) (s : Traffic R) (h : Holds p waiting s) where
    -- a receiver that runs and finds no message: the sender has one and does not sleep
    quiet :
        (k : R.State)
        → Picks p.receiver s.world k
        → IsEarly s.receiver
        → h.ms ≡ []
        → h.net.sender_asleep ≡ false
    quiet k c early none_left =
        (h.alert.answered early
          (picked-awake write_blocked p.receiver h.net.receiver_asleep s.world c.awake
            h.shows.receiver_is)
          none_left).1

    up : (k : R.State) → Picks p.receiver s.world k → h.net.receiver_asleep ≡ false
    up k c =
        picked-awake write_blocked p.receiver h.net.receiver_asleep s.world c.awake
          h.shows.receiver_is

    pub recv_goes_on_Holds :
        (k : R.State) (point : RecvPoint)
        → Picks p.receiver s.world k
        → s.receiver ≡ at point
        → Receiving side s.receiver h.hand
        → Holds p waiting (after_recv s (Recv.recv_resume true point (on k s.world)))
    unfolding Transfer.recv_resume
    recv_goes_on_Holds k point c e (at_rest free _) = absurd (busy s.receiver point e free)
    recv_goes_on_Holds k point c e (comes e' empty) =
        let same : point ≡ RecvPoint.synchronized = cc in
        let early : IsEarly s.receiver = subst IsEarly (sym e') tt in
        rw same (
          looks p waiting s h _ h.ms refl empty (up k c) (quiet k c early) (
            recv_resume-Agrees p RecvPoint.synchronized h.net (on k s.world) tt c.running
              (on-Shows p p.receiver h.net s.world k c h.shows)))
    recv_goes_on_Holds k point c e (waits e' empty) =
        let same : point ≡ RecvPoint.header side = cc in
        let early : IsEarly s.receiver = subst IsEarly (sym e') tt in
        rw same (
          looks p waiting s h _ h.ms refl empty (up k c) (quiet k c early) (
            recv_resume-Agrees p (RecvPoint.header side) h.net (on k s.world) refl c.running
              (on-Shows p p.receiver h.net s.world k c h.shows)))
    recv_goes_on_Holds k point c e (stores out e' hand) =
        let stands : RecvPoint = RecvPoint.chunk_got side (length out) out in
        let same : point ≡ stands = cc in
        rw same (
          hands_over p waiting s h _ out hand (up k c) (
            subst (λ t. Agrees p t (Recv.recv_resume true stands (on k s.world)))
              (rw (==_refl (length out)))
              (recv_resume-Agrees p stands h.net (on k s.world) refl c.running
                (on-Shows p p.receiver h.net s.world k c h.shows))))

    -- A receive begins.
    pub receives_Holds :
        (w : World R)
        → R.getpid w.kern ≡ p.receiver
        → Shows p h.net w
        → h.hand ≡ []
        → h.net.receiver_asleep ≡ false
        → Holds p waiting (after_recv s (Recv.channel_recv true w))
    receives_Holds w me shows empty runs_now = elim (Bool-cases buffered) [
      | inl b ↦
          looks p waiting s h _ h.ms refl empty runs_now (λ _. h.sender_awake b)
            (subst (λ t. Agrees p t (Recv.channel_recv true w))
              (recv_start_buffered side buffered h.net b) (channel_recv-Agrees p h.net w me shows))
      | inr u ↦ elim (Bool-cases h.net.sender_asleep) [
        | inl asleep ↦
            comes_to p waiting s h _ _ u refl empty
              (record {
                one_awake = λ q. absurd cc;
                answered = λ _ _ _. (h.alert.asleep_waits asleep, refl);
                asleep_waits = λ q. absurd cc;
                asleep_early = λ _. tt;
              })
              (subst (λ t. Agrees p t (Recv.channel_recv true w))
                (recv_start_second side buffered h.net u asleep)
                (channel_recv-Agrees p h.net w me shows))
        | inr awake ↦
            comes_to p waiting s h _ _ u refl empty
              (record {
                one_awake = λ q. absurd cc;
                answered = λ _ q. absurd cc;
                asleep_waits = λ q. absurd cc;
                asleep_early = λ _. tt;
              })
              (subst (λ t. Agrees p t (Recv.channel_recv true w))
                (recv_start_first side buffered h.net u awake)
                (channel_recv-Agrees p h.net w me shows))
      ]
    ]

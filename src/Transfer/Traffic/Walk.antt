-- ===== src/Transfer/Traffic/Walk.antt =====
-- Runs of sends and receives that are followed on the specification: what a run has led to, and the four
-- steps that lead it on (channel_send and channel_recv of modules/csp/csp.c).
use riot_csp_module.Common.{
  ℕ, ◌+◌, ◌≤◌, ◌<◌, ◌≡◌, refl, sym, ap, ◌∙◌, false, List, [], ◌∷◌, ◌++◌, length, subst,
}
use riot_csp_module.Riot.{Riot}
use riot_csp_module.Channel.{World, size_bytes}
use riot_csp_module.Sched.{Outcome, read_blocked, write_blocked}
use riot_csp_module.Send.{SendPoint}
use riot_csp_module.Send.Refines.{SendsOn, channel_send-Agrees, send_resume-Agrees}
use riot_csp_module.Recv.{RecvPoint, Received}
use riot_csp_module.Recv.Refines.{ReceivesOn, channel_recv-Agrees, recv_resume-Agrees}
use riot_csp_module.Transfer
use riot_csp_module.Transfer.{Net, Task, at, finished, room}
use riot_csp_module.Transfer.Shows.{Parties, Shows, Agrees}
use riot_csp_module.Transfer.Shows.File.{avail_same}
use riot_csp_module.Transfer.System.{Picks, on, data_message}
use riot_csp_module.Transfer.System.Picked.{on-Shows}
use riot_csp_module.Transfer.Delivery.{not_asleep}
use riot_csp_module.Transfer.Delivery.Completed.{Scheduler}
use riot_csp_module.Transfer.Traffic.{
  Traffic, IsFree, sends, send_goes_on, receives, recv_goes_on, Run, next,
}
use riot_csp_module.Transfer.Traffic.Held.{collect-at, collect-finished}

-- What the specification has of the calls, the queue and the sleepers.
pub record View : Type 0 where
  pub net : Net
  pub send : Task SendPoint ℕ
  pub recv : Task RecvPoint Received
  pub message : List ℕ
  pub sent : List (List ℕ)
  pub got : List (List ℕ)

module _ {R : Riot} (p : Parties) where
  open p use {side, buffered}

  -- The traffic is as in the view.
  pub record IsAs (v : View) (t : Traffic R) : Type 0 where
    pub shows : Shows p v.net t.world
    pub send_is : t.sender ≡ v.send
    pub recv_is : t.receiver ≡ v.recv
    pub message_is : t.message ≡ v.message
    pub sent_is : t.sent ≡ v.sent
    pub got_is : t.got ≡ v.got

  turned :
      {L A : Type 0} {x y : Task L A × Net} {r : Outcome L A × World R}
      → x ≡ y
      → Agrees p x r
      → Agrees p y r
  turned {r} e = subst (λ x. Agrees p x r) e

  -- Some run leads to traffic that is as in the view.
  pub record Reaches (s : Traffic R) (v : View) : Type 0 where
    pub last : Traffic R
    pub run : Run p s last
    pub is_as : IsAs v last

  module _ (runs : Scheduler R) {s : Traffic R} {v : View} (r : Reaches s v) where
    open r use {last, run, is_as}

    -- The scheduler picks the sender, if that does not sleep in the view.
    sender_picked :
        v.net.sender_asleep ≡ false
        → (k : R.State) × Picks p.sender last.world k × Shows p v.net (on k last.world)
    sender_picked awake =
        let (k, c) =
          runs p.sender last.world
            (not_asleep read_blocked p.sender _ last.world awake is_as.shows.sender_is) in
        (k, c, on-Shows p p.sender v.net last.world k c is_as.shows)

    receiver_picked :
        v.net.receiver_asleep ≡ false
        → (k : R.State) × Picks p.receiver last.world k × Shows p v.net (on k last.world)
    receiver_picked awake =
        let (k, c) =
          runs p.receiver last.world
            (not_asleep write_blocked p.receiver _ last.world awake is_as.shows.receiver_is) in
        (k, c, on-Shows p p.receiver v.net last.world k c is_as.shows)

    pub calls_send :
        (bytes : List ℕ) (t : Task SendPoint ℕ) (n : Net)
        → v.net.sender_asleep ≡ false
        → IsFree v.send
        → 0 < length bytes
        → size_bytes + length bytes ≤ room v.net
        → Transfer.send_start side buffered (data_message bytes) v.net ≡ (t, n)
        → Reaches s (record v { net = n; send = t; message = bytes; sent = v.sent ++ (bytes ∷ []) })
    calls_send bytes t n awake free pos fits e =
        let (k, c, w) = sender_picked awake in
        let a =
          turned e
            (channel_send-Agrees p (data_message bytes) v.net (on k last.world) c.running w) in
        record {
          last = _;
          run = next run (
              sends k bytes c (subst IsFree (sym is_as.send_is) free) pos
                (subst (λ x. size_bytes + length bytes ≤ x) (sym (avail_same p v.net _ w)) fits));
          is_as = record {
            shows = a.shows;
            send_is = a.task_same;
            recv_is = is_as.recv_is;
            message_is = refl;
            sent_is = ap (λ (z : List (List ℕ)). z ++ (bytes ∷ [])) is_as.sent_is;
            got_is = is_as.got_is;
          };
        }

    pub goes_on_send :
        (point : SendPoint) (t : Task SendPoint ℕ) (n : Net)
        → v.net.sender_asleep ≡ false
        → v.send ≡ at point
        → SendsOn side point
        → Transfer.send_resume side buffered (data_message v.message) point v.net ≡ (t, n)
        → Reaches s (record v { net = n; send = t })
    goes_on_send point t n awake stands on_side e =
        let (k, c, w) = sender_picked awake in
        let a =
          turned
            (ap (λ (m : List ℕ). Transfer.send_resume side buffered (data_message m) point v.net)
                is_as.message_is
              ∙ e)
            (send_resume-Agrees p (data_message last.message) point v.net (on k last.world) on_side
              c.running w) in
        record {
          last = _;
          run = next run (send_goes_on k point c (is_as.send_is ∙ stands));
          is_as = record {
            shows = a.shows;
            send_is = a.task_same;
            recv_is = is_as.recv_is;
            message_is = is_as.message_is;
            sent_is = is_as.sent_is;
            got_is = is_as.got_is;
          };
        }

    pub calls_recv :
        (point : RecvPoint) (n : Net)
        → v.net.receiver_asleep ≡ false
        → IsFree v.recv
        → Transfer.recv_start side buffered v.net ≡ (at point, n)
        → Reaches s (record v { net = n; recv = at point })
    calls_recv point n awake free e =
        let (k, c, w) = receiver_picked awake in
        let a = turned e (channel_recv-Agrees p v.net (on k last.world) c.running w) in
        record {
          last = _;
          run = next run (receives k c (subst IsFree (sym is_as.recv_is) free));
          is_as = record {
            shows = a.shows;
            send_is = is_as.send_is;
            recv_is = a.task_same;
            message_is = is_as.message_is;
            sent_is = is_as.sent_is;
            got_is = collect-at last.got _ point a.task_same ∙ is_as.got_is;
          };
        }

    pub goes_on_recv :
        (point next_point : RecvPoint) (n : Net)
        → v.net.receiver_asleep ≡ false
        → v.recv ≡ at point
        → ReceivesOn side point
        → Transfer.recv_resume side buffered point v.net ≡ (at next_point, n)
        → Reaches s (record v { net = n; recv = at next_point })
    goes_on_recv point next_point n awake stands on_side e =
        let (k, c, w) = receiver_picked awake in
        let a = turned e (recv_resume-Agrees p point v.net (on k last.world) on_side c.running w) in
        record {
          last = _;
          run = next run (recv_goes_on k point c (is_as.recv_is ∙ stands));
          is_as = record {
            shows = a.shows;
            send_is = is_as.send_is;
            recv_is = a.task_same;
            message_is = is_as.message_is;
            sent_is = is_as.sent_is;
            got_is = collect-at last.got _ next_point a.task_same ∙ is_as.got_is;
          };
        }

    pub returns_recv :
        (point : RecvPoint) (result : Received) (n : Net)
        → v.net.receiver_asleep ≡ false
        → v.recv ≡ at point
        → ReceivesOn side point
        → Transfer.recv_resume side buffered point v.net ≡ (finished result, n)
        → Reaches s (record v { net = n; recv = finished result; got = v.got ++ (result.1 ∷ []) })
    returns_recv point result n awake stands on_side e =
        let (k, c, w) = receiver_picked awake in
        let a = turned e (recv_resume-Agrees p point v.net (on k last.world) on_side c.running w) in
        record {
          last = _;
          run = next run (recv_goes_on k point c (is_as.recv_is ∙ stands));
          is_as = record {
            shows = a.shows;
            send_is = is_as.send_is;
            recv_is = a.task_same;
            message_is = is_as.message_is;
            sent_is = is_as.sent_is;
            got_is =
                collect-finished last.got _ result a.task_same
                ∙ ap (λ (z : List (List ℕ)). z ++ (result.1 ∷ [])) is_as.got_is;
          };
        }

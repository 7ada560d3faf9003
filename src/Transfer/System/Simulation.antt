-- ===== src/Transfer/System/Simulation.antt =====
-- The interleaved calls against the moves of the specification of a channel, and the invariant of these
-- along a step.
use riot_csp_module.Common.{ℕ, ◌+◌, ◌^◌, ◌<◌, ◌≡◌, sym, subst, List, length, arith}
use riot_csp_module.Riot.{Riot}
use riot_csp_module.Channel.{World}
use riot_csp_module.Sched.{Outcome, read_blocked, write_blocked}
use riot_csp_module.Send.{SendPoint}
use riot_csp_module.Send.Refines.{SendsOn, channel_send-Agrees, send_resume-Agrees}
use riot_csp_module.Recv.{RecvPoint, Received}
use riot_csp_module.Recv.Refines.{ReceivesOn, channel_recv-Agrees, recv_resume-Agrees}
use riot_csp_module.Transfer.{Net, Task, ready, at}
use riot_csp_module.Transfer.Link.{Inv, SenderIs, ReceiverIs, send_measure, recv_measure}
use riot_csp_module.Transfer.Link.Sender
use riot_csp_module.Transfer.Link.Receiver
use riot_csp_module.Transfer.Shows.{Parties, Shows, Agrees}
use riot_csp_module.Transfer.System.Picked.{picked-awake, on-Shows}
use riot_csp_module.Transfer.System.{
  System, on, after_send, after_recv, data_message, Step, sends, send_goes_on, receives,
  recv_goes_on,
}

module _ (p : Parties) (bytes : List ℕ) where
  SenderIs-SendsOn :
      (n : Net) (o : Task RecvPoint Received) (l : SendPoint)
      → SenderIs p.side p.buffered bytes n o (at l)
      → SendsOn p.side l
  SenderIs-SendsOn n o SendPoint.synchronized h = tt
  SenderIs-SendsOn n o (SendPoint.header _) h = absurd h
  SenderIs-SendsOn n o (SendPoint.chunk_sent _ _) h = h.0
  SenderIs-SendsOn n o (SendPoint.data_wait _ _) h = h.0

  ReceiverIs-ReceivesOn :
      (n : Net) (o : Task SendPoint ℕ) (l : RecvPoint)
      → ReceiverIs p.side p.buffered bytes n o (at l)
      → ReceivesOn p.side l
  ReceiverIs-ReceivesOn n o RecvPoint.synchronized h = tt
  ReceiverIs-ReceivesOn n o (RecvPoint.header _) h = h.0
  ReceiverIs-ReceivesOn n o (RecvPoint.chunk_got _ _ _) h = h.0
  ReceiverIs-ReceivesOn n o (RecvPoint.data_wait _ _ _) h = h.0

  -- The moves of the specification, for a thread whose task is known by an equation.
  sender_known :
      (n : Net) (t t' : Task SendPoint ℕ) (o : Task RecvPoint Received) (r : Task SendPoint ℕ × Net)
      → t ≡ t'
      → (Inv p.side p.buffered bytes (record { net = n; sender = t'; receiver = o })
          → Sender.Kept p.side p.buffered bytes (record { net = n; sender = t'; receiver = o }) r)
      → Inv p.side p.buffered bytes (record { net = n; sender = t; receiver = o })
      → Sender.Kept p.side p.buffered bytes (record { net = n; sender = t; receiver = o }) r
  sender_known n t t' o r e f =
      subst
        (λ z.
          Inv p.side p.buffered bytes (record { net = n; sender = z; receiver = o })
          → Sender.Kept p.side p.buffered bytes (record { net = n; sender = z; receiver = o }) r)
        (sym e) f

  receiver_known :
      (n : Net) (t t' : Task RecvPoint Received) (o : Task SendPoint ℕ)
      (r : Task RecvPoint Received × Net)
      → t ≡ t'
      → (Inv p.side p.buffered bytes (record { net = n; sender = o; receiver = t' })
          → Receiver.Kept p.side p.buffered bytes (record { net = n; sender = o; receiver = t' }) r)
      → Inv p.side p.buffered bytes (record { net = n; sender = o; receiver = t })
      → Receiver.Kept p.side p.buffered bytes (record { net = n; sender = o; receiver = t }) r
  receiver_known n t t' o r e f =
      subst
        (λ z.
          Inv p.side p.buffered bytes (record { net = n; sender = o; receiver = z })
          → Receiver.Kept p.side p.buffered bytes (record { net = n; sender = o; receiver = z }) r)
        (sym e) f

module _ {R : Riot} (p : Parties) where
  module _ (bytes : List ℕ) where
    -- what holds between two steps, with the queue that the world stands for
    pub record Holds (s : System R) : Type 0 where
      pub net : Net
      pub shows : Shows p net s.world
      pub inv :
          Inv p.side p.buffered bytes
            (record { net = net; sender = s.sender; receiver = s.receiver })

    abbrev pub measure : System R → ℕ
    measure s =
        send_measure p.side p.buffered bytes s.sender
        + recv_measure p.side p.buffered bytes s.receiver

    -- A step keeps what holds, and leaves less to do.
    pub record Kept (s u : System R) : Type 0 where
      pub holds : Holds u
      pub less : measure u < measure s

    sent-Kept :
        (s : System R) (h : Holds s) (k : R.State) (r : Task SendPoint ℕ × Net)
        (o : Outcome SendPoint ℕ × World R)
        → Agrees p r o
        → Sender.Kept p.side p.buffered bytes
            (record { net = h.net; sender = s.sender; receiver = s.receiver })
            r
        → Kept s (after_send s o)
    sent-Kept s h k r o a kept = record {
      holds = record {
        net = r.1;
        shows = a.shows;
        inv =
            subst
              (λ t.
                Inv p.side p.buffered bytes
                  (record { net = r.1; sender = t; receiver = s.receiver }))
              (sym a.task_same) kept.inv;
      };
      less =
          subst
            (λ t.
              send_measure p.side p.buffered bytes t
                + recv_measure p.side p.buffered bytes s.receiver
              < measure s)
            (sym a.task_same) (omega (arith, kept.less));
    }

    received-Kept :
        (s : System R) (h : Holds s) (k : R.State) (r : Task RecvPoint Received × Net)
        (o : Outcome RecvPoint Received × World R)
        → Agrees p r o
        → Receiver.Kept p.side p.buffered bytes
            (record { net = h.net; sender = s.sender; receiver = s.receiver })
            r
        → Kept s (after_recv s o)
    received-Kept s h k r o a kept = record {
      holds = record {
        net = r.1;
        shows = a.shows;
        inv =
            subst
              (λ t.
                Inv p.side p.buffered bytes (record { net = r.1; sender = s.sender; receiver = t }))
              (sym a.task_same) kept.inv;
      };
      less =
          subst
            (λ t.
              send_measure p.side p.buffered bytes s.sender + recv_measure p.side p.buffered bytes t
              < measure s)
            (sym a.task_same) (omega (arith, kept.less));
    }

    pub sends_on : (s : System R) (h : Holds s) (l : SendPoint) → s.sender ≡ at l → SendsOn p.side l
    sends_on s h l e =
        SenderIs-SendsOn p bytes h.net s.receiver l
          (subst (λ t. SenderIs p.side p.buffered bytes h.net s.receiver t) e h.inv.sender_is)

    pub receives_on :
        (s : System R) (h : Holds s) (l : RecvPoint) → s.receiver ≡ at l → ReceivesOn p.side l
    receives_on s h l e =
        ReceiverIs-ReceivesOn p bytes h.net s.sender l
          (subst (λ t. ReceiverIs p.side p.buffered bytes h.net s.sender t) e h.inv.receiver_is)

    pub Step-Kept :
        {s u : System R}
        → 0 < length bytes
        → length bytes < 2 ^ 32
        → Step p bytes s u
        → Holds s
        → Kept s u
    Step-Kept {s} pos small (sends k c e) h =
        sent-Kept s h k _ _
          (channel_send-Agrees p (data_message bytes) h.net (on k s.world) c.running
            (on-Shows p p.sender h.net s.world k c h.shows))
          (sender_known p bytes h.net s.sender ready s.receiver _ e
            (Sender.sends-Kept p.side p.buffered bytes h.net s.receiver pos) h.inv)
    Step-Kept {s} pos small (send_goes_on k l c e) h =
        sent-Kept s h k _ _
          (send_resume-Agrees p (data_message bytes) l h.net (on k s.world) (sends_on s h l e)
            c.running (on-Shows p p.sender h.net s.world k c h.shows))
          (sender_known p bytes h.net s.sender (at l) s.receiver _ e
            (Sender.send_goes_on-Kept p.side p.buffered bytes h.net l s.receiver pos (
              picked-awake read_blocked p.sender h.net.sender_asleep s.world c.awake
                h.shows.sender_is))
            h.inv)
    Step-Kept {s} pos small (receives k c e) h =
        received-Kept s h k _ _
          (channel_recv-Agrees p h.net (on k s.world) c.running
            (on-Shows p p.receiver h.net s.world k c h.shows))
          (receiver_known p bytes h.net s.receiver ready s.sender _ e
            (Receiver.receives-Kept p.side p.buffered bytes h.net s.sender pos small) h.inv)
    Step-Kept {s} pos small (recv_goes_on k l c e) h =
        received-Kept s h k _ _
          (recv_resume-Agrees p l h.net (on k s.world) (receives_on s h l e) c.running
            (on-Shows p p.receiver h.net s.world k c h.shows))
          (receiver_known p bytes h.net s.receiver (at l) s.sender _ e
            (Receiver.recv_goes_on-Kept p.side p.buffered bytes h.net l s.sender pos small (
              picked-awake write_blocked p.receiver h.net.receiver_asleep s.world c.awake
                h.shows.receiver_is))
            h.inv)

-- ===== src/Transfer/Talk/Other.antt =====
-- A transfer does not touch the file of the other direction.
use riot_csp_module.Common.{ℕ, ◌^◌, ◌<◌, ◌≡◌, refl, ap, subst, ◌∙◌, Bool, true, not, List, length}
use riot_csp_module.Riot.{Riot}
use riot_csp_module.Channel.{World, channel_get_rb}
use riot_csp_module.Send.{SendPoint, channel_send, send_resume}
use riot_csp_module.Send.Refines.{SendsOn}
use riot_csp_module.Recv.{RecvPoint, channel_recv, recv_resume}
use riot_csp_module.Recv.Refines.{ReceivesOn}
use riot_csp_module.Frame.{frame}
use riot_csp_module.Frame.Calls.{send_side, recv_side, send-frame, recv-frame}
use riot_csp_module.Transfer.{Net}
use riot_csp_module.Transfer.Shows.{Parties, Shows}
use riot_csp_module.Transfer.Shows.File.{sender_is_creator, receiver_is_other}
use riot_csp_module.Transfer.System.{
  System, Step, sends, send_goes_on, receives, recv_goes_on, Run, here, next, on, data_message,
}
use riot_csp_module.Transfer.System.Picked.{on-Shows}
use riot_csp_module.Transfer.System.Simulation.{Holds, Step-Kept, sends_on, receives_on}

module _ {R : Riot} (p : Parties) where
  abbrev pub other_file : World R → R.Rb
  other_file w = channel_get_rb (not p.side) w.chan

  -- what leaves the frame of the file `p.side` alone leaves the other file alone
  other-frame :
      (side : Bool) (w v : World R)
      → side ≡ p.side
      → frame side v ≡ frame side w
      → other_file v ≡ other_file w
  other-frame side w v e h =
      ap (λ (f : ℕ × ℕ × ℕ × R.Rb). f.3) (subst (λ s. frame s v ≡ frame s w) e h)

  send_side-eq :
      (n : Net) (point : SendPoint) (w : World R)
      → SendsOn p.side point
      → R.getpid w.kern ≡ p.sender
      → Shows p n w
      → send_side point w ≡ p.side
  send_side-eq n SendPoint.synchronized w s me h = sender_is_creator p n w me h
  send_side-eq n (SendPoint.header _) w s me h = s
  send_side-eq n (SendPoint.chunk_sent _ _) w s me h = s
  send_side-eq n (SendPoint.data_wait _ _) w s me h = s

  recv_side-eq :
      (n : Net) (point : RecvPoint) (w : World R)
      → ReceivesOn p.side point
      → R.getpid w.kern ≡ p.receiver
      → Shows p n w
      → recv_side point w ≡ p.side
  recv_side-eq n RecvPoint.synchronized w s me h = receiver_is_other p n w me h
  recv_side-eq n (RecvPoint.header _) w s me h = s
  recv_side-eq n (RecvPoint.chunk_got _ _ _) w s me h = s
  recv_side-eq n (RecvPoint.data_wait _ _ _) w s me h = s

  module _ (bytes : List ℕ) where
    Step-other :
        {s t : System R}
        → Step p bytes s t
        → Holds p bytes s
        → other_file t.world ≡ other_file s.world
    Step-other {s} (sends k c e) h =
        other-frame _ (on k s.world) (channel_send (data_message bytes) (on k s.world)).1
          (sender_is_creator p h.net _ c.running (on-Shows p p.sender h.net s.world k c h.shows))
          (send-frame (data_message bytes) SendPoint.synchronized (on k s.world)).0
    Step-other {s} (send_goes_on k point c e) h =
        other-frame _ (on k s.world) (send_resume (data_message bytes) point (on k s.world)).1
          (send_side-eq h.net point _ (sends_on p bytes s h point e) c.running
            (on-Shows p p.sender h.net s.world k c h.shows))
          (send-frame (data_message bytes) point (on k s.world)).2
    Step-other {s} (receives k c e) h =
        other-frame _ (on k s.world) (channel_recv true (on k s.world)).1
          (receiver_is_other p h.net _ c.running (on-Shows p p.receiver h.net s.world k c h.shows))
          (recv-frame true RecvPoint.synchronized (on k s.world)).0
    Step-other {s} (recv_goes_on k point c e) h =
        other-frame _ (on k s.world) (recv_resume true point (on k s.world)).1
          (recv_side-eq h.net point _ (receives_on p bytes s h point e) c.running
            (on-Shows p p.receiver h.net s.world k c h.shows))
          (recv-frame true point (on k s.world)).2

    pub record Along (s t : System R) : Type 0 where
      pub holds : Holds p bytes t
      pub same : other_file t.world ≡ other_file s.world

    pub Run-Along :
        {s t : System R} {n : ℕ}
        → 0 < length bytes
        → length bytes < 2 ^ 32
        → Holds p bytes s
        → Run p bytes s n t
        → Along s t
    Run-Along pos small h here = record { holds = h; same = refl }
    Run-Along pos small h (next run step) =
        let before = Run-Along pos small h run in
        record {
          holds = (Step-Kept p bytes pos small step before.holds).holds;
          same = Step-other step before.holds ∙ before.same;
        }

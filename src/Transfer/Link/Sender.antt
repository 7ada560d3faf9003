-- ===== src/Transfer/Link/Sender.antt =====
-- The moves of the sender: what a turn of its loop does, and that what holds between moves holds
-- again, with less left to do.
mod Turn
pub use Turn.{Kept}
mod Header
use riot_csp_module.Common.{
  ℕ, zero, suc, ◌+◌, ◌-◌, ◌*◌, ◌≤◌, ◌<◌, min, ◌≡◌, ◌≢◌, refl, sym, ap, ◌∙◌, ◌⊎◌, inl, inr, Bool,
  true, false, List, [], ◌++◌, ◌∷◌, length, take, drop, ◌==◌, ltb, arith, some, Bool-cases,
  ==-eq_false_pos, ltb-eq_false, ==-eq_true, length-append, length-take, length-drop, subst,
  take-all, drop-all, take-append-drop, drop-add, append_assoc, if◌then◌else◌,
}
use riot_csp_module.Channel.{channel_bufsize, size_bytes, encode_size, length-encode_size}
use riot_csp_module.Send.{Message, SendPoint, unsent, no_data, no_data-message}
use riot_csp_module.Recv.{RecvPoint, Received}
use riot_csp_module.Transfer.{
  Net, room, Task, ready, at, finished, send_data, send_header, send_synchronized, send_start,
  send_resume,
}
use riot_csp_module.Transfer.Starts.{send_start_buffered, send_start_second, send_start_first}
use riot_csp_module.Transfer.Link.{
  Link, is_ready, recv_early, send_early, message, wire, unsent_wire, pending_wire, SenderIs,
  ReceiverIs, Met, Inv, send_measure, after_sender,
}
use riot_csp_module.Transfer.Link.Sender.Turn.{m, length-wire, turn-Kept}
use riot_csp_module.Transfer.Link.Sender.Header.{synchronized-Kept}

module _ (side buffered : Bool) (bytes : List ℕ) where
  abbrev sender_at : Net → Task SendPoint ℕ → Task RecvPoint Received → Link
  sender_at n s r = record { net = n; sender = s; receiver = r }

  -- Without a buffer: the receiver waits for the sender, or has not come yet.
  meeting-Kept :
      (n : Net) (r : Task RecvPoint Received)
      → buffered ≡ false
      → Inv side buffered bytes (sender_at n ready r)
      → Kept side buffered bytes
          (sender_at n ready r)
          (send_start side buffered (m side buffered bytes) n)
  meeting-Kept n ready u v =
      rw (send_start_first side buffered n (m side buffered bytes) u v.receiver_is) (record {
        inv = record {
          stream = v.stream;
          fits = v.fits;
          sender_is = (u, refl);
          receiver_is = v.receiver_is;
          met = record { sender_first = λ _ _. refl; receiver_first = λ _ _. refl };
        };
        less = omega arith;
      })
  meeting-Kept n (at RecvPoint.synchronized) u v =
      rw (send_start_second side buffered n (m side buffered bytes) u v.receiver_is.1) (record {
        inv = record {
          stream = v.stream;
          fits = v.fits;
          sender_is = (u, v.sender_is);
          receiver_is = (u, refl);
          met = record { sender_first = λ _ _. refl; receiver_first = λ _ _. refl };
        };
        less = omega arith;
      })
  meeting-Kept n (at (RecvPoint.header _)) u v = cc (v.met.sender_first u refl)
  meeting-Kept n (at (RecvPoint.chunk_got _ _ _)) u v = cc (v.met.sender_first u refl)
  meeting-Kept n (at (RecvPoint.data_wait _ _ _)) u v = cc (v.met.sender_first u refl)
  meeting-Kept n (finished _) u v = cc (v.met.sender_first u refl)

  pub sends-Kept :
      (n : Net) (r : Task RecvPoint Received)
      → 0 < length bytes
      → Inv side buffered bytes (sender_at n ready r)
      → Kept side buffered bytes
          (sender_at n ready r)
          (send_start side buffered (m side buffered bytes) n)
  sends-Kept n r h v = elim (Bool-cases buffered) [
    | inl b ↦ rw (send_start_buffered side buffered n (m side buffered bytes) b) (
        synchronized-Kept side buffered bytes (sender_at n ready r) ready h v.stream v.sender_is
          v.receiver_is (λ u. cc (sym b ∙ u)) (omega (arith, length-wire side buffered bytes)))
    | inr u ↦ meeting-Kept n r u v
  ]

  -- A sender that is past its start has met the receiver.
  came :
      (n : Net) (l : SendPoint) (r : Task RecvPoint Received)
      → send_early (at l) ≡ false
      → Inv side buffered bytes (sender_at n (at l) r)
      → buffered ≡ false
      → is_ready r ≡ false
  came n l ready early v u = cc (v.met.receiver_first u refl)
  came n l (at _) early v u = refl
  came n l (finished _) early v u = refl

  receiver_came :
      (r : Task RecvPoint Received) → is_ready r ≡ false → buffered ≡ false → is_ready r ≡ false
  receiver_came r h u = h

  receiver_at :
      (n : Net) (l l' : SendPoint) (r : Task RecvPoint Received)
      → ReceiverIs side buffered bytes n (at l) r
      → ReceiverIs side buffered bytes n (at l') r
  receiver_at n l l' ready h = h
  receiver_at n l l' (at RecvPoint.synchronized) h = h
  receiver_at n l l' (at (RecvPoint.header _)) h = h
  receiver_at n l l' (at (RecvPoint.chunk_got _ _ _)) h = h
  receiver_at n l l' (at (RecvPoint.data_wait _ _ _)) h = h
  receiver_at n l l' (finished _) h = h

  receiver_after :
      (n : Net) (l : SendPoint) (b : ℕ) (r : Task RecvPoint Received)
      → ReceiverIs side buffered bytes n (at l) r
      → ReceiverIs side buffered bytes n (finished b) r
  receiver_after n l b ready h = h
  receiver_after n l b (at RecvPoint.synchronized) h = h
  receiver_after n l b (at (RecvPoint.header _)) h = h
  receiver_after n l b (at (RecvPoint.chunk_got _ _ _)) h = h
  receiver_after n l b (at (RecvPoint.data_wait _ _ _)) h = h
  receiver_after n l b (finished _) h = h

  -- The sender goes on from where it stands, awake.
  pub send_goes_on-Kept :
      (n : Net) (l : SendPoint) (r : Task RecvPoint Received)
      → 0 < length bytes
      → n.sender_asleep ≡ false
      → Inv side buffered bytes (sender_at n (at l) r)
      → Kept side buffered bytes
          (sender_at n (at l) r)
          (send_resume side buffered (m side buffered bytes) l n)
  unfolding send_resume
  send_goes_on-Kept n SendPoint.synchronized r h a v =
      synchronized-Kept side buffered bytes (sender_at n (at SendPoint.synchronized) r)
        (at SendPoint.synchronized) h v.stream a v.receiver_is
        (receiver_came r (sym v.sender_is.1 ∙ a)) (omega (arith, length-wire side buffered bytes))
  send_goes_on-Kept n (SendPoint.header _) r h a v = absurd v.sender_is
  send_goes_on-Kept n (SendPoint.chunk_sent s b) r h a v = elim (Bool-cases (b == length bytes)) [
    | inl all ↦ rw all (record {
      inv = record {
        stream = v.stream;
        fits = v.fits;
        sender_is = (ground arith, a);
        receiver_is = receiver_after n (SendPoint.chunk_sent s b) b r v.receiver_is;
        met = record {
          sender_first = λ u q. cc;
          receiver_first = λ u q. cc (came n (SendPoint.chunk_sent s b) r refl v u);
        };
      };
      less = omega arith;
    })
    | inr more ↦ rw more (
        turn-Kept side buffered bytes (sender_at n (at (SendPoint.chunk_sent s b)) r) b
          (ground (arith, v.sender_is.1)) v.fits v.stream a
          (receiver_at n (SendPoint.chunk_sent s b) (SendPoint.data_wait side b) r v.receiver_is)
          (came n (SendPoint.chunk_sent s b) r refl v) (λ _. omega arith) (omega arith))
  ]
  send_goes_on-Kept n (SendPoint.data_wait s b) r h a v =
      turn-Kept side buffered bytes (sender_at n (at (SendPoint.data_wait s b)) r) b v.sender_is.1
        v.fits v.stream a
        (receiver_at n (SendPoint.data_wait s b) (SendPoint.data_wait side b) r v.receiver_is)
        (came n (SendPoint.data_wait s b) r refl v)
        (λ full. cc (sym a ∙ v.sender_is.2 ∙ ==-eq_true _ _ full)) (omega arith)

-- ===== src/Transfer/Link/Receiver.antt =====
-- The moves of the receiver: what a turn of its loop does, and that what holds between moves holds
-- again, with less left to do.
mod Turn
pub use Turn.{Kept}
mod Header
use riot_csp_module.Common.{
  ℕ, ◌+◌, ◌-◌, ◌*◌, ◌^◌, ◌≤◌, ◌<◌, min, ◌≡◌, refl, sym, ap, subst, ◌∙◌, ◌⊎◌, inl, inr, Bool, true,
  false, List, [], ◌++◌, ◌∷◌, length, take, drop, ◌==◌, ltb, not, arith, Bool-cases,
  ==-eq_false_pos, ==-eq_true, ==-eq_false, ltb-eq_true, ltb-eq_false, length-append, length-take,
  length-drop, take-all, drop-all, drop-add, take-append, drop-append, take-append_exact,
  drop-append_exact, append_assoc, append-nil,
}
use native.Mathlib.Decide.{dec_lt}
use riot_csp_module.Channel.{
  channel_bufsize, size_bytes, encode_size, decode_size, length-encode_size, decode-encode_size,
}
use riot_csp_module.Send.{SendPoint}
use riot_csp_module.Recv.{RecvPoint, Received}
use riot_csp_module.Transfer.{
  Net, Task, ready, at, finished, recv_data, recv_header, recv_start, recv_resume,
}
use riot_csp_module.Transfer.Starts.{recv_start_buffered, recv_start_second, recv_start_first}
use riot_csp_module.Transfer.Link.{
  Link, is_ready, recv_early, send_early, wire, unsent_wire, pending_wire, SenderIs, ReceiverIs,
  Met, Inv, recv_measure, after_receiver,
}
use riot_csp_module.Transfer.Link.Receiver.Turn.{turn-Kept}
use riot_csp_module.Transfer.Link.Receiver.Header.{header-Kept}

module _ (side buffered : Bool) (bytes : List ℕ) where
  abbrev receiver_at : Net → Task SendPoint ℕ → Task RecvPoint Received → Link
  receiver_at n s r = record { net = n; sender = s; receiver = r }

  length-wire : length (wire side buffered bytes) ≡ size_bytes + length bytes
  length-wire =
      omega
        (arith, length-append (encode_size (length bytes)) bytes, length-encode_size (length bytes))

  -- The state of the sender does not depend on where a receiver that was called stands.
  sender_other :
      (n : Net) (l l' : RecvPoint) (s : Task SendPoint ℕ)
      → SenderIs side buffered bytes n (at l) s
      → SenderIs side buffered bytes n (at l') s
  sender_other n l l' ready h = h
  sender_other n l l' (at SendPoint.synchronized) h = h
  sender_other n l l' (at (SendPoint.header _)) h = h
  sender_other n l l' (at (SendPoint.chunk_sent _ _)) h = h
  sender_other n l l' (at (SendPoint.data_wait _ _)) h = h
  sender_other n l l' (finished _) h = h

  sender_after :
      (n : Net) (l : RecvPoint) (r : Received) (s : Task SendPoint ℕ)
      → SenderIs side buffered bytes n (at l) s
      → SenderIs side buffered bytes n (finished r) s
  sender_after n l r ready h = h
  sender_after n l r (at SendPoint.synchronized) h = h
  sender_after n l r (at (SendPoint.header _)) h = h
  sender_after n l r (at (SendPoint.chunk_sent _ _)) h = h
  sender_after n l r (at (SendPoint.data_wait _ _)) h = h
  sender_after n l r (finished _) h = h

  -- With a buffer nobody waits at the synchronisation.
  sender_buffered :
      (n : Net) (l : RecvPoint) (s : Task SendPoint ℕ)
      → buffered ≡ true
      → SenderIs side buffered bytes n ready s
      → SenderIs side buffered bytes n (at l) s
  sender_buffered n l ready b h = h
  sender_buffered n l (at SendPoint.synchronized) b h = cc (sym b ∙ h.0)
  sender_buffered n l (at (SendPoint.header _)) b h = h
  sender_buffered n l (at (SendPoint.chunk_sent _ _)) b h = h
  sender_buffered n l (at (SendPoint.data_wait _ _)) b h = h
  sender_buffered n l (finished _) b h = h

  -- Without a buffer: the sender waits for the receiver, or has not come yet.
  meeting-Kept :
      (n : Net) (s : Task SendPoint ℕ)
      → buffered ≡ false
      → Inv side buffered bytes (receiver_at n s ready)
      → Kept side buffered bytes (receiver_at n s ready) (recv_start side buffered n)
  meeting-Kept n ready u v = rw (recv_start_first side buffered n u v.sender_is) (record {
    inv = record {
      stream = v.stream;
      fits = v.fits;
      sender_is = v.sender_is;
      receiver_is = (u, refl);
      met = record { sender_first = λ _ _. refl; receiver_first = λ _ _. refl };
    };
    less = omega arith;
  })
  meeting-Kept n (at SendPoint.synchronized) u v =
      rw (recv_start_second side buffered n u v.sender_is.1) (record {
        inv = record {
          stream = v.stream;
          fits = v.fits;
          sender_is = (u, refl);
          receiver_is = (u, v.receiver_is);
          met = record { sender_first = λ _ _. refl; receiver_first = λ _ _. refl };
        };
        less = omega arith;
      })
  meeting-Kept n (at (SendPoint.header _)) u v = cc (v.met.receiver_first u refl)
  meeting-Kept n (at (SendPoint.chunk_sent _ _)) u v = cc (v.met.receiver_first u refl)
  meeting-Kept n (at (SendPoint.data_wait _ _)) u v = cc (v.met.receiver_first u refl)
  meeting-Kept n (finished _) u v = cc (v.met.receiver_first u refl)

  pub receives-Kept :
      (n : Net) (s : Task SendPoint ℕ)
      → 0 < length bytes
      → length bytes < 2 ^ 32
      → Inv side buffered bytes (receiver_at n s ready)
      → Kept side buffered bytes (receiver_at n s ready) (recv_start side buffered n)
  receives-Kept n s pos small v = elim (Bool-cases buffered) [
    | inl b ↦ rw (recv_start_buffered side buffered n b) (
        header-Kept side buffered bytes (receiver_at n s ready) pos small v.stream v.fits
          v.receiver_is (sender_buffered n RecvPoint.synchronized s b v.sender_is)
          (λ u. cc (sym b ∙ u)) (λ _. omega arith) (omega (arith, length-wire)))
    | inr u ↦ meeting-Kept n s u v
  ]

  -- A receiver that is past its synchronisation has met the sender.
  came :
      (n : Net) (l : RecvPoint) (s : Task SendPoint ℕ)
      → recv_early (at l) ≡ false
      → Inv side buffered bytes (receiver_at n s (at l))
      → buffered ≡ false
      → is_ready s ≡ false
  came n l ready early v u = cc (v.met.sender_first u refl)
  came n l (at _) early v u = refl
  came n l (finished _) early v u = refl

  ready-if : (s : Task SendPoint ℕ) → is_ready s ≡ false → buffered ≡ false → is_ready s ≡ false
  ready-if s h u = h

  size_same :
      (n : Net) (s : Task SendPoint ℕ) (r : Task RecvPoint Received) (size : ℕ) (out : List ℕ)
      → size ≡ length bytes
      → Kept side buffered bytes (receiver_at n s r) (recv_data side buffered (length bytes) out n)
      → Kept side buffered bytes (receiver_at n s r) (recv_data side buffered size out n)
  size_same n s r size out e k =
      subst (λ z. Kept side buffered bytes (receiver_at n s r) (recv_data side buffered z out n))
        (sym e) k

  all_stored :
      (out : List ℕ)
      → length bytes ≤ length out
      → out ++ drop (length out) bytes ≡ bytes
      → out ≡ bytes
  all_stored out le e =
      let e' : out ++ [] ≡ bytes = rw (drop-all (length out) bytes le) at e in rw (append-nil) at e'

  -- The receiver goes on from where it stands, awake.
  pub recv_goes_on-Kept :
      (n : Net) (l : RecvPoint) (s : Task SendPoint ℕ)
      → 0 < length bytes
      → length bytes < 2 ^ 32
      → n.receiver_asleep ≡ false
      → Inv side buffered bytes (receiver_at n s (at l))
      → Kept side buffered bytes (receiver_at n s (at l)) (recv_resume side buffered l n)
  unfolding recv_resume
  recv_goes_on-Kept n RecvPoint.synchronized s pos small a v =
      header-Kept side buffered bytes (receiver_at n s (at RecvPoint.synchronized)) pos small
        v.stream v.fits a v.sender_is (ready-if s (sym v.receiver_is.1 ∙ a)) (λ _. omega arith)
        (omega (arith, length-wire))
  recv_goes_on-Kept n (RecvPoint.header d) s pos small a v =
      header-Kept side buffered bytes (receiver_at n s (at (RecvPoint.header d))) pos small v.stream
        v.fits a (sender_other n (RecvPoint.header d) RecvPoint.synchronized s v.sender_is)
        (came n (RecvPoint.header d) s refl v)
        (λ short. cc (sym a ∙ v.receiver_is.1 ∙ ltb-eq_true (length n.queue) size_bytes short))
        (omega (arith, length-wire))
  recv_goes_on-Kept n (RecvPoint.chunk_got d size out) s pos small a v =
      elim (Bool-cases (length out == size)) [
        | inl all ↦ rw all (record {
          inv = record {
            stream = v.stream;
            fits = v.fits;
            sender_is =
                sender_after n (RecvPoint.chunk_got d size out) (length out, out) s v.sender_is;
            receiver_is = (
              ground (arith, v.receiver_is.1),
              all_stored out (ground (arith, v.receiver_is.1)) v.receiver_is.2,
              a,
            );
            met = record {
              sender_first = λ u q. cc (came n (RecvPoint.chunk_got d size out) s refl v u);
              receiver_first = λ u q. cc;
            };
          };
          less = omega arith;
        })
        | inr more ↦ rw more (
            size_same n s (at (RecvPoint.chunk_got d size out)) size out v.receiver_is.1 (
              turn-Kept side buffered bytes (receiver_at n s (at (RecvPoint.chunk_got d size out)))
                out n (ground (arith, v.receiver_is.1, v.receiver_is.3)) v.stream v.fits
                (v.receiver_is.2, v.receiver_is.3) a
                (λ _.
                  sender_other n (RecvPoint.chunk_got d size out) RecvPoint.synchronized s
                    v.sender_is)
                (sender_other n (RecvPoint.chunk_got d size out) RecvPoint.synchronized s
                  v.sender_is)
                (came n (RecvPoint.chunk_got d size out) s refl v)
                (λ _. omega (arith, length-drop (length out) bytes))
                (omega (arith, length-drop (length out) bytes))))
      ]
  recv_goes_on-Kept n (RecvPoint.data_wait d size out) s pos small a v =
      size_same n s (at (RecvPoint.data_wait d size out)) size out v.receiver_is.1 (
        turn-Kept side buffered bytes (receiver_at n s (at (RecvPoint.data_wait d size out))) out n
          v.receiver_is.3 v.stream v.fits (v.receiver_is.2, omega (arith, v.receiver_is.3)) a
          (λ _.
            sender_other n (RecvPoint.data_wait d size out) RecvPoint.synchronized s v.sender_is)
          (sender_other n (RecvPoint.data_wait d size out) RecvPoint.synchronized s v.sender_is)
          (came n (RecvPoint.data_wait d size out) s refl v)
          (λ e. cc (sym a ∙ v.receiver_is.4 ∙ ==-eq_true (length n.queue) 0 e))
          (omega (arith, length-drop (length out) bytes)))

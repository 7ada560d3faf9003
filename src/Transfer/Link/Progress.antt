-- ===== src/Transfer/Link/Progress.antt =====
-- Between any two moves: both calls have returned what they should, or a thread can move.
use riot_csp_module.Common.{
  ℕ, ◌≡◌, refl, ap, ap₂, ◌∙◌, ◌⊎◌, inl, inr, Bool, true, false, List, length, drop, ◌==◌, arith,
  Bool-cases, ==-eq_false_pos, ltb-eq_false, length-append, length-drop,
}
use riot_csp_module.Channel.{channel_bufsize, size_bytes, encode_size, length-encode_size}
use riot_csp_module.Send.{SendPoint}
use riot_csp_module.Recv.{RecvPoint, Received}
use riot_csp_module.Transfer.{Net, Task, ready, at, finished}
use riot_csp_module.Transfer.Link.{Link, Inv, unsent_wire}

-- The call has not returned.
abbrev pub is_open : {L A : Type 0} → Task L A → Bool
is_open (finished _) = false
is_open ready = true
is_open (at _) = true

abbrev CanMove : Link → Type 0
CanMove l =
    ((is_open l.sender ≡ true) × (l.sender_asleep ≡ false))
    ⊎ ((is_open l.receiver ≡ true) × (l.receiver_asleep ≡ false))

abbrev Done : List ℕ → Link → Type 0
Done bytes l = (l.sender ≡ finished (length bytes)) × (l.receiver ≡ finished (length bytes, bytes))

module _ (side buffered : Bool) (bytes : List ℕ) where
  abbrev link : Net → Task SendPoint ℕ → Task RecvPoint Received → Link
  link n s r = record { net = n; sender = s; receiver = r }

  -- A full file: the sender sleeps, and the receiver does not.
  full-CanMove :
      (n : Net) (l : SendPoint) (r : Task RecvPoint Received)
      → length n.queue ≡ channel_bufsize
      → Inv side buffered bytes (link n (at l) r)
      → CanMove (link n (at l) r)
  full-CanMove n l ready full v = inr (refl, v.receiver_is)
  full-CanMove n l (at RecvPoint.synchronized) full v = inr (refl, v.receiver_is.1)
  full-CanMove n l (at (RecvPoint.header _)) full v =
      inr (refl, v.receiver_is.1 ∙ ltb-eq_false (length n.queue) size_bytes (omega (arith, full)))
  full-CanMove n l (at (RecvPoint.chunk_got _ _ _)) full v = inr (refl, v.receiver_is.4)
  full-CanMove n l (at (RecvPoint.data_wait _ _ _)) full v =
      inr (refl, v.receiver_is.4 ∙ ==-eq_false_pos (length n.queue) (omega (arith, full)))
  full-CanMove n l (finished (b, _)) full v = absurd (
      omega (
        arith,
        full,
        ap length v.stream,
        length-append n.queue (unsent_wire side buffered bytes (at l)),
        length-drop b bytes,
        v.receiver_is.0,
      ))

  -- The sender has returned: all of the message is in the file or out of it.
  sent-CanMove :
      (n : Net) (b : ℕ) (r : Task RecvPoint Received)
      → Inv side buffered bytes (link n (finished b) r)
      → Done bytes (link n (finished b) r) ⊎ CanMove (link n (finished b) r)
  sent-CanMove n b ready v = inr (inr (refl, v.receiver_is))
  sent-CanMove n b (at RecvPoint.synchronized) v = inr (inr (refl, v.receiver_is.1))
  sent-CanMove n b (at (RecvPoint.header _)) v = inr (
      inr (
        refl,
        v.receiver_is.1
            ∙ ltb-eq_false (length n.queue) size_bytes (
                omega (
                  arith,
                  ap length v.stream,
                  length-append n.queue (drop b bytes),
                  length-append (encode_size (length bytes)) bytes,
                  length-encode_size (length bytes),
                  length-drop b bytes,
                  v.sender_is.0,
                )),
      ))
  sent-CanMove n b (at (RecvPoint.chunk_got _ _ _)) v = inr (inr (refl, v.receiver_is.4))
  sent-CanMove n b (at (RecvPoint.data_wait _ _ out)) v = inr (
      inr (
        refl,
        v.receiver_is.4
            ∙ ==-eq_false_pos (length n.queue) (
                omega (
                  arith,
                  ap length v.stream,
                  length-append n.queue (drop b bytes),
                  length-drop b bytes,
                  length-drop (length out) bytes,
                  v.sender_is.0,
                  v.receiver_is.3,
                )),
      ))
  sent-CanMove n b (finished (c, out)) v = inl (
    ap finished v.sender_is.0,
    ap finished (ap₂ (λ (c : ℕ) (o : List ℕ). (c, o)) v.receiver_is.0 v.receiver_is.1),
  )

  pub Inv-CanMove :
      (n : Net) (s : Task SendPoint ℕ) (r : Task RecvPoint Received)
      → Inv side buffered bytes (link n s r)
      → Done bytes (link n s r) ⊎ CanMove (link n s r)
  Inv-CanMove n ready r v = inr (inl (refl, v.sender_is))
  Inv-CanMove n (at SendPoint.synchronized) ready v = inr (inr (refl, v.receiver_is))
  Inv-CanMove n (at SendPoint.synchronized) (at _) v = inr (inl (refl, v.sender_is.1))
  Inv-CanMove n (at SendPoint.synchronized) (finished _) v = inr (inl (refl, v.sender_is.1))
  Inv-CanMove n (at (SendPoint.header _)) r v = absurd v.sender_is
  Inv-CanMove n (at (SendPoint.chunk_sent _ _)) r v = inr (inl (refl, v.sender_is.2))
  Inv-CanMove n (at (SendPoint.data_wait s b)) r v =
      elim (Bool-cases (length n.queue == channel_bufsize)) [
        | inl full ↦ inr (full-CanMove n (SendPoint.data_wait s b) r (ground arith) v)
        | inr free ↦ inr (inl (refl, v.sender_is.2 ∙ free))
      ]
  Inv-CanMove n (finished b) r v = sent-CanMove n b r v

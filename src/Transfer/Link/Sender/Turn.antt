-- ===== src/Transfer/Link/Sender/Turn.antt =====
-- One turn of the loop of _channel_send_msg (modules/csp/csp.c) over the specification.
use riot_csp_module.Common.{
  ℕ, zero, suc, ◌+◌, ◌-◌, ◌*◌, ◌≤◌, ◌<◌, min, ◌≡◌, refl, sym, ap, ◌∙◌, ◌⊎◌, inl, inr, Bool, true,
  false, List, [], ◌++◌, ◌∷◌, length, take, drop, ◌==◌, arith, Bool-cases, ==-eq_false_pos,
  ltb-eq_false, ==-eq_true, length-append, length-take, length-drop, take-all, drop-all, drop-add,
  append_assoc,
}
use riot_csp_module.Channel.{channel_bufsize, size_bytes, encode_size, length-encode_size}
use riot_csp_module.Send.{Message, SendPoint, unsent}
use riot_csp_module.Recv.{RecvPoint, Received}
use riot_csp_module.Transfer.{Net, room, Task, ready, at, finished, send_data}
use riot_csp_module.Transfer.Link.{
  Link, is_ready, message, wire, pending_wire, ReceiverIs, Met, Inv, send_measure, after_sender,
}

-- The part of a list that fits, and the rest.
take-min {ℓ} : {A : Type ℓ} (k : ℕ) (xs : List A) → take k xs ++ drop (min (length xs) k) xs ≡ xs
take-min zero [] = refl
take-min zero (x ∷ xs) = let e : min (suc (length xs)) 0 ≡ 0 = omega arith in rw e
take-min (suc k) [] = drop-all (min 0 (suc k)) [] (omega arith)
take-min (suc k) (x ∷ xs) =
    let e : min (suc (length xs)) (suc k) ≡ suc (min (length xs) k) = omega arith in
    rw e (ap (◌∷◌ x) (take-min k xs))

module _ (side buffered : Bool) (bytes : List ℕ) where
  abbrev pub m : Message
  m = message side buffered bytes

  unsent-eq : (b : ℕ) → unsent m b ≡ drop b bytes
  unsent-eq b = take-all (length bytes - b) (drop b bytes) (omega (arith, length-drop b bytes))

  -- A turn of the loop before all is sent: the file is full and the sender sleeps, or a chunk of
  -- `count` bytes goes in and the receiver is awake.
  pub record Chunk (b : ℕ) (n : Net) (r : Task SendPoint ℕ × Net) : Type 0 where
    pub count : ℕ
    pub queue : List ℕ
    pub some_bytes : 0 < count
    pub in_message : b + count ≤ length bytes
    pub result : r ≡ (
      at (SendPoint.chunk_sent side (b + count)),
      record { queue = queue; sender_asleep = n.sender_asleep; receiver_asleep = false },
    )
    pub stream : queue ++ drop (b + count) bytes ≡ n.queue ++ drop b bytes
    pub grows : length queue ≡ length n.queue + count
    pub fits : length queue ≤ channel_bufsize

  abbrev pub Turn : ℕ → Net → Task SendPoint ℕ × Net → Type 0
  Turn b n r =
      ((length n.queue ≡ channel_bufsize)
        × (r ≡ (at (SendPoint.data_wait side b), record n { sender_asleep = true })))
      ⊎ Chunk b n r

  pub send_data-Chunk :
      (b : ℕ) (n : Net)
      → b < length bytes
      → length n.queue ≤ channel_bufsize
      → (room n == 0) ≡ false
      → Chunk b n (send_data side buffered m b n)
  unfolding send_data
  send_data-Chunk b n h f free = rw (unsent-eq b) (record {
    count = sent;
    queue = n.queue ++ take (room n) (drop b bytes);
    some_bytes = moved;
    in_message = omega (arith, length-drop b bytes);
    result = rw (free, ==-eq_false_pos sent moved);
    stream =
        append_assoc n.queue (take (room n) (drop b bytes)) (drop (b + sent) bytes)
        ∙ ap (◌++◌ n.queue) (rw (drop-add b sent bytes) (take-min (room n) (drop b bytes)));
    grows = omega (
      arith,
      length-append n.queue (take (room n) (drop b bytes)),
      length-take (room n) (drop b bytes),
    );
    fits = omega (
      arith,
      length-append n.queue (take (room n) (drop b bytes)),
      length-take (room n) (drop b bytes),
    );
  })
    where
      sent : ℕ
      sent = min (length (drop b bytes)) (room n)

      moved : 0 < sent
      moved = ground (arith, length-drop b bytes)

  send_data-Turn :
      (b : ℕ) (n : Net)
      → b < length bytes
      → length n.queue ≤ channel_bufsize
      → Turn b n (send_data side buffered m b n)
  unfolding send_data
  send_data-Turn b n h f = elim (Bool-cases (room n == 0)) [
    | inl full ↦ inl (ground arith, rw full)
    | inr free ↦ inr (send_data-Chunk b n h f free)
  ]

  pub length-wire : length (wire side buffered bytes) ≡ size_bytes + length bytes
  length-wire =
      omega
        (arith, length-append (encode_size (length bytes)) bytes, length-encode_size (length bytes))

  -- A receiver that a chunk woke is where it was, awake, with bytes to read.
  receiver_woken :
      (n₀ n : Net) (o : Task SendPoint ℕ) (l : SendPoint) (b : ℕ) (r : Task RecvPoint Received)
      → ReceiverIs side buffered bytes n₀ o r
      → n.queue ++ drop b bytes ≡ pending_wire side buffered bytes r
      → n.receiver_asleep ≡ false
      → 0 < length n.queue
      → ReceiverIs side buffered bytes n (at l) r
  receiver_woken n₀ n o l b ready h s a q = a
  receiver_woken n₀ n o l b (at RecvPoint.synchronized) h s a q = (h.0, a)
  receiver_woken n₀ n o l b (at (RecvPoint.header _)) h s a q = (
    h.0,
    a
        ∙ sym (
            ltb-eq_false (length n.queue) size_bytes (
              omega (
                arith,
                ap length s,
                length-wire,
                length-append n.queue (drop b bytes),
                length-drop b bytes,
              ))),
  )
  receiver_woken n₀ n o l b (at (RecvPoint.chunk_got _ _ out)) h s a q = (h.0, h.1, h.2, h.3, a)
  receiver_woken n₀ n o l b (at (RecvPoint.data_wait _ _ out)) h s a q =
      (h.0, h.1, h.2, h.3, a ∙ sym (==-eq_false_pos (length n.queue) q))
  receiver_woken n₀ n o l b (finished _) h s a q = (h.0, h.1, a)

  -- A move keeps what holds between moves, and leaves less to do.
  pub record Kept (l : Link) (r : Task SendPoint ℕ × Net) : Type 0 where
    pub inv : Inv side buffered bytes (after_sender side buffered bytes l r)
    pub less : send_measure side buffered bytes r.0 < send_measure side buffered bytes l.sender

  pub Met-later :
      (l : Link) (point : SendPoint) (n : Net)
      → (buffered ≡ false → is_ready l.receiver ≡ false)
      → Met side buffered bytes (record l { net = n; sender = at point })
  Met-later l point n came = record {
    sender_first = λ u r. cc;
    receiver_first = λ u r. cc (came u);
  }

  pub Chunk-Kept :
      (l : Link) (o : Task SendPoint ℕ) (b : ℕ) (n : Net) (r : Task SendPoint ℕ × Net)
      → Chunk b n r
      → n.queue ++ drop b bytes ≡ pending_wire side buffered bytes l.receiver
      → n.sender_asleep ≡ false
      → ReceiverIs side buffered bytes l.net o l.receiver
      → (buffered ≡ false → is_ready l.receiver ≡ false)
      → 2 * length (drop b bytes) ≤ send_measure side buffered bytes l.sender
      → Kept l r
  Chunk-Kept l o b n r c s a ri came le = rw c.result (record {
    inv = record {
      stream = c.stream ∙ s;
      fits = c.fits;
      sender_is = (refl, c.in_message, a);
      receiver_is =
          receiver_woken l.net n' o point (b + c.count) l.receiver ri (c.stream ∙ s) refl
            (omega (arith, c.grows, c.some_bytes));
      met = Met-later l point n' came;
    };
    less =
        omega
          (arith, c.some_bytes, c.in_message, length-drop b bytes, length-drop (b + c.count) bytes);
  })
    where
      point : SendPoint
      point = SendPoint.chunk_sent side (b + c.count)

      n' : Net
      n' = record { queue = c.queue; sender_asleep = n.sender_asleep; receiver_asleep = false }

  receiver_same :
      (n : Net) (l : SendPoint) (r : Task RecvPoint Received)
      → ReceiverIs side buffered bytes n (at l) r
      → ReceiverIs side buffered bytes (record n { sender_asleep = true }) (at l) r
  receiver_same n l ready h = h
  receiver_same n l (at RecvPoint.synchronized) h = h
  receiver_same n l (at (RecvPoint.header _)) h = h
  receiver_same n l (at (RecvPoint.chunk_got _ _ _)) h = h
  receiver_same n l (at (RecvPoint.data_wait _ _ _)) h = h
  receiver_same n l (finished _) h = h

  full-Kept :
      (l : Link) (b : ℕ) (r : Task SendPoint ℕ × Net)
      → r ≡ (at (SendPoint.data_wait side b), record l.net { sender_asleep = true })
      → length l.queue ≡ channel_bufsize
      → b < length bytes
      → l.queue ++ drop b bytes ≡ pending_wire side buffered bytes l.receiver
      → ReceiverIs side buffered bytes
          (record l.net { sender_asleep = true })
          (at (SendPoint.data_wait side b))
          l.receiver
      → (buffered ≡ false → is_ready l.receiver ≡ false)
      → 2 * length (drop b bytes) < send_measure side buffered bytes l.sender
      → Kept l r
  full-Kept l b r e full h s ri came le = rw e (record {
    inv = record {
      stream = s;
      fits = omega arith;
      sender_is = (refl, h, sym (==-eq_true (length l.queue) channel_bufsize full));
      receiver_is = ri;
      met = Met-later l (SendPoint.data_wait side b) (record l.net { sender_asleep = true }) came;
    };
    less = omega arith;
  })

  -- The loop goes round before all is sent.
  pub turn-Kept :
      (l : Link) (b : ℕ)
      → b < length bytes
      → length l.queue ≤ channel_bufsize
      → l.queue ++ drop b bytes ≡ pending_wire side buffered bytes l.receiver
      → l.sender_asleep ≡ false
      → ReceiverIs side buffered bytes l.net (at (SendPoint.data_wait side b)) l.receiver
      → (buffered ≡ false → is_ready l.receiver ≡ false)
      → (length l.queue ≡ channel_bufsize
          → 2 * length (drop b bytes) < send_measure side buffered bytes l.sender)
      → 2 * length (drop b bytes) ≤ send_measure side buffered bytes l.sender
      → Kept l (send_data side buffered m b l.net)
  turn-Kept l b h f s a ri came lt le = elim (send_data-Turn b l.net h f) [
    | inl (full, e) ↦
        full-Kept l b _ e full h s (receiver_same l.net (SendPoint.data_wait side b) l.receiver ri)
          came (lt full)
    | inr c ↦ Chunk-Kept l (at (SendPoint.data_wait side b)) b l.net _ c s a ri came le
  ]

-- ===== src/Transfer/Link/Receiver/Turn.antt =====
-- One turn of the loop of _channel_recv_msg (modules/csp/csp.c) over the specification.
use riot_csp_module.Common.{
  ℕ, ◌-◌, ◌*◌, ◌≤◌, ◌<◌, ◌≡◌, refl, sym, ap, ◌∙◌, inl, inr, Bool, true, false, List, [], ◌++◌,
  length, drop, ◌==◌, arith, Bool-cases, ==-eq_false_pos, ==-eq_true, length-append, length-drop,
  take-all, drop-all, drop-add, drop-append_exact, append_assoc,
}
use riot_csp_module.Channel.{channel_bufsize}
use riot_csp_module.Send.{SendPoint}
use riot_csp_module.Recv.{RecvPoint, Received}
use riot_csp_module.Transfer.{Net, Task, ready, at, finished, recv_data}
use riot_csp_module.Transfer.Link.{
  Link, is_ready, unsent_wire, SenderIs, Met, Inv, recv_measure, after_receiver,
}

module _ (side buffered : Bool) (bytes : List ℕ) where
  -- What is stored is the front of the message.
  abbrev Stored : List ℕ → Type 0
  Stored out = (out ++ drop (length out) bytes ≡ bytes) × (length out ≤ length bytes)

  -- A move keeps what holds between moves, and leaves less to do.
  pub record Kept (l : Link) (r : Task RecvPoint Received × Net) : Type 0 where
    pub inv : Inv side buffered bytes (after_receiver side buffered bytes l r)
    pub less : recv_measure side buffered bytes r.0 < recv_measure side buffered bytes l.receiver

  pub Met-later :
      (l : Link) (point : RecvPoint) (n : Net)
      → (buffered ≡ false → is_ready l.sender ≡ false)
      → Met side buffered bytes (record l { net = n; receiver = at point })
  Met-later l point n came = record {
    sender_first = λ u r. cc (came u);
    receiver_first = λ u r. cc;
  }

  -- The queue of a receiver inside a message is a part of what it still waits for.
  queue-le :
      (q rest out : List ℕ)
      → q ++ rest ≡ drop (length out) bytes
      → length q ≤ length bytes - length out
  queue-le q rest out s =
      omega (arith, ap length s, length-append q rest, length-drop (length out) bytes)

  -- With bytes in the file all of them are taken.
  recv_data_full :
      (out : List ℕ) (n : Net)
      → 0 < length n.queue
      → length n.queue ≤ length bytes - length out
      → recv_data side buffered (length bytes) out n ≡ (
        at (RecvPoint.chunk_got side (length bytes) (out ++ n.queue)),
        record { queue = []; sender_asleep = false; receiver_asleep = n.receiver_asleep },
      )
  unfolding recv_data
  recv_data_full out n pos le = rw (
    take-all (length bytes - length out) n.queue le,
    drop-all (length bytes - length out) n.queue le,
    ==-eq_false_pos (length n.queue) pos,
  )

  recv_data_empty :
      (out : List ℕ) (n : Net)
      → length n.queue ≡ 0
      → recv_data side buffered (length bytes) out n
        ≡ (at (RecvPoint.data_wait side (length bytes) out), record n { receiver_asleep = true })
  unfolding recv_data
  recv_data_empty out n e = rw e

  rest-eq :
      (q rest out : List ℕ)
      → q ++ rest ≡ drop (length out) bytes
      → drop (length (out ++ q)) bytes ≡ rest
  rest-eq q rest out s = rw (
    length-append out q,
    drop-add (length out) (length q) bytes,
    ← s,
    drop-append_exact (length q) q rest refl,
  )

  Stored-append :
      (q rest out : List ℕ) → q ++ rest ≡ drop (length out) bytes → Stored out → Stored (out ++ q)
  Stored-append q rest out s st = (
    rw (rest-eq q rest out s) (append_assoc out q rest ∙ ap (◌++◌ out) s ∙ st.0),
    omega (arith, length-append out q, queue-le q rest out s, st.1),
  )

  -- A sender that the receiver woke is where it was, awake, and the file is empty.
  sender_woken :
      (n₀ : Net) (o : Task RecvPoint Received) (l : RecvPoint) (n : Net) (s : Task SendPoint ℕ)
      → SenderIs side buffered bytes n₀ o s
      → n.sender_asleep ≡ false
      → n.queue ≡ []
      → SenderIs side buffered bytes n (at l) s
  sender_woken n₀ o l n ready h a q = a
  sender_woken n₀ o l n (at SendPoint.synchronized) h a q = (h.0, a)
  sender_woken n₀ o l n (at (SendPoint.header _)) h a q = h
  sender_woken n₀ o l n (at (SendPoint.chunk_sent _ _)) h a q = (h.0, h.1, a)
  sender_woken n₀ o l n (at (SendPoint.data_wait _ _)) h a q = (h.0, h.1, rw q a)
  sender_woken n₀ o l n (finished _) h a q = (h.0, a)

  pub Chunk-Kept :
      (l : Link) (o : Task RecvPoint Received) (out : List ℕ) (n : Net)
      → 0 < length n.queue
      → n.queue ++ unsent_wire side buffered bytes l.sender ≡ drop (length out) bytes
      → Stored out
      → n.receiver_asleep ≡ false
      → SenderIs side buffered bytes l.net o l.sender
      → (buffered ≡ false → is_ready l.sender ≡ false)
      → 2 * (length bytes - length out) ≤ recv_measure side buffered bytes l.receiver
      → Kept l (recv_data side buffered (length bytes) out n)
  Chunk-Kept l o out n pos s st a si came le =
      rw (recv_data_full out n pos (queue-le n.queue rest out s)) (record {
        inv = record {
          stream = sym (rest-eq n.queue rest out s);
          fits = omega arith;
          sender_is = sender_woken l.net o point n' l.sender si refl refl;
          receiver_is = (
            refl,
            refl,
            (Stored-append n.queue rest out s st).0,
            (Stored-append n.queue rest out s st).1,
            a,
          );
          met = Met-later l point n' came;
        };
        less = omega (
          arith,
          length-append out n.queue,
          length-drop (length (out ++ n.queue)) bytes,
          queue-le n.queue rest out s,
        );
      })
    where
      rest : List ℕ
      rest = unsent_wire side buffered bytes l.sender

      point : RecvPoint
      point = RecvPoint.chunk_got side (length bytes) (out ++ n.queue)

      n' : Net
      n' = record { queue = []; sender_asleep = false; receiver_asleep = n.receiver_asleep }

  pub sender_same :
      (n : Net) (l l' : RecvPoint) (s : Task SendPoint ℕ)
      → SenderIs side buffered bytes n (at l) s
      → SenderIs side buffered bytes (record n { receiver_asleep = true }) (at l') s
  sender_same n l l' ready h = h
  sender_same n l l' (at SendPoint.synchronized) h = h
  sender_same n l l' (at (SendPoint.header _)) h = h
  sender_same n l l' (at (SendPoint.chunk_sent _ _)) h = h
  sender_same n l l' (at (SendPoint.data_wait _ _)) h = h
  sender_same n l l' (finished _) h = h

  empty-Kept :
      (l : Link) (out : List ℕ) (n : Net)
      → length n.queue ≡ 0
      → length out < length bytes
      → n.queue ++ unsent_wire side buffered bytes l.sender ≡ drop (length out) bytes
      → Stored out
      → SenderIs side buffered bytes n (at RecvPoint.synchronized) l.sender
      → (buffered ≡ false → is_ready l.sender ≡ false)
      → 2 * (length bytes - length out) < recv_measure side buffered bytes l.receiver
      → Kept l (recv_data side buffered (length bytes) out n)
  empty-Kept l out n e h s st si came lt = rw (recv_data_empty out n e) (record {
    inv = record {
      stream = s;
      fits = omega arith;
      sender_is = sender_same n RecvPoint.synchronized point l.sender si;
      receiver_is = (refl, refl, st.0, h, sym (==-eq_true (length n.queue) 0 e));
      met = Met-later l point (record n { receiver_asleep = true }) came;
    };
    less = omega (arith, length-drop (length out) bytes);
  })
    where
      point : RecvPoint
      point = RecvPoint.data_wait side (length bytes) out

  -- The loop goes round before all is stored.
  pub turn-Kept :
      (l : Link) (out : List ℕ) (n : Net)
      → length out < length bytes
      → n.queue ++ unsent_wire side buffered bytes l.sender ≡ drop (length out) bytes
      → length n.queue ≤ channel_bufsize
      → Stored out
      → n.receiver_asleep ≡ false
      → (length n.queue ≡ 0 → SenderIs side buffered bytes n (at RecvPoint.synchronized) l.sender)
      → SenderIs side buffered bytes l.net (at RecvPoint.synchronized) l.sender
      → (buffered ≡ false → is_ready l.sender ≡ false)
      → (length n.queue ≡ 0
          → 2 * (length bytes - length out) < recv_measure side buffered bytes l.receiver)
      → 2 * (length bytes - length out) ≤ recv_measure side buffered bytes l.receiver
      → Kept l (recv_data side buffered (length bytes) out n)
  turn-Kept l out n h s f st a si si' came lt le = elim (Bool-cases (length n.queue == 0)) [
    | inl e ↦ empty-Kept l out n (ground arith) h s st (si (ground arith)) came (lt (ground arith))
    | inr pos ↦ Chunk-Kept l (at RecvPoint.synchronized) out n (ground arith) s st a si' came le
  ]
  -- The size has come whole, and is the size of the message.

-- ===== src/Transfer/Link/Receiver/Header.antt =====
-- The size that a receive reads first, and the message after it (modules/csp/csp.c,
-- _channel_recv_msg).
use riot_csp_module.Common.{
  ℕ, ◌+◌, ◌*◌, ◌^◌, ◌≤◌, ◌<◌, min, ◌≡◌, refl, sym, ap, ◌∙◌, Bool, true, false, List, [], ◌++◌,
  length, take, drop, arith, ==-eq_true, ==-eq_false, ltb-eq_true, length-take, length-drop,
  take-append, drop-append, take-append_exact, drop-append_exact,
}
use native.Mathlib.Decide.{dec_lt}
use riot_csp_module.Channel.{
  channel_bufsize, size_bytes, encode_size, decode_size, length-encode_size, decode-encode_size,
}
use riot_csp_module.Send.{SendPoint}
use riot_csp_module.Recv.{RecvPoint}
use riot_csp_module.Transfer.{Net, Task, ready, at, finished, recv_data, recv_header}
use riot_csp_module.Transfer.Link.{Link, is_ready, wire, unsent_wire, SenderIs, recv_measure}
use riot_csp_module.Transfer.Link.Receiver.Turn.{Kept, Met-later, sender_same, turn-Kept}

module _ (side buffered : Bool) (bytes : List ℕ) where
  size_read :
      (q rest : List ℕ)
      → length bytes < 2 ^ 32
      → size_bytes ≤ length q
      → q ++ rest ≡ wire side buffered bytes
      → (decode_size (take size_bytes q) ≡ length bytes) × (drop size_bytes q ++ rest ≡ bytes)
  size_read q rest small le s = (
    ap decode_size front ∙ decode-encode_size (length bytes) small,
    sym (drop-append size_bytes q rest le)
        ∙ ap (drop size_bytes) s
        ∙ drop-append_exact size_bytes (encode_size (length bytes)) bytes
            (length-encode_size (length bytes)),
  )
    where
      front : take size_bytes q ≡ encode_size (length bytes)
      front =
          sym (take-append size_bytes q rest le)
          ∙ ap (take size_bytes) s
          ∙ take-append_exact size_bytes (encode_size (length bytes)) bytes
              (length-encode_size (length bytes))

  recv_header_short :
      (n : Net)
      → length n.queue < size_bytes
      → recv_header side buffered n
        ≡ (at (RecvPoint.header side), record n { receiver_asleep = true })
  unfolding recv_header
  recv_header_short n h = rw (
      ==-eq_false (length (take size_bytes n.queue)) size_bytes
        (omega (arith, length-take size_bytes n.queue)))

  recv_header_whole :
      (n : Net)
      → size_bytes ≤ length n.queue
      → recv_header side buffered n
        ≡ recv_data side buffered
            (decode_size (take size_bytes n.queue))
            []
            (record n { queue = drop size_bytes n.queue })
  unfolding recv_header
  recv_header_whole n h = rw (
    ==-eq_true (length (take size_bytes n.queue)) size_bytes
        (omega (arith, length-take size_bytes n.queue)),
    ==-eq_true (min size_bytes (length n.queue)) size_bytes (omega arith),
  )

  sender_drained :
      (n : Net) (q : List ℕ) (s : Task SendPoint ℕ)
      → length n.queue < channel_bufsize
      → length q < channel_bufsize
      → SenderIs side buffered bytes n (at RecvPoint.synchronized) s
      → SenderIs side buffered bytes (record n { queue = q }) (at RecvPoint.synchronized) s
  sender_drained n q ready h h' si = si
  sender_drained n q (at SendPoint.synchronized) h h' si = si
  sender_drained n q (at (SendPoint.header _)) h h' si = si
  sender_drained n q (at (SendPoint.chunk_sent _ _)) h h' si = si
  sender_drained n q (at (SendPoint.data_wait _ _)) h h' si = (
    si.0,
    si.1,
    si.2
        ∙ ==-eq_false (length n.queue) channel_bufsize h
        ∙ sym (==-eq_false (length q) channel_bufsize h'),
  )
  sender_drained n q (finished _) h h' si = si

  -- The receiver looks for the size.
  pub header-Kept :
      (l : Link)
      → 0 < length bytes
      → length bytes < 2 ^ 32
      → l.queue ++ unsent_wire side buffered bytes l.sender ≡ wire side buffered bytes
      → length l.queue ≤ channel_bufsize
      → l.receiver_asleep ≡ false
      → SenderIs side buffered bytes l.net (at RecvPoint.synchronized) l.sender
      → (buffered ≡ false → is_ready l.sender ≡ false)
      → (length l.queue < size_bytes
          → 2 * length (wire side buffered bytes) + 2 < recv_measure side buffered bytes l.receiver)
      → 2 * length bytes < recv_measure side buffered bytes l.receiver
      → Kept side buffered bytes l (recv_header side buffered l.net)
  header-Kept l pos small s f a si came lt le = elim (dec_lt (length l.queue) size_bytes) [
    | yes short ↦ rw (recv_header_short l.net short) (record {
      inv = record {
        stream = s;
        fits = f;
        sender_is =
            sender_same side buffered bytes l.net RecvPoint.synchronized (RecvPoint.header side)
              l.sender si;
        receiver_is = (refl, sym (ltb-eq_true (length l.queue) size_bytes short));
        met =
            Met-later side buffered bytes l (RecvPoint.header side)
              (record l.net { receiver_asleep = true }) came;
      };
      less = lt short;
    })
    | no long ↦
        let read =
          size_read l.queue (unsent_wire side buffered bytes l.sender) small (omega arith) s in
        rw (recv_header_whole l.net (omega arith), read.0)
          (turn-Kept side buffered bytes l [] (record l.net { queue = drop size_bytes l.queue }) pos
            read.1 (omega (arith, length-drop size_bytes l.queue)) (refl, omega arith) a
            (λ e.
              sender_drained l.net _ l.sender (omega (arith, length-drop size_bytes l.queue))
                (omega (arith, e)) si)
            si came (λ _. omega arith) (omega arith))
  ]

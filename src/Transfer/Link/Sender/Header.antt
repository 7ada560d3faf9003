-- ===== src/Transfer/Link/Sender/Header.antt =====
-- The size that a send puts first, and the message after it (modules/csp/csp.c, _channel_send_msg).
use riot_csp_module.Common.{
  ℕ, ◌+◌, ◌*◌, ◌≤◌, ◌<◌, ◌≡◌, refl, sym, ap, Bool, false, List, [], ◌++◌, ◌∷◌, length, drop, ◌==◌,
  arith, length-append, length-drop, subst, take-all,
}
use riot_csp_module.Channel.{channel_bufsize, size_bytes, encode_size, length-encode_size}
use riot_csp_module.Send.{SendPoint, no_data-message}
use riot_csp_module.Recv.{RecvPoint, Received}
use riot_csp_module.Transfer.{
  Net, room, Task, ready, at, finished, send_data, send_header, send_synchronized,
}
use riot_csp_module.Transfer.Link.{Link, is_ready, wire, pending_wire, ReceiverIs, send_measure}
use riot_csp_module.Transfer.Link.Sender.Turn.{m, send_data-Chunk, length-wire, Kept, Chunk-Kept}

module _ (side buffered : Bool) (bytes : List ℕ) where
  pending-le :
      (r : Task RecvPoint Received)
      → length (pending_wire side buffered bytes r) ≤ size_bytes + length bytes
  pending-le ready = omega (arith, length-wire side buffered bytes)
  pending-le (at RecvPoint.synchronized) = omega (arith, length-wire side buffered bytes)
  pending-le (at (RecvPoint.header _)) = omega (arith, length-wire side buffered bytes)
  pending-le (at (RecvPoint.chunk_got _ _ out)) = omega (arith, length-drop (length out) bytes)
  pending-le (at (RecvPoint.data_wait _ _ out)) = omega (arith, length-drop (length out) bytes)
  pending-le (finished (b, _)) = omega (arith, length-drop b bytes)

  -- Before the size is sent the file is empty.
  nothing_sent :
      (q : List ℕ) (r : Task RecvPoint Received)
      → q ++ wire side buffered bytes ≡ pending_wire side buffered bytes r
      → q ≡ []
  nothing_sent [] r s = refl
  nothing_sent (x ∷ q) r s = absurd (
      omega (
        arith,
        ap length s,
        length-append q (wire side buffered bytes),
        length-wire side buffered bytes,
        pending-le r,
      ))

  header_empty :
      (a r : Bool)
      → send_header side buffered
          (m side buffered bytes)
          (record { queue = []; sender_asleep = a; receiver_asleep = r })
        ≡ send_data side buffered
            (m side buffered bytes)
            0
            (record { queue = encode_size (length bytes); sender_asleep = a; receiver_asleep = r })
  unfolding send_header
  header_empty a r = rw (
      take-all channel_bufsize (encode_size (length bytes))
        (omega (arith, length-encode_size (length bytes))))

  header-eq :
      (n : Net)
      → n.queue ≡ []
      → send_header side buffered (m side buffered bytes) n
        ≡ send_data side buffered
            (m side buffered bytes)
            0
            (record n { queue = encode_size (length bytes) })
  header-eq n e =
      subst
        (λ q.
          send_header side buffered (m side buffered bytes) (record n { queue = q })
          ≡ send_data side buffered (m side buffered bytes) 0
              (record n { queue = encode_size (length bytes) }))
        (sym e) (header_empty n.sender_asleep n.receiver_asleep)

  -- The size and a first chunk of the message go in.
  pub header-Kept :
      (l : Link) (o : Task SendPoint ℕ)
      → 0 < length bytes
      → l.queue ++ wire side buffered bytes ≡ pending_wire side buffered bytes l.receiver
      → l.sender_asleep ≡ false
      → ReceiverIs side buffered bytes l.net o l.receiver
      → (buffered ≡ false → is_ready l.receiver ≡ false)
      → 2 * length bytes ≤ send_measure side buffered bytes l.sender
      → Kept side buffered bytes l (send_header side buffered (m side buffered bytes) l.net)
  header-Kept l o h s a ri came le = rw (header-eq l.net empty) (
      Chunk-Kept side buffered bytes l o 0 n _ (send_data-Chunk side buffered bytes 0 n h fits free)
        stream a ri came le)
    where
      empty : l.queue ≡ []
      empty = nothing_sent l.queue l.receiver s

      n : Net
      n = record l.net { queue = encode_size (length bytes) }

      fits : length n.queue ≤ channel_bufsize
      fits = omega (arith, length-encode_size (length bytes))

      free : (room n == 0) ≡ false
      free = rw (length-encode_size (length bytes))

      stream : n.queue ++ drop 0 bytes ≡ pending_wire side buffered bytes l.receiver
      stream = rw empty at s

  pub synchronized-Kept :
      (l : Link) (o : Task SendPoint ℕ)
      → 0 < length bytes
      → l.queue ++ wire side buffered bytes ≡ pending_wire side buffered bytes l.receiver
      → l.sender_asleep ≡ false
      → ReceiverIs side buffered bytes l.net o l.receiver
      → (buffered ≡ false → is_ready l.receiver ≡ false)
      → 2 * length bytes ≤ send_measure side buffered bytes l.sender
      → Kept side buffered bytes l (send_synchronized side buffered (m side buffered bytes) l.net)
  unfolding send_synchronized
  synchronized-Kept l o h s a ri came le =
      rw (no_data-message bytes h) (header-Kept l o h s a ri came le)

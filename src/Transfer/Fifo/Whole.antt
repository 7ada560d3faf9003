-- ===== src/Transfer/Fifo/Whole.antt =====
-- Whole messages in the file of a channel: what the specification of channel_send and channel_recv
-- (modules/csp/csp.c) does when the file holds whole messages and has room for one more.
use riot_csp_module.Common.{
  ==_refl, ℕ, ◌+◌, ◌-◌, ◌^◌, ◌≤◌, ◌<◌, min, ◌≡◌, sym, ap, ◌∙◌, Bool, true, false, List, [], ◌∷◌,
  ◌++◌, length, take, arith, ==-eq_true, ==-eq_false_pos, length-append, take-all,
  take-append_exact, drop-append_exact, append_assoc, append-nil, suc,
}
use riot_csp_module.Channel.{
  channel_bufsize, size_bytes, encode_size, length-encode_size, decode-encode_size,
}
use riot_csp_module.Send.{SendPoint, no_data-message}
use riot_csp_module.Recv.{RecvPoint}
use riot_csp_module.Transfer
use riot_csp_module.Transfer.{Net, room, at, finished}
use riot_csp_module.Transfer.Starts.{send_start_buffered, recv_start_buffered}
use riot_csp_module.Transfer.System.{data_message}

-- what the messages are in the file: each with its size in front
abbrev pub wires : List (List ℕ) → List ℕ
wires [] = []
wires (bytes ∷ ms) = encode_size (length bytes) ++ (bytes ++ wires ms)

wires-append :
    (ms : List (List ℕ)) (bytes : List ℕ)
    → wires (ms ++ (bytes ∷ [])) ≡ (wires ms ++ encode_size (length bytes)) ++ bytes
wires-append [] bytes = ap (λ r. encode_size (length bytes) ++ r) (append-nil bytes)
wires-append (m ∷ ms) bytes =
    ap (λ r. encode_size (length m) ++ r)
      (ap (λ r. m ++ r) (wires-append ms bytes)
        ∙ sym (append_assoc m (wires ms ++ encode_size (length bytes)) bytes)
        ∙ ap (λ r. r ++ bytes) (sym (append_assoc m (wires ms) (encode_size (length bytes)))))
    ∙ sym (append_assoc size ((m ++ wires ms) ++ encode_size (length bytes)) bytes)
    ∙ ap (λ r. r ++ bytes) (sym (append_assoc size (m ++ wires ms) (encode_size (length bytes))))
  where
    size : List ℕ
    size = encode_size (length m)

module _ (side buffered : Bool) (bytes : List ℕ) (n : Net) where
  -- the data that fits goes in whole
  send_data_whole :
      0 < length bytes
      → length n.queue + length bytes ≤ channel_bufsize
      → Transfer.send_data side buffered (data_message bytes) 0 n ≡ (
        at (SendPoint.chunk_sent side (length bytes)),
        record n { queue = n.queue ++ bytes; receiver_asleep = false },
      )
  unfolding Transfer.send_data
  send_data_whole pos fits =
      let whole : take (length bytes - 0) bytes ≡ bytes =
        take-all (length bytes - 0) bytes (omega arith) in
      let count : min (length bytes) (room n) ≡ length bytes = omega arith in
      let all : 0 + length bytes ≡ length bytes = omega arith in
      rw (
        whole,
        count,
        all,
        take-all (room n) bytes (omega arith),
        ==-eq_false_pos (room n) (omega arith),
        ==-eq_false_pos (length bytes) pos,
      )

  recv_data_whole :
      (rest : List ℕ)
      → 0 < length bytes
      → Transfer.recv_data side buffered (length bytes) [] (record n { queue = bytes ++ rest }) ≡ (
        at (RecvPoint.chunk_got side (length bytes) bytes),
        record n { queue = rest; sender_asleep = false },
      )
  unfolding Transfer.recv_data
  recv_data_whole rest pos = rw (
    ==-eq_false_pos (length (bytes ++ rest)) (omega (arith, length-append bytes rest)),
    take-append_exact (length bytes - 0) bytes rest (omega arith),
    drop-append_exact (length bytes - 0) bytes rest (omega arith),
    ==-eq_false_pos (length bytes) pos,
  )

  -- a message that fits goes in whole
  enqueue :
      0 < length bytes
      → length n.queue + size_bytes + length bytes ≤ channel_bufsize
      → Transfer.send_synchronized side buffered (data_message bytes) n
        ≡ Transfer.send_data side buffered
            (data_message bytes)
            0
            (record n { queue = n.queue ++ encode_size (length bytes) })
  unfolding Transfer.send_synchronized Transfer.send_header
  enqueue pos fits = rw (
    no_data-message bytes pos,
    ==-eq_true (min size_bytes (room n)) size_bytes (omega arith),
    take-all (room n) (encode_size (length bytes))
        (omega (arith, length-encode_size (length bytes))),
  )

  -- the size of the first message comes out
  dequeue :
      (rest : List ℕ)
      → length bytes < 2 ^ 32
      → n.queue ≡ encode_size (length bytes) ++ rest
      → Transfer.recv_header side buffered n
        ≡ Transfer.recv_data side buffered (length bytes) [] (record n { queue = rest })
  unfolding Transfer.recv_header encode_size
  dequeue rest small e = rw (
    e,
    decode-encode_size (length bytes) small,
    ==-eq_true (min size_bytes (suc (suc (suc (suc (length rest)))))) size_bytes (omega arith),
  )

module _ (side buffered : Bool) (bytes : List ℕ) (n : Net) where
  -- a receive that has synchronised takes the first message out whole
  pub recv_header_whole :
      (ms : List (List ℕ))
      → n.queue ≡ wires (bytes ∷ ms)
      → 0 < length bytes
      → length bytes < 2 ^ 32
      → Transfer.recv_header side buffered n ≡ (
        at (RecvPoint.chunk_got side (length bytes) bytes),
        record n { queue = wires ms; sender_asleep = false },
      )
  recv_header_whole ms e pos small =
      dequeue side buffered bytes n (bytes ++ wires ms) small e
      ∙ recv_data_whole side buffered bytes n (wires ms) pos

  -- a send that has synchronised puts its message behind the others
  pub send_synchronized_whole :
      (ms : List (List ℕ))
      → n.queue ≡ wires ms
      → 0 < length bytes
      → length n.queue + size_bytes + length bytes ≤ channel_bufsize
      → Transfer.send_synchronized side buffered (data_message bytes) n ≡ (
        at (SendPoint.chunk_sent side (length bytes)),
        record n { queue = wires (ms ++ (bytes ∷ [])); receiver_asleep = false },
      )
  send_synchronized_whole ms e pos fits =
      enqueue side buffered bytes n pos fits
      ∙ send_data_whole side buffered bytes _ pos (
          omega (
            arith,
            length-append n.queue (encode_size (length bytes)),
            length-encode_size (length bytes),
          ))
      ∙ rw (e, wires-append ms bytes)

  -- with the buffered flag there is no synchronisation
  pub recv_start_whole :
      (ms : List (List ℕ))
      → buffered ≡ true
      → n.queue ≡ wires (bytes ∷ ms)
      → 0 < length bytes
      → length bytes < 2 ^ 32
      → Transfer.recv_start side buffered n ≡ (
        at (RecvPoint.chunk_got side (length bytes) bytes),
        record n { queue = wires ms; sender_asleep = false },
      )
  recv_start_whole ms b e pos small =
      recv_start_buffered side buffered n b ∙ recv_header_whole ms e pos small

  pub send_start_whole :
      (ms : List (List ℕ))
      → buffered ≡ true
      → n.queue ≡ wires ms
      → 0 < length bytes
      → length n.queue + size_bytes + length bytes ≤ channel_bufsize
      → Transfer.send_start side buffered (data_message bytes) n ≡ (
        at (SendPoint.chunk_sent side (length bytes)),
        record n { queue = wires (ms ++ (bytes ∷ [])); receiver_asleep = false },
      )
  send_start_whole ms b e pos fits =
      send_start_buffered side buffered n (data_message bytes) b
      ∙ send_synchronized_whole ms e pos fits

module _ (side buffered : Bool) (bytes : List ℕ) (n : Net) where
  -- a send, and a receive, with all bytes of the message behind it
  pub send_returns :
      Transfer.send_resume side buffered
        (data_message bytes)
        (SendPoint.chunk_sent side (length bytes))
        n
      ≡ (finished (length bytes), n)
  unfolding Transfer.send_resume
  send_returns = rw (==_refl (length bytes))

  pub recv_returns :
      Transfer.recv_resume side buffered (RecvPoint.chunk_got side (length bytes) bytes) n
      ≡ (finished (length bytes, bytes), n)
  unfolding Transfer.recv_resume
  recv_returns = rw (==_refl (length bytes))

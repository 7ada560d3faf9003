-- ===== src/Transfer.antt =====
-- The specification of a channel for one message between two threads: a queue of bytes, and two
-- threads that sleep and wake one another. It stands beside channel_send and channel_recv of
-- modules/csp/csp.c, with no kernel and no ring buffer in it.
pub mod Shows
pub mod Starts
pub mod Link
pub mod System
pub mod Fifo
pub mod Barrier
pub mod Traffic
pub mod Overflow
pub mod Delivery
pub mod Talk
use riot_csp_module.Common.{
  ℕ, ◌+◌, ◌-◌, min, Bool, true, false, List, [], ◌++◌, length, take, drop, ◌==◌, not, if◌then◌else◌,
}
use riot_csp_module.Channel.{channel_bufsize, size_bytes, encode_size, decode_size}
use riot_csp_module.Sched.{Outcome, done, paused}
use riot_csp_module.Send.{Message, SendPoint, unsent, no_data}
use riot_csp_module.Recv.{RecvPoint, Received}

-- The call of a thread: not made yet, at a point, or returned.
pub data Task (L A : Type 0) : Type 0 where
  ready : Task L A
  at : L → Task L A
  finished : A → Task L A

abbrev pub task_of : {L A : Type 0} → Outcome L A → Task L A
task_of (done a) = finished a
task_of (paused p l) = at l

-- The file that the sender writes, and who sleeps.
pub record Net : Type 0 where
  pub queue : List ℕ
  pub sender_asleep : Bool
  pub receiver_asleep : Bool

abbrev pub room : Net → ℕ
room n = channel_bufsize - length n.queue

-- `side` is the index of the file, `buffered` the flag.
module _ (side buffered : Bool) where
  module _ (m : Message) where
    unfoldable pub send_data : ℕ → Net → Task SendPoint ℕ × Net
    send_data bytes n =
        let count = min (length (unsent m bytes)) (room n) in
        let q = n.queue ++ take (room n) (unsent m bytes) in
        if room n == 0
        then (at (SendPoint.data_wait side bytes), record n { sender_asleep = true })
        else if count == 0
        then (at (SendPoint.data_wait side bytes), record n { queue = q; sender_asleep = true })
        else (
          at (SendPoint.chunk_sent side (bytes + count)),
          record n { queue = q; receiver_asleep = false },
        )

    unfoldable pub send_header : Net → Task SendPoint ℕ × Net
    send_header n =
        let count = min size_bytes (room n) in
        let q = n.queue ++ take (room n) (encode_size m.data_size) in
        if count == size_bytes
        then send_data 0 (record n { queue = q })
        else (at (SendPoint.header side), record n { queue = drop count q; sender_asleep = true })

    unfoldable pub send_synchronized : Net → Task SendPoint ℕ × Net
    send_synchronized n = if no_data m then (finished 0, n) else send_header n

    unfoldable pub send_start : Net → Task SendPoint ℕ × Net
    send_start n =
        if buffered
        then send_synchronized n
        else if n.receiver_asleep
        then (at SendPoint.synchronized, record n { receiver_asleep = false })
        else (at SendPoint.synchronized, record n { sender_asleep = true })

    unfoldable pub send_resume : SendPoint → Net → Task SendPoint ℕ × Net
    send_resume SendPoint.synchronized n = send_synchronized n
    send_resume (SendPoint.header _) n = send_header n
    send_resume (SendPoint.chunk_sent _ bytes) n =
        if bytes == m.data_size then (finished bytes, n) else send_data bytes n
    send_resume (SendPoint.data_wait _ bytes) n = send_data bytes n

  unfoldable pub recv_data : ℕ → List ℕ → Net → Task RecvPoint Received × Net
  recv_data data_size out n =
      let chunk = take (data_size - length out) n.queue in
      let q = drop (data_size - length out) n.queue in
      if length n.queue == 0
      then (at (RecvPoint.data_wait side data_size out), record n { receiver_asleep = true })
      else if length chunk == 0
      then (
        at (RecvPoint.data_wait side data_size out),
        record n { queue = q; receiver_asleep = true },
      )
      else (
        at (RecvPoint.chunk_got side data_size (out ++ chunk)),
        record n { queue = q; sender_asleep = false },
      )

  unfoldable pub recv_header : Net → Task RecvPoint Received × Net
  recv_header n =
      if not (length (take size_bytes n.queue) == size_bytes)
      then (at (RecvPoint.header side), record n { receiver_asleep = true })
      else if not (min size_bytes (length n.queue) == size_bytes)
      then (finished (0, []), record n { queue = drop size_bytes n.queue })
      else recv_data (decode_size (take size_bytes n.queue)) []
          (record n { queue = drop size_bytes n.queue })

  unfoldable pub recv_start : Net → Task RecvPoint Received × Net
  recv_start n =
      if buffered
      then recv_header n
      else if n.sender_asleep
      then (at RecvPoint.synchronized, record n { sender_asleep = false })
      else (at RecvPoint.synchronized, record n { receiver_asleep = true })

  unfoldable pub recv_resume : RecvPoint → Net → Task RecvPoint Received × Net
  recv_resume RecvPoint.synchronized n = recv_header n
  recv_resume (RecvPoint.header _) n = recv_header n
  recv_resume (RecvPoint.chunk_got _ data_size out) n =
      if length out == data_size then (finished (length out, out), n) else recv_data data_size out n
  recv_resume (RecvPoint.data_wait _ data_size out) n = recv_data data_size out n

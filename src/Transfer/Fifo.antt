-- ===== src/Transfer/Fifo.antt =====
-- Whole messages in the file of a buffered channel, and channel_send and channel_recv of
-- modules/csp/csp.c on them.
pub mod Whole
use riot_csp_module.Common.{
  ℕ, ◌+◌, ◌-◌, ◌^◌, ◌≤◌, ◌<◌, min, ◌≡◌, refl, sym, ap, ◌∙◌, Bool, true, false, List, [], ◌∷◌, ◌++◌,
  length, take, arith, ==-eq_true, ==_refl, ==-eq_false_pos, length-append, take-all,
  take-append_exact, drop-append_exact, append_assoc, append-nil, suc, subst,
}
use riot_csp_module.Riot.{Riot}
use riot_csp_module.Channel.{
  World, channel_bufsize, size_bytes, encode_size, length-encode_size, decode-encode_size,
}
use riot_csp_module.Send.{SendPoint, no_data-message, channel_send}
use riot_csp_module.Send.{send_resume}
use riot_csp_module.Send.Refines.{channel_send-Agrees, send_resume-Agrees}
use riot_csp_module.Recv.{RecvPoint, channel_recv, recv_resume}
use riot_csp_module.Recv.Refines.{channel_recv-Agrees, recv_resume-Agrees}
use riot_csp_module.Transfer
use riot_csp_module.Transfer.{Net, room, at, finished}
use riot_csp_module.Transfer.Starts.{send_start_buffered, recv_start_buffered}
use riot_csp_module.Transfer.Shows.{Parties, Shows, Agrees}
use riot_csp_module.Transfer.System.{data_message}
use riot_csp_module.Transfer.Fifo.Whole.{wires, send_start_whole, recv_start_whole}

module _ {R : Riot} (p : Parties) (bytes : List ℕ) (n n' : Net) (w w' : World R) where
  -- A buffered channel holds the messages `ms`, whole, and has room for one more. Then channel_send
  -- puts its message behind them in one go, with its size in front, and readies a sleeping receiver;
  -- and when the sender runs again, in any later state `w'` of the channel, the call returns the size.
  pub channel_send-enqueues :
      (ms : List (List ℕ))
      → p.buffered ≡ true
      → n.queue ≡ wires ms
      → 0 < length bytes
      → length n.queue + size_bytes + length bytes ≤ channel_bufsize
      → R.getpid w.kern ≡ p.sender
      → Shows p n w
      → R.getpid w'.kern ≡ p.sender
      → Shows p n' w'
      → Agrees p
          (
            at (SendPoint.chunk_sent p.side (length bytes)),
            record n { queue = wires (ms ++ (bytes ∷ [])); receiver_asleep = false },
          )
          (channel_send (data_message bytes) w)
        × Agrees p
            (finished (length bytes), n')
            (send_resume (data_message bytes) (SendPoint.chunk_sent p.side (length bytes)) w')
  unfolding Transfer.send_resume
  channel_send-enqueues ms b e pos fits me h me' h' = (
    subst (λ t. Agrees p t (channel_send (data_message bytes) w))
        (send_start_whole p.side p.buffered bytes n ms b e pos fits)
        (channel_send-Agrees p (data_message bytes) n w me h),
    subst
        (λ t.
          Agrees p t
            (send_resume (data_message bytes) (SendPoint.chunk_sent p.side (length bytes)) w'))
        (rw (==_refl (length bytes)))
        (send_resume-Agrees p (data_message bytes) (SendPoint.chunk_sent p.side (length bytes)) n'
          w' refl me' h'),
  )

  -- A buffered channel holds the message `bytes` and behind it the messages `ms`, whole. Then
  -- channel_recv takes `bytes` out in one go and leaves `ms`, and readies a sleeping sender; and when
  -- the receiver runs again, in any later state `w'` of the channel, the call returns the size and the bytes.
  pub channel_recv-dequeues :
      (ms : List (List ℕ))
      → p.buffered ≡ true
      → n.queue ≡ wires (bytes ∷ ms)
      → 0 < length bytes
      → length bytes < 2 ^ 32
      → R.getpid w.kern ≡ p.receiver
      → Shows p n w
      → R.getpid w'.kern ≡ p.receiver
      → Shows p n' w'
      → Agrees p
          (
            at (RecvPoint.chunk_got p.side (length bytes) bytes),
            record n { queue = wires ms; sender_asleep = false },
          )
          (channel_recv true w)
        × Agrees p
            (finished (length bytes, bytes), n')
            (recv_resume true (RecvPoint.chunk_got p.side (length bytes) bytes) w')
  unfolding Transfer.recv_resume
  channel_recv-dequeues ms b e pos small me h me' h' = (
    subst (λ t. Agrees p t (channel_recv true w))
        (recv_start_whole p.side p.buffered bytes n ms b e pos small)
        (channel_recv-Agrees p n w me h),
    subst (λ t. Agrees p t (recv_resume true (RecvPoint.chunk_got p.side (length bytes) bytes) w'))
        (rw (==_refl (length bytes)))
        (recv_resume-Agrees p (RecvPoint.chunk_got p.side (length bytes) bytes) n' w' refl me' h'),
  )

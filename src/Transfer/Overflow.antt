-- ===== src/Transfer/Overflow.antt =====
-- channel_send of modules/csp/csp.c on a buffered channel whose file has no room for the size of the
-- message.
use riot_csp_module.Common.{
  ℕ, ◌<◌, min, ◌≡◌, true, List, ◌++◌, length, take, drop, arith, ==-eq_false, drop-append, subst,
}
use riot_csp_module.Riot.{Riot}
use riot_csp_module.Channel.{World, size_bytes, encode_size}
use riot_csp_module.Send.{SendPoint, no_data-message, channel_send}
use riot_csp_module.Send.Refines.{channel_send-Agrees}
use riot_csp_module.Transfer
use riot_csp_module.Transfer.{Net, room, at}
use riot_csp_module.Transfer.Starts.{send_start_buffered}
use riot_csp_module.Transfer.Shows.{Parties, Shows, Agrees}
use riot_csp_module.Transfer.System.{data_message}

module _ {R : Riot} (p : Parties) (bytes : List ℕ) (n : Net) (w : World R) where
  -- A buffered channel whose file has room for fewer bytes than a size has. channel_send fills the room
  -- with the front of the size and then drops as many bytes from the other end of the file: the oldest
  -- bytes in it are lost, a part of the size stays behind the rest, and the sender sleeps.
  pub channel_send-loses :
      p.buffered ≡ true
      → 0 < length bytes
      → room n < size_bytes
      → R.getpid w.kern ≡ p.sender
      → Shows p n w
      → Agrees p
          (
            at (SendPoint.header p.side),
            record n {
              queue = drop (room n) n.queue ++ take (room n) (encode_size (length bytes));
              sender_asleep = true;
            },
          )
          (channel_send (data_message bytes) w)
  unfolding Transfer.send_synchronized Transfer.send_header
  channel_send-loses b pos short me h =
      subst (λ t. Agrees p t (channel_send (data_message bytes) w)) spec
        (channel_send-Agrees p (data_message bytes) n w me h)
    where
      count : min size_bytes (room n) ≡ room n
      count = omega arith

      spec : Transfer.send_start p.side p.buffered (data_message bytes) n ≡ (
        at (SendPoint.header p.side),
        record n {
          queue = drop (room n) n.queue ++ take (room n) (encode_size (length bytes));
          sender_asleep = true;
        },
      )
      spec = rw (
        send_start_buffered p.side p.buffered n (data_message bytes) b,
        no_data-message bytes pos,
        count,
        ==-eq_false (room n) size_bytes short,
        drop-append (room n) n.queue (take (room n) (encode_size (length bytes))) (omega arith),
      )

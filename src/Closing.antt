-- ===== src/Closing.antt =====
-- A closed channel, and the flags: channel_close and channel_set_buffered against the calls of
-- modules/csp/csp.c.
pub mod Waits
pub mod Lost
use riot_csp_module.Common.{
  ℕ, ◌*◌, ◌<◌, ◌≡◌, ap, ◌∙◌, Bool, true, List, [], ◌++◌, length, take, drop, not, ◌==◌, ◌^◌, ◌||◌,
  arith, length-append, take-append_exact, drop-append_exact,
}
use riot_csp_module.Riot.{Riot}
use riot_csp_module.Channel.{
  Channel, World, InFlags, channel_get_rb, channel_is_creator, channel_is_closed,
  channel_is_buffered, channel_is_empty, channel_close, channel_set_buffered, closed-add_closed,
  buffered-add_closed, has_flag, channel_closed, buffered-add_shifted, size_bytes, encode_size,
  length-encode_size, decode-encode_size,
}
use riot_csp_module.Sched.{done, restore, disable}
use riot_csp_module.Send.{Message, with_rb, channel_send}
use riot_csp_module.Recv.{
  channel_recv, channel_recv_msg, recv_msg, recv_header, recv_data, gives_up,
}
use riot_csp_module.Drop.{channel_drop}
use riot_csp_module.Transfer.Shows.{get_rb-set_rb, fields-set_rb}
use riot_csp_module.Try.{channel_try_send, channel_try_recv}

module _ {R : Riot} where
  abbrev pub closed : World R → World R
  closed w = record w { chan = channel_close w.chan }

  -- After channel_close a channel is closed, as buffered as it was, and refuses every message:
  -- channel_send and channel_try_send return 0 at once and change nothing. No flags but those of
  -- enum CHANNEL_FLAGS are set.
  pub close-refuses :
      (m : Message) (w : World R)
      → InFlags w.flags
      → (channel_is_closed (closed w).chan ≡ true)
        × (channel_is_buffered (closed w).chan ≡ channel_is_buffered w.chan)
        × (channel_send m (closed w) ≡ (done 0, closed w))
        × (channel_try_send m (closed w) ≡ (0, closed w))
  unfolding channel_close channel_is_closed channel_is_buffered channel_send channel_try_send
  close-refuses m w h = (
    closed-add_closed w.flags h,
    buffered-add_closed w.flags h,
    rw (closed-add_closed w.flags h),
    grind (arith, closed-add_closed w.flags h),
  )

  -- channel_set_buffered sets the buffered flag for `true`. For `false` it leaves the flag as it
  -- is: a buffered channel stays buffered. Whether the channel is closed does not change. No flags
  -- but those of enum CHANNEL_FLAGS are set.
  set_buffered-keeps :
      (c : Channel R) (b : Bool)
      → InFlags c.flags
      → (channel_is_buffered (channel_set_buffered c b) ≡ (b || channel_is_buffered c))
        × (channel_is_closed (channel_set_buffered c b) ≡ channel_is_closed c)
  unfolding channel_is_closed channel_is_buffered channel_set_buffered
  set_buffered-keeps c b h = buffered-add_shifted b c.flags h

  -- On a closed channel channel_recv, channel_try_recv and channel_drop look at the file that the
  -- caller sends on: if that is empty they return 0 at once and change nothing, whatever the file
  -- holds that they read.
  pub closed-gives_up :
      (buffer : Bool) (w : World R)
      → channel_is_closed w.chan ≡ true
      → R.contents (channel_get_rb (channel_is_creator w) w.chan) ≡ []
      → (channel_recv buffer w ≡ (done (0, []), w))
        × (channel_try_recv buffer w ≡ ((0, []), w))
        × (channel_drop w ≡ (done 0, w))
  unfolding channel_recv channel_try_recv channel_drop channel_is_empty
  closed-gives_up buffer w c e = (rw (c, own_empty), grind (arith, c, own_empty), rw (c, own_empty))
    where
      own_empty : channel_is_empty w ≡ true
      own_empty =
          R.empty_lem (channel_get_rb (channel_is_creator w) w.chan)
          ∙ ap (λ (q : List ℕ). length q == 0) e

  closed_data-done :
      (side : Bool) (size state : ℕ) (w : World R)
      → channel_is_closed w.chan ≡ true
      → R.rb_avail (channel_get_rb side w.chan) < size
      → recv_data side size [] state w ≡ (done (0, []), restore state w)
  unfolding recv_data gives_up
  closed_data-done side size state w c less = ground (arith, c)

  -- the size in front of a message is read and taken out
  header_read :
      (bytes : List ℕ) (side : Bool) (state : ℕ) (w : World R)
      → length bytes < 2 ^ 32
      → R.contents (channel_get_rb side w.chan) ≡ encode_size (length bytes) ++ bytes
      → recv_header side state w
        ≡ recv_data side
            (length bytes)
            []
            state
            (with_rb side (R.rb_drop (channel_get_rb side w.chan) size_bytes).0 w)
  unfolding recv_header
  header_read bytes side state w small e =
      let size = encode_size (length bytes) in
      let rb = channel_get_rb side w.chan in
      let peeked : R.rb_peek rb size_bytes ≡ size =
        R.peek_lem rb size_bytes
        ∙ ap (take size_bytes) e
        ∙ take-append_exact size_bytes size bytes (length-encode_size (length bytes)) in
      let dropped : (R.rb_drop rb size_bytes).1 ≡ size_bytes = omega (
        arith,
        R.drop-count rb size_bytes,
        ap (λ (q : List ℕ). length q) e,
        length-append size bytes,
        length-encode_size (length bytes),
      ) in
      rw (
        peeked,
        length-encode_size (length bytes),
        dropped,
        decode-encode_size (length bytes) small,
      )

  -- A closed channel whose file to the caller holds one whole message of more bytes than half of the
  -- file's capacity: channel_recv_msg takes its size out and then returns 0 with nothing stored, and
  -- the data stays in the file without its size.
  pub closed-loses :
      (bytes : List ℕ) (w : World R)
      → channel_is_closed w.chan ≡ true
      → length bytes < 2 ^ 32
      → R.capacity (channel_get_rb (not (channel_is_creator w)) w.chan) < 2 * length bytes
      → R.contents (channel_get_rb (not (channel_is_creator w)) w.chan)
        ≡ encode_size (length bytes) ++ bytes
      → ((channel_recv_msg w).0 ≡ done (0, []))
        × (R.contents (channel_get_rb (not (channel_is_creator w)) (channel_recv_msg w).1.chan)
            ≡ bytes)
  unfolding channel_recv_msg recv_msg channel_is_creator channel_is_closed
  closed-loses bytes w c small big e =
      rw (R.getpid-irq_disable w.kern)
        (ap (λ r. r.0) gone, ap (λ r. R.contents (channel_get_rb side r.1.chan)) gone ∙ left)
    where
      side : Bool
      side = not (w.creator == R.getpid w.kern)

      rb : R.Rb
      rb = channel_get_rb side w.chan

      read : World R
      read = with_rb side (R.rb_drop rb size_bytes).0 (disable w).1

      left : R.contents (channel_get_rb side read.chan) ≡ bytes
      left =
          ap R.contents (get_rb-set_rb side (R.rb_drop rb size_bytes).0 w.chan)
          ∙ R.drop-contents rb size_bytes
          ∙ ap (drop size_bytes) e
          ∙ drop-append_exact size_bytes (encode_size (length bytes)) bytes
              (length-encode_size (length bytes))

      room : R.rb_avail (channel_get_rb side read.chan) < length bytes
      room = omega (
        arith,
        R.avail_lem (channel_get_rb side read.chan),
        ap R.capacity (get_rb-set_rb side (R.rb_drop rb size_bytes).0 w.chan),
        R.drop-capacity rb size_bytes,
        ap (λ (q : List ℕ). length q) left,
        big,
      )

      gone :
          recv_header side (disable w).0 (disable w).1 ≡ (done (0, []), restore (disable w).0 read)
      gone =
          header_read bytes side (disable w).0 (disable w).1 small e
          ∙ closed_data-done side (length bytes) (disable w).0 read
              (ap (has_flag channel_closed)
                  (fields-set_rb side (R.rb_drop rb size_bytes).0 w.chan).0
                ∙ c)
              room

-- ===== src/Closing/Lost.antt =====
-- A message that is lost when its sender closes the channel after the send (channel_close and channel_recv
-- of modules/csp/csp.c).
use riot_csp_module.Common.{
  ℕ, ◌<◌, ◌^◌, ◌≡◌, ap, ◌∙◌, Bool, true, false, List, [], ◌++◌, length, drop, not, ◌==◌, refl,
  arith, drop-append_exact,
}
use riot_csp_module.Riot.{Riot}
use riot_csp_module.Channel.{
  World, channel_get_rb, channel_is_creator, channel_is_closed, channel_is_empty, channel_closed,
  has_flag, set_rb, Channel, size_bytes, encode_size, length-encode_size,
}
use riot_csp_module.Sched.{done, restore, disable}
use riot_csp_module.Send.{with_rb}
use riot_csp_module.Recv.{
  RecvPoint, recv_resume, recv_header, recv_data, recv_synchronized, recv_msg, gives_up,
}
use riot_csp_module.Transfer.Shows.{get_rb-set_rb, fields-set_rb}
use riot_csp_module.Closing.{header_read}

other-set_rb :
    {R : Riot} (side : Bool) (b : R.Rb) (c : Channel R)
    → channel_get_rb side (set_rb (not side) b c) ≡ channel_get_rb side c
other-set_rb false b c = refl
other-set_rb true b c = refl

module _ {R : Riot} where
  -- One turn over the data, with nothing stored yet, on a closed channel whose file from the caller is empty.
  closed_turn :
      (side : Bool) (size state : ℕ) (w : World R)
      → channel_is_closed w.chan ≡ true
      → channel_is_empty w ≡ true
      → recv_data side size [] state w ≡ (done (0, []), restore state w)
  unfolding recv_data gives_up
  closed_turn side size state w c e = ground (arith, c, e)

  header-loses :
      (bytes : List ℕ) (mine : Bool) (state : ℕ) (w : World R)
      → channel_is_closed w.chan ≡ true
      → length bytes < 2 ^ 32
      → channel_is_creator w ≡ mine
      → R.contents (channel_get_rb mine w.chan) ≡ []
      → R.contents (channel_get_rb (not mine) w.chan) ≡ encode_size (length bytes) ++ bytes
      → ((recv_header (not mine) state w).0 ≡ done (0, []))
        × (R.contents (channel_get_rb (not mine) (recv_header (not mine) state w).1.chan) ≡ bytes)
  unfolding channel_is_closed channel_is_creator channel_is_empty
  header-loses bytes mine state w c small is_mine own e =
      (ap (λ r. r.0) gone, ap (λ r. R.contents (channel_get_rb (not mine) r.1.chan)) gone ∙ left)
    where
      side : Bool
      side = not mine

      rb : R.Rb
      rb = channel_get_rb side w.chan

      read : World R
      read = with_rb side (R.rb_drop rb size_bytes).0 w

      left : R.contents (channel_get_rb side read.chan) ≡ bytes
      left =
          ap R.contents (get_rb-set_rb side (R.rb_drop rb size_bytes).0 w.chan)
          ∙ R.drop-contents rb size_bytes
          ∙ ap (drop size_bytes) e
          ∙ drop-append_exact size_bytes (encode_size (length bytes)) bytes
              (length-encode_size (length bytes))

      still_mine : channel_is_creator read ≡ mine
      still_mine =
          ap (λ (n : ℕ). n == R.getpid w.kern)
            (fields-set_rb side (R.rb_drop rb size_bytes).0 w.chan).1
          ∙ is_mine

      own_empty : channel_is_empty read ≡ true
      own_empty =
          R.empty_lem (channel_get_rb (channel_is_creator read) read.chan)
          ∙ ap (λ (s : Bool). length (R.contents (channel_get_rb s read.chan)) == 0) still_mine
          ∙ ap (λ b. length (R.contents b) == 0)
              (other-set_rb mine (R.rb_drop rb size_bytes).0 w.chan)
          ∙ ap (λ (q : List ℕ). length q == 0) own

      gone : recv_header side state w ≡ (done (0, []), restore state read)
      gone =
          header_read bytes side state w small e
          ∙ closed_turn side (length bytes) state read
              (ap (has_flag channel_closed)
                  (fields-set_rb side (R.rb_drop rb size_bytes).0 w.chan).0
                ∙ c)
              own_empty

  -- A thread waits in channel_recv, at its synchronisation or for a size, on a channel that is closed
  -- meanwhile, after a whole message was put into its file; the file that it sends on itself is empty.
  -- When it goes on it takes the size out of the file and returns 0 with nothing stored, and the data
  -- stays in the file without its size: closing after the last send loses the message.
  pub closing-loses :
      (bytes : List ℕ) (w : World R)
      → channel_is_closed w.chan ≡ true
      → length bytes < 2 ^ 32
      → R.contents (channel_get_rb (channel_is_creator w) w.chan) ≡ []
      → R.contents (channel_get_rb (not (channel_is_creator w)) w.chan)
        ≡ encode_size (length bytes) ++ bytes
      → (((recv_resume true RecvPoint.synchronized w).0 ≡ done (0, []))
          × (R.contents (
                channel_get_rb
                  (not (channel_is_creator w))
                  (recv_resume true RecvPoint.synchronized w).1.chan)
              ≡ bytes))
        × (((recv_resume true (RecvPoint.header (not (channel_is_creator w))) w).0 ≡ done (0, []))
            × (R.contents (
                  channel_get_rb
                    (not (channel_is_creator w))
                    (recv_resume true (RecvPoint.header (not (channel_is_creator w))) w).1.chan)
                ≡ bytes))
  unfolding recv_resume recv_synchronized recv_msg channel_is_creator
  closing-loses bytes w c small own e =
      let mine = channel_is_creator w in
      let on_disabled =
        header-loses bytes mine (disable w).0 (disable w).1 c small
          (ap (λ (n : ℕ). w.creator == n) (R.getpid-irq_disable w.kern)) own e in
      (rw (R.getpid-irq_disable w.kern) on_disabled, on_disabled)

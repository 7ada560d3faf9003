-- ===== src/Try/RoundTrip.antt =====
-- channel_try_send and then channel_try_recv of modules/csp/csp.c by the other side: what comes out
-- of what went in.
use riot_csp_module.Common.{
  ℕ, ◌+◌, ◌≤◌, ◌<◌, min, ◌≡◌, refl, ap, ◌∙◌, Bool, true, false, List, [], ◌++◌, length, take, drop,
  not, arith, length-append, length-take, drop-append_exact,
}
use riot_csp_module.Riot.{Riot}
use riot_csp_module.Channel.{
  World, channel_get_rb, channel_is_creator, channel_is_closed, has_flag, channel_closed,
  size_bytes, encode_size, length-encode_size,
}
use riot_csp_module.Send.{Message}
use riot_csp_module.Try.{channel_try_send, channel_try_recv, try_send_masked, try_add_size}
use riot_csp_module.Try.Contents.{
  file, sent_count, sent_file, sent_whole, try_send-file, try_recv-file,
}
use riot_csp_module.Transfer.System.{data_message, on}

not-not : (b : Bool) → not (not b) ≡ b
not-not true = refl
not-not false = refl

module _ {R : Riot} where
  masked-flags :
      (m : Message) (side : Bool) (state : ℕ) (w : World R)
      → (try_send_masked m side state w).1.flags ≡ w.flags
  unfolding try_send_masked try_add_size
  masked-flags m false state w = grind arith
  masked-flags m true state w = grind arith

  try_send-flags : (m : Message) (w : World R) → (channel_try_send m w).1.flags ≡ w.flags
  unfolding channel_try_send
  try_send-flags m w = grind (arith, masked-flags m)

  module _ (bytes : List ℕ) (w : World R) (k : R.State) (pos : 0 < length bytes)
      (still_open : channel_is_closed w.chan ≡ false) (empty : file (channel_is_creator w) w ≡ [])
      (fits : size_bytes + length bytes ≤ R.capacity (channel_get_rb (channel_is_creator w) w.chan))
      (other : channel_is_creator (on k (channel_try_send (data_message bytes) w).1)
        ≡ not (channel_is_creator w)) where
    -- the file after the send
    sent :
        ((channel_try_send (data_message bytes) w).0 ≡ length bytes)
        × (file (channel_is_creator w) (channel_try_send (data_message bytes) w).1
            ≡ encode_size (length bytes) ++ bytes)
    sent = (
      put.0 ∙ whole.0,
      put.1 ∙ whole.1 ∙ ap (λ q. (q ++ encode_size (length bytes)) ++ bytes) empty,
    )
      where
        rb : R.Rb
        rb = channel_get_rb (channel_is_creator w) w.chan

        put :
            ((channel_try_send (data_message bytes) w).0 ≡ sent_count R.buffers rb bytes)
            × (file (channel_is_creator w) (channel_try_send (data_message bytes) w).1
                ≡ sent_file R.buffers rb bytes)
        put = try_send-file bytes w pos still_open

        whole :
            (sent_count R.buffers rb bytes ≡ length bytes)
            × (sent_file R.buffers rb bytes
                ≡ (R.contents rb ++ encode_size (length bytes)) ++ bytes)
        whole = sent_whole R.buffers rb bytes (omega (arith, ap (λ (q : List ℕ). length q) empty))

    -- An open channel whose file from the caller is empty and takes the data with its size:
    -- channel_try_send returns the size of the data. If the other side calls channel_try_recv next,
    -- it gets no more than the first four bytes of the data, whatever their number.
    pub try_send-try_recv :
        ((channel_try_send (data_message bytes) w).0 ≡ length bytes)
        × ((channel_try_recv true (on k (channel_try_send (data_message bytes) w).1)).0
            ≡ (min size_bytes (length bytes), take size_bytes bytes))
    unfolding channel_is_closed
    try_send-try_recv = (
      sent.0,
      (try_recv-file after
            (ap (has_flag channel_closed) (try_send-flags (data_message bytes) w) ∙ still_open)
            enough).0
          ∙ ap
              (λ (q : List ℕ).
                (length (take size_bytes (drop size_bytes q)), take size_bytes (drop size_bytes q)))
              holds
          ∙ rw (
            drop-append_exact size_bytes (encode_size (length bytes)) bytes
                (length-encode_size (length bytes)),
            length-take size_bytes bytes,
          ),
    )
      where
        after : World R
        after = on k (channel_try_send (data_message bytes) w).1

        holds : file (not (channel_is_creator after)) after ≡ encode_size (length bytes) ++ bytes
        holds = ap (λ s. file s after) (ap not other ∙ not-not (channel_is_creator w)) ∙ sent.1

        enough : size_bytes ≤ length (file (not (channel_is_creator after)) after)
        enough = omega (
          arith,
          ap (λ (q : List ℕ). length q) holds,
          length-append (encode_size (length bytes)) bytes,
          length-encode_size (length bytes),
        )

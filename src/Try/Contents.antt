-- ===== src/Try/Contents.antt =====
-- What channel_try_send and channel_try_recv of modules/csp/csp.c return and do to the file, in
-- terms of the bytes in it.
use riot_csp_module.Common.{
  ℕ, ◌+◌, ◌-◌, ◌≤◌, ◌<◌, min, ◌≡◌, refl, ap, ap₂, ◌∙◌, Bool, true, false, List, ◌++◌, length, take,
  drop, ◌==◌, ltb, not, arith, if◌then◌else◌, Bool-cases, inl, inr, ltb→lt, ltb-eq_false,
  length-append, length-take, take-all,
}
use riot_csp_module.Riot.{Riot, RingBuffer}
use riot_csp_module.Channel.{
  World, channel_get_rb, channel_is_creator, channel_is_closed, size_bytes, encode_size,
  length-encode_size,
}
use riot_csp_module.Sched.{restore, disable}
use riot_csp_module.Send.{no_data-message, with_rb}
use riot_csp_module.Try.{
  channel_try_send, channel_try_recv, try_send_masked, try_add_size, try_recv_masked,
}
use riot_csp_module.Transfer.System.{data_message}

module _ (B : RingBuffer) (rb : B.Rb) (bytes : List ℕ) where
  abbrev room_left : ℕ
  room_left = B.capacity rb - length (B.contents rb)

  size_count : (B.rb_add rb (encode_size (length bytes))).1 ≡ min size_bytes room_left
  size_count =
      omega (arith, B.add-count rb (encode_size (length bytes)), length-encode_size (length bytes))

  size_short :
      room_left < size_bytes → ((B.rb_add rb (encode_size (length bytes))).1 == size_bytes) ≡ false
  size_short h = ground (arith, size_count)

  size_whole :
      size_bytes ≤ room_left → ((B.rb_add rb (encode_size (length bytes))).1 == size_bytes) ≡ true
  size_whole h = ground (arith, size_count)

  contents-size :
      size_bytes ≤ room_left
      → B.contents (B.rb_add rb (encode_size (length bytes))).0
        ≡ B.contents rb ++ (encode_size (length bytes))
  contents-size h =
      B.add-contents rb (encode_size (length bytes))
      ∙ ap (λ xs. B.contents rb ++ xs)
          (take-all room_left (encode_size (length bytes))
            (omega (arith, length-encode_size (length bytes))))

  room_after :
      size_bytes ≤ room_left
      → B.capacity (B.rb_add rb (encode_size (length bytes))).0
          - length (B.contents (B.rb_add rb (encode_size (length bytes))).0)
        ≡ room_left - size_bytes
  room_after h = omega (
    arith,
    B.add-capacity rb (encode_size (length bytes)),
    ap (λ (xs : List ℕ). length xs) (contents-size h),
    length-append (B.contents rb) (encode_size (length bytes)),
    length-encode_size (length bytes),
  )

  data_count :
      size_bytes ≤ room_left
      → (B.rb_add (B.rb_add rb (encode_size (length bytes))).0 bytes).1
        ≡ min (length bytes) (room_left - size_bytes)
  data_count h =
      B.add-count (B.rb_add rb (encode_size (length bytes))).0 bytes
      ∙ ap (λ k. min (length bytes) k) (room_after h)

  contents-data :
      size_bytes ≤ room_left
      → B.contents (B.rb_add (B.rb_add rb (encode_size (length bytes))).0 bytes).0
        ≡ (B.contents rb ++ (encode_size (length bytes))) ++ take (room_left - size_bytes) bytes
  contents-data h =
      B.add-contents (B.rb_add rb (encode_size (length bytes))).0 bytes
      ∙ ap₂ (λ xs k. xs ++ take k bytes) (contents-size h) (room_after h)

  contents-dropped :
      (n : ℕ)
      → B.contents (B.rb_drop (B.rb_add rb (encode_size (length bytes))).0 n).0
        ≡ drop n (B.contents rb ++ take room_left (encode_size (length bytes)))
  contents-dropped n =
      B.drop-contents (B.rb_add rb (encode_size (length bytes))).0 n
      ∙ ap (drop n) (B.add-contents rb (encode_size (length bytes)))

  -- What channel_try_send returns and leaves in the file of its data, by the room left in it.
  abbrev pub sent_count : ℕ
  sent_count =
      if ltb room_left (length bytes)
      then 0
      else if ltb room_left size_bytes
      then 0
      else min (length bytes) (room_left - size_bytes)

  abbrev pub sent_file : List ℕ
  sent_file =
      if ltb room_left (length bytes)
      then B.contents rb
      else if ltb room_left size_bytes
      then drop 1 (B.contents rb ++ take room_left (encode_size (length bytes)))
      else (B.contents rb ++ (encode_size (length bytes))) ++ take (room_left - size_bytes) bytes

  -- with room for all of it
  pub sent_whole :
      size_bytes + length bytes ≤ room_left
      → (sent_count ≡ length bytes)
        × (sent_file ≡ (B.contents rb ++ encode_size (length bytes)) ++ bytes)
  sent_whole h =
      rw
        (
          ltb-eq_false room_left (length bytes) (omega arith),
          ltb-eq_false room_left size_bytes (omega arith),
          take-all (room_left - size_bytes) bytes (omega arith),
        )
        (omega arith, refl)

module _ {R : Riot} where
  abbrev pub file : Bool → World R → List ℕ
  file side w = R.contents (channel_get_rb side w.chan)

  pub file-with_rb :
      (side : Bool) (state : ℕ) (b : R.Rb) (w : World R)
      → file side (restore {R = R} state (with_rb side b w)) ≡ R.contents b
  file-with_rb false state b w = refl
  file-with_rb true state b w = refl

  abbrev rb_of : Bool → World R → R.Rb
  rb_of side w = channel_get_rb side w.chan

  masked-file :
      (bytes : List ℕ) (side : Bool) (state : ℕ) (w : World R)
      → ((try_send_masked (data_message bytes) side state w).0
          ≡ sent_count R.buffers (channel_get_rb side w.chan) bytes)
        × (file side (try_send_masked (data_message bytes) side state w).1
            ≡ sent_file R.buffers (channel_get_rb side w.chan) bytes)
  unfolding try_send_masked try_add_size
  masked-file bytes side state w =
      rw (R.avail_lem (rb_of side w))
        (elim (Bool-cases (ltb (room_left R.buffers (rb_of side w) bytes) (length bytes))) [
          | inl more ↦
              rw more (refl, file-with_rb side state _ w ∙ R.drop-contents (rb_of side w) 0)
          | inr data_fits ↦
              rw data_fits
                (elim (Bool-cases (ltb (room_left R.buffers (rb_of side w) bytes) size_bytes)) [
                  | inl short ↦
                      rw (short, size_short R.buffers (rb_of side w) bytes (ltb→lt _ _ short))
                        (
                          refl,
                          file-with_rb side state _ w
                              ∙ contents-dropped R.buffers (rb_of side w) bytes 1,
                        )
                  | inr whole ↦
                      let le : size_bytes ≤ room_left R.buffers (rb_of side w) bytes =
                        ground (arith, whole) in
                      rw
                        (
                          whole,
                          size_whole R.buffers (rb_of side w) bytes le,
                          take-all (length bytes) bytes (omega arith),
                        )
                        (
                          data_count R.buffers (rb_of side w) bytes le,
                          file-with_rb side state _ w
                              ∙ contents-data R.buffers (rb_of side w) bytes le,
                        )
                ])
        ])

  -- An open channel, and data of at least one byte. With room for fewer bytes than the data has in the
  -- caller's file, channel_try_send returns 0 and the file keeps its bytes. Else, with room for fewer
  -- bytes than a size has, it returns 0, and the file holds its bytes and behind them the front of the
  -- size that fits, without the oldest byte of these. Else it puts the size in and behind it as much of
  -- the data as fits, and returns how much that is.
  pub try_send-file :
      (bytes : List ℕ) (w : World R)
      → 0 < length bytes
      → channel_is_closed w.chan ≡ false
      → ((channel_try_send (data_message bytes) w).0
          ≡ sent_count R.buffers (rb_of (channel_is_creator w) w) bytes)
        × (file (channel_is_creator w) (channel_try_send (data_message bytes) w).1
            ≡ sent_file R.buffers (rb_of (channel_is_creator w) w) bytes)
  unfolding channel_try_send channel_is_creator
  try_send-file bytes w pos still_open =
      rw (no_data-message bytes pos, still_open, R.getpid-irq_disable w.kern)
        (masked-file bytes (channel_is_creator w) _ (disable w).1)

  -- An open channel whose file to the caller holds at least four bytes: channel_try_recv stores and
  -- returns the four bytes, or what there is of them, that stand after the first four, and takes
  -- both out, whatever the first four say.
  pub try_recv-file :
      (w : World R)
      → channel_is_closed w.chan ≡ false
      → size_bytes ≤ length (file (not (channel_is_creator w)) w)
      → ((channel_try_recv true w).0 ≡ (
        length (take size_bytes (drop size_bytes (file (not (channel_is_creator w)) w))),
        take size_bytes (drop size_bytes (file (not (channel_is_creator w)) w)),
      ))
        × (file (not (channel_is_creator w)) (channel_try_recv true w).1
            ≡ drop size_bytes (drop size_bytes (file (not (channel_is_creator w)) w)))
  unfolding channel_try_recv try_recv_masked
  try_recv-file w still_open le =
      let rb = rb_of (not (channel_is_creator w)) w in
      let count : length (take size_bytes (R.contents rb)) ≡ size_bytes =
        omega (arith, length-take size_bytes (R.contents rb)) in
      let out : (R.rb_get (R.rb_get rb size_bytes).0 size_bytes).1
          ≡ take size_bytes (drop size_bytes (R.contents rb)) =
        R.get-bytes _ size_bytes ∙ ap (take size_bytes) (R.get-contents rb size_bytes) in
      let left : R.contents (R.rb_get (R.rb_get rb size_bytes).0 size_bytes).0
          ≡ drop size_bytes (drop size_bytes (R.contents rb)) =
        R.get-contents _ size_bytes ∙ ap (drop size_bytes) (R.get-contents rb size_bytes) in
      rw (still_open, R.get-bytes rb size_bytes, count)
        (
          ap (λ xs. (length xs, xs)) out,
          file-with_rb (not (channel_is_creator w)) (disable w).0 _ (disable w).1 ∙ left,
        )

-- ===== src/Transfer/Shows/File.antt =====
-- The file that the two threads of a transfer share: what is read of a world that shows a queue, and
-- how the writes to the file move the queue.
use riot_csp_module.Common.{ℕ, ◌≡◌, min, ◌∙◌, false, List, ◌++◌, length, take, drop, not, ◌==◌}
use riot_csp_module.Riot.{Riot}
use riot_csp_module.Channel.{
  World, channel_get_rb, channel_is_closed, channel_is_buffered, channel_is_creator,
}
use riot_csp_module.Send.{with_rb}
use riot_csp_module.Transfer.{Net, room}
use riot_csp_module.Transfer.Shows.{Parties, Shows, Shows-with_rb}

module _ {R : Riot} (p : Parties) where
  pub not_closed : (n : Net) (w : World R) → Shows p n w → channel_is_closed w.chan ≡ false
  unfolding channel_is_closed
  not_closed n w h = rw h.stays.flags_same p.not_closed

  pub buffered_same :
      (n : Net) (w : World R) → Shows p n w → channel_is_buffered w.chan ≡ p.buffered
  unfolding channel_is_buffered
  buffered_same n w h = rw h.stays.flags_same p.is_buffered

  pub avail_same :
      (n : Net) (w : World R) → Shows p n w → R.rb_avail (channel_get_rb p.side w.chan) ≡ room n
  avail_same n w h = R.avail_lem _ ∙ rw (h.stays.size, h.queue_same)

  pub empty_same :
      (n : Net) (w : World R)
      → Shows p n w
      → R.rb_empty (channel_get_rb p.side w.chan) ≡ (length n.queue == 0)
  empty_same n w h = R.empty_lem _ ∙ rw h.queue_same

  pub add-count_same :
      (n : Net) (xs : List ℕ) (w : World R)
      → Shows p n w
      → (R.rb_add (channel_get_rb p.side w.chan) xs).1 ≡ min (length xs) (room n)
  add-count_same n xs w h = R.add-count _ _ ∙ rw (h.stays.size, h.queue_same)

  -- Bytes go into the file, as many as there is room for.
  pub Shows-add :
      (n : Net) (xs : List ℕ) (w : World R)
      → Shows p n w
      → Shows p
          (record n { queue = n.queue ++ take (room n) xs })
          (with_rb {R = R} p.side (R.rb_add (channel_get_rb p.side w.chan) xs).0 w)
  Shows-add n xs w h =
      Shows-with_rb p n _ _ w (R.add-capacity _ _)
        (R.add-contents _ _ ∙ rw (h.stays.size, h.queue_same)) h

  -- Bytes go in, and then bytes are dropped from the front.
  pub Shows-drop_front :
      (n : Net) (xs : List ℕ) (count : ℕ) (w : World R)
      → Shows p n w
      → Shows p
          (record n { queue = drop count (n.queue ++ take (room n) xs) })
          (with_rb {R = R} p.side
            (R.rb_drop (R.rb_add (channel_get_rb p.side w.chan) xs).0 count).0
            w)
  Shows-drop_front n xs count w h =
      Shows-with_rb p n _ _ w (R.drop-capacity _ _ ∙ R.add-capacity _ _)
        (R.drop-contents _ _ ∙ rw (R.add-contents, h.stays.size, h.queue_same)) h

  pub sender_is_creator :
      (n : Net) (w : World R)
      → R.getpid w.kern ≡ p.sender
      → Shows p n w
      → channel_is_creator w ≡ p.side
  unfolding channel_is_creator
  sender_is_creator n w e h = rw (e, h.stays.creator_same, p.send_side)

  pub receiver_is_other :
      (n : Net) (w : World R)
      → R.getpid w.kern ≡ p.receiver
      → Shows p n w
      → not (channel_is_creator w) ≡ p.side
  unfolding channel_is_creator
  receiver_is_other n w e h = rw (e, h.stays.creator_same, p.recv_side)

  -- Bytes leave the file, taken or dropped.
  pub Shows-get :
      (n : Net) (count : ℕ) (w : World R)
      → Shows p n w
      → Shows p
          (record n { queue = drop count n.queue })
          (with_rb {R = R} p.side (R.rb_get (channel_get_rb p.side w.chan) count).0 w)
  Shows-get n count w h =
      Shows-with_rb p n _ _ w (R.get-capacity _ _) (R.get-contents _ _ ∙ rw h.queue_same) h

  pub Shows-drop :
      (n : Net) (count : ℕ) (w : World R)
      → Shows p n w
      → Shows p
          (record n { queue = drop count n.queue })
          (with_rb {R = R} p.side (R.rb_drop (channel_get_rb p.side w.chan) count).0 w)
  Shows-drop n count w h =
      Shows-with_rb p n _ _ w (R.drop-capacity _ _) (R.drop-contents _ _ ∙ rw h.queue_same) h

  pub get-bytes_same :
      (n : Net) (count : ℕ) (w : World R)
      → Shows p n w
      → (R.rb_get (channel_get_rb p.side w.chan) count).1 ≡ take count n.queue
  get-bytes_same n count w h = R.get-bytes _ _ ∙ rw h.queue_same

  pub peek_same :
      (n : Net) (count : ℕ) (w : World R)
      → Shows p n w
      → R.rb_peek (channel_get_rb p.side w.chan) count ≡ take count n.queue
  peek_same n count w h = R.peek_lem _ _ ∙ rw h.queue_same

  pub drop-count_same :
      (n : Net) (count : ℕ) (w : World R)
      → Shows p n w
      → (R.rb_drop (channel_get_rb p.side w.chan) count).1 ≡ min count (length n.queue)
  drop-count_same n count w h = R.drop-count _ _ ∙ rw h.queue_same

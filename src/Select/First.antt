-- ===== src/Select/First.antt =====
-- Which channel channel_send_select and channel_recv_select of modules/csp/include/csp.h choose, and
-- when they never return.
use riot_csp_module.Common.{
  ℕ, zero, suc, ◌+◌, ◌<◌, ◌≡◌, refl, true, false, none, some, List, [], ◌∷◌, ◌++◌, length, arith,
  ltb-eq_true,
}
use riot_csp_module.Riot.{Riot}
use riot_csp_module.Channel.{Channel, channel_is_closed}
use riot_csp_module.Send.{Message}
use riot_csp_module.Try.{channel_try_send, channel_try_recv}
use riot_csp_module.Transfer.System.{data_message}
use riot_csp_module.Select.{send_turn, recv_turn, channel_send_select, channel_recv_select, settle}

module _ {R : Riot} where
  -- All channels of a list are closed.
  abbrev AllClosed : List (Channel R) → Type 0
  AllClosed [] = Unit
  AllClosed (c ∷ cs) = (channel_is_closed c ≡ true) × AllClosed cs

  closed_try :
      (m : Message) (c : Channel R) (k : R.State)
      → channel_is_closed c ≡ true
      → channel_try_send m (record { chan = c; kern = k }) ≡ (0, record { chan = c; kern = k })
  unfolding channel_try_send
  closed_try m c k h = grind (arith, h)

  send_turn-first :
      (bytes : List ℕ) (i : ℕ) (before after : List (Channel R)) (c : Channel R) (k : R.State)
      → AllClosed before
      → 0 < (channel_try_send (data_message bytes) (record { chan = c; kern = k })).0
      → send_turn (data_message bytes) i (before ++ (c ∷ after)) k ≡ (record {
        index = some (i + length before);
        channels =
            before
            ++ ((channel_try_send (data_message bytes) (record { chan = c; kern = k })).1.chan
                ∷ after);
        kern = (channel_try_send (data_message bytes) (record { chan = c; kern = k })).1.kern;
      })
  unfolding send_turn
  send_turn-first bytes i [] after c k h sent =
      let here : i + 0 ≡ i = omega arith in rw (ltb-eq_true 0 _ sent, here)
  send_turn-first bytes i (b ∷ before) after c k h sent =
      let there : i + suc (length before) ≡ suc i + length before = omega arith in
      rw (
        closed_try (data_message bytes) b k h.0,
        send_turn-first bytes (suc i) before after c k h.1 sent,
        there,
      )

  -- channel_send_select skips closed channels: if all channels before one are closed and that one takes
  -- some bytes, it returns the index of that one in its first turn, with the channels before and
  -- after it as they were.
  pub send_select-first :
      (bytes : List ℕ) (before after : List (Channel R)) (c : Channel R) (k : R.State) (fuel : ℕ)
      → AllClosed before
      → 0 < (channel_try_send (data_message bytes) (record { chan = c; kern = k })).0
      → channel_send_select (suc fuel) (data_message bytes) (before ++ (c ∷ after)) k ≡ (record {
        index = some (length before);
        channels =
            before
            ++ ((channel_try_send (data_message bytes) (record { chan = c; kern = k })).1.chan
                ∷ after);
        kern = (channel_try_send (data_message bytes) (record { chan = c; kern = k })).1.kern;
      })
  unfolding channel_send_select settle
  send_select-first bytes before after c k fuel h sent =
      let none_before : 0 + length before ≡ length before = omega arith in
      rw (send_turn-first bytes 0 before after c k h sent, none_before)

  closed_turn :
      (m : Message) (i : ℕ) (cs : List (Channel R)) (k : R.State)
      → AllClosed cs
      → send_turn m i cs k ≡ (record { index = none; channels = cs; kern = k })
  unfolding send_turn
  closed_turn m i [] k h = refl
  closed_turn m i (c ∷ cs) k h = rw (closed_try m c k h.0, closed_turn m (suc i) cs k h.1)

  -- If all channels are closed, or there is none, channel_send_select has not returned after any
  -- number of turns: it has no way to report that nothing can be sent.
  send_select-loops :
      (m : Message) (cs : List (Channel R)) (k : R.State) (fuel : ℕ)
      → AllClosed cs
      → channel_send_select fuel m cs k ≡ (record { index = none; channels = cs; kern = k })
  unfolding channel_send_select settle
  send_select-loops m cs k zero h = refl
  send_select-loops m cs k (suc fuel) h =
      rw (closed_turn m 0 cs k h, send_select-loops m cs k fuel h)

  null_turn :
      (i : ℕ) (cs : List (Channel R)) (k : R.State)
      → recv_turn false i cs k ≡ (record { index = none; channels = cs; kern = k }, [])
  unfolding recv_turn channel_try_recv
  null_turn i [] k = refl
  null_turn i (c ∷ cs) k = rw (null_turn (suc i) cs k)

  -- With a null buffer channel_recv_select has not returned after any number of turns, and has changed
  -- no channel, whatever waits in the channels.
  recv_select-null :
      (cs : List (Channel R)) (k : R.State) (fuel : ℕ)
      → channel_recv_select fuel false cs k ≡ (record { index = none; channels = cs; kern = k }, [])
  unfolding channel_recv_select settle
  recv_select-null cs k zero = refl
  recv_select-null cs k (suc fuel) = rw (null_turn 0 cs k, recv_select-null cs k fuel)

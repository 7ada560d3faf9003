-- ===== src/Select.antt =====
-- channel_send_select and channel_recv_select of modules/csp/include/csp.h: one channel after the other
-- is tried, without end, until one of them moves some bytes.
pub mod First
pub mod Takes
use riot_csp_module.Common.{
  ℕ, zero, suc, Bool, Option, none, some, List, [], ◌∷◌, length, ltb, if◌then◌else◌,
}
use riot_csp_module.Riot.{Riot}
use riot_csp_module.Channel.{Channel, World}
use riot_csp_module.Send.{Message}
use riot_csp_module.Recv.{Received}
use riot_csp_module.Try.{channel_try_send, channel_try_recv}

-- The index of the channel that moved bytes, the channels, and the kernel.
pub record Selected (R : Riot) : Type 0 where
  pub index : Option ℕ
  pub channels : List (Channel R)
  pub kern : R.State

abbrev with_first : {R : Riot} → Channel R → Selected R → Selected R
with_first c s = record s { channels = c ∷ s.channels }

-- A turn that chose a channel returns, one that chose none goes on with the next.
pub settle : {A : Type 0} → Option ℕ → A → A → A
settle none s again = again
settle (some i) s again = s

module _ {R : Riot} where
  -- the inner loop of channel_send_select, from index `i` on
  pub send_turn : Message → ℕ → List (Channel R) → R.State → Selected R
  send_turn m i [] k = record { index = none; channels = []; kern = k }
  send_turn m i (c ∷ cs) k =
      let (sent, w) = channel_try_send m (record { chan = c; kern = k }) in
      let rest = send_turn m (suc i) cs w.kern in
      if ltb 0 sent
      then (record { index = some i; channels = w.chan ∷ cs; kern = w.kern })
      else with_first w.chan rest

  -- the outer loop, for `fuel` turns; `none`: it goes on
  pub channel_send_select : ℕ → Message → List (Channel R) → R.State → Selected R
  channel_send_select zero m cs k = record { index = none; channels = cs; kern = k }
  channel_send_select (suc fuel) m cs k =
      let s = send_turn m 0 cs k in
      let again = channel_send_select fuel m s.channels s.kern in settle s.index s again

  -- the inner loop of channel_recv_select; the Boolean is whether there is a buffer
  pub recv_turn : Bool → ℕ → List (Channel R) → R.State → Selected R × List ℕ
  recv_turn buffer i [] k = (record { index = none; channels = []; kern = k }, [])
  recv_turn buffer i (c ∷ cs) k =
      let (received, w) = channel_try_recv buffer (record { chan = c; kern = k }) in
      let rest = recv_turn buffer (suc i) cs w.kern in
      if ltb 0 received.0
      then (record { index = some i; channels = w.chan ∷ cs; kern = w.kern }, received.1)
      else (with_first w.chan rest.0, rest.1)

  pub channel_recv_select : ℕ → Bool → List (Channel R) → R.State → Selected R × List ℕ
  channel_recv_select zero buffer cs k = (record { index = none; channels = cs; kern = k }, [])
  channel_recv_select (suc fuel) buffer cs k =
      let s = recv_turn buffer 0 cs k in
      let again = channel_recv_select fuel buffer s.0.channels s.0.kern in settle s.0.index s again

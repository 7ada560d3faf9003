-- ===== src/Tests/Barrier.antt =====
-- Calls with null pointers, on channels with and without the buffered flag.
use riot_csp_module.Common.{
  inl, none, ℕ, ◌≢◌, refl, Bool, true, false, some, [], ◌==◌, if◌then◌else◌, arith,
}
use riot_csp_module.Riot.{sleeping, other}
use riot_csp_module.Riot.Model.{model, running_thread}
use riot_csp_module.Channel.{World, channel_make}
use riot_csp_module.Send.{Message, channel_send}
use riot_csp_module.Recv.{channel_recv}
use riot_csp_module.Transfer.{Net, finished}
use riot_csp_module.Transfer.Barrier.{null_message, null-returns}
use riot_csp_module.Transfer.Shows.{Parties, Shows, Agrees}
use riot_csp_module.Transfer.System.{idle_net}
use riot_csp_module.Transfer.Delivery.Made.{made_by_sender}

apart : ◌≢◌ {A = ℕ} 1 2
apart = omega arith

abbrev parties : Bool → Parties
parties buffered = made_by_sender 1 2 apart buffered

-- Thread 1 has made the channel, and thread `t` runs.
abbrev world : Bool → ℕ → World model
world buffered t = record {
  chan = channel_make (running_thread 1) buffered;
  kern = running_thread t;
}

ready_now : other 9 ≢ sleeping
ready_now = λ e. cc

world-Shows : (buffered : Bool) (t : ℕ) → Shows (parties buffered) idle_net (world buffered t)
unfolding channel_make
world-Shows true t = record {
  stays = record { size = refl; flags_same = refl; creator_same = refl; in_thread = refl };
  queue_same = refl;
  sender_is = (refl, ready_now);
  receiver_is = (refl, ready_now);
}
world-Shows false t = record {
  stays = record { size = refl; flags_same = refl; creator_same = refl; in_thread = refl };
  queue_same = refl;
  sender_is = (refl, ready_now);
  receiver_is = (refl, ready_now);
}

-- Thread 1 sleeps in channel_send.
abbrev asleep_net : Net
asleep_net = record idle_net { sender_asleep = true }

abbrev asleep : World model
asleep = record {
  chan = record (channel_make {R = model} (running_thread 1) false) {
    thread_read_blocked = some 1;
  };
  kern = record (running_thread 2) { status_of = λ t. if t == 1 then sleeping else other 9 };
}

buffered_null :
    Agrees (parties true) (finished 0, idle_net) (channel_send null_message (world true 1))
    × Agrees (parties true) (finished (0, []), idle_net) (channel_recv false (world true 2))
buffered_null =
    null-returns (parties true) null_message idle_net (world true 1) (world true 2) (inl refl) refl
      refl (world-Shows true 1) refl (world-Shows true 2)

-- a null pointer with a size
abbrev unpointed : Message
unpointed = record { data_size = 3; payload = none }

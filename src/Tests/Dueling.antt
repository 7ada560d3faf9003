-- ===== src/Tests/Dueling.antt =====
-- A block of main of examples/thread_duel_csp/main.c, with thread 1 for main and thread 2 for the worker.
use riot_csp_module.Common.{ℕ, ◌≡◌, ◌≢◌, refl, true, List, [], ◌∷◌, arith}
use riot_csp_module.Riot.{sleeping, other}
use riot_csp_module.Riot.Model.{model, running_thread}
use riot_csp_module.Channel.{World, channel_make, encode_size}
use riot_csp_module.Send.{SendPoint, send_resume}
use riot_csp_module.Recv.{RecvPoint, channel_recv, recv_resume}
use riot_csp_module.Transfer.{at, finished}
use riot_csp_module.Transfer.Shows.{Parties, Shows, Agrees}
use riot_csp_module.Transfer.System.{data_message, idle_net}
use riot_csp_module.Transfer.Delivery.Made.{made_by_sender}
use riot_csp_module.Examples.Worker.{duel_worker}
use riot_csp_module.Examples.Dueling.{
  WaitFn, WorkerConfig, no_wait, config_bytes, waitfn_in, start_worker, configured_worker,
}
use riot_csp_module.Examples.Dueling.Configured.{configured_net, config-arrives}

abbrev apart : ◌≢◌ {A = ℕ} 1 2
apart = omega arith

awake : other 9 ≢ sleeping
awake = λ e. cc

-- All functions stand at one address.
abbrev address : WaitFn → ℕ
address f = 4096

abbrev config : WorkerConfig
config = record { waitfn = no_wait; workload = 5 }

abbrev bytes : List ℕ
bytes = 0 ∷ 16 ∷ 0 ∷ 0 ∷ 5 ∷ 0 ∷ 0 ∷ 0 ∷ []

abbrev duelists : Parties
duelists = made_by_sender 1 2 apart true

-- Thread `t` runs, over the channel with the configuration in it, and over the empty one.
abbrev full : ℕ → World model
full t = record {
  chan = record (channel_make {R = model} (running_thread 1) true) {
    file_1 = record { held = 8 ∷ 0 ∷ 0 ∷ 0 ∷ bytes; room = 20 };
  };
  kern = running_thread t;
}

abbrev empty : ℕ → World model
empty t = record { chan = channel_make (running_thread 1) true; kern = running_thread t }

full-Shows : (t : ℕ) → Shows duelists (configured_net address config) (full t)
unfolding channel_make encode_size config_bytes
full-Shows t = record {
  stays = record { size = refl; flags_same = refl; creator_same = refl; in_thread = refl };
  queue_same = refl;
  sender_is = (refl, awake);
  receiver_is = (refl, awake);
}

empty-Shows : (t : ℕ) → Shows duelists idle_net (empty t)
unfolding channel_make
empty-Shows t = record {
  stays = record { size = refl; flags_same = refl; creator_same = refl; in_thread = refl };
  queue_same = refl;
  sender_is = (refl, awake);
  receiver_is = (refl, awake);
}

config-arrives_example :
    (Agrees duelists
        (at (SendPoint.chunk_sent true 8), configured_net address config)
        (start_worker {R = model} address config (running_thread 1))
      × Agrees duelists
          (finished 8, configured_net address config)
          (send_resume (data_message bytes) (SendPoint.chunk_sent true 8) (full 1)))
    × (Agrees duelists
          (at (RecvPoint.chunk_got true 8 bytes), idle_net)
          (channel_recv true (full 2))
        × Agrees duelists
            (finished (8, bytes), idle_net)
            (recv_resume true (RecvPoint.chunk_got true 8 bytes) (empty 2)))
    × ((waitfn_in bytes ≡ 4096) × (configured_worker bytes 3 ≡ duel_worker 5 3))
unfolding encode_size config_bytes
config-arrives_example =
    config-arrives address config model (running_thread 1) 2 apart 3 (configured_net address config)
      idle_net (full 1) (full 2) (empty 2) refl awake awake (omega arith) (omega arith) refl
      (full-Shows 1) refl (full-Shows 2) refl (empty-Shows 2)

-- ===== src/Tests/Queue.antt =====
-- A buffered channel with whole messages in its file, run on the list buffers and the one kernel of
-- Riot/Model.antt.
use riot_csp_module.Common.{ℕ, ◌≡◌, ◌≢◌, refl, true, false, List, [], ◌∷◌, ◌++◌, arith, inl}
use riot_csp_module.Riot.{sleeping, other}
use riot_csp_module.Riot.Model.{model, running_thread}
use riot_csp_module.Channel.{World, channel_make, encode_size}
use riot_csp_module.Send.Refines.{send-Agrees}
use riot_csp_module.Recv.Refines.{recv-Agrees}
use riot_csp_module.Transfer
use riot_csp_module.Send.{SendPoint, channel_send, send_resume}
use riot_csp_module.Recv.{RecvPoint, channel_recv, recv_resume}
use riot_csp_module.Drop.{channel_drop}
use riot_csp_module.Drop.Refines.{drop_task}
use riot_csp_module.Drop.Whole.{drop-as_recv}
use riot_csp_module.Transfer.{Net, at, finished, task_of}
use riot_csp_module.Transfer.Fifo.Whole.{wires}
use riot_csp_module.Transfer.Fifo.{channel_send-enqueues, channel_recv-dequeues}
use riot_csp_module.Transfer.Overflow.{channel_send-loses}
use riot_csp_module.Transfer.Shows.{Parties, Shows, Agrees}
use riot_csp_module.Transfer.System.{data_message}
use riot_csp_module.Transfer.Delivery.Made.{made_by_sender}

apart : ◌≢◌ {A = ℕ} 1 2
apart = omega arith

abbrev parties : Parties
parties = made_by_sender 1 2 apart true

-- The messages in the file.
abbrev held : List (List ℕ)
held = (5 ∷ 6 ∷ []) ∷ (7 ∷ []) ∷ []

abbrev net : Net
net = record { queue = wires held; sender_asleep = false; receiver_asleep = false }

-- Thread `t` runs, and eleven bytes are in the file of thread 1.
abbrev world : ℕ → World model
world t = record {
  chan = record (channel_make {R = model} (running_thread 1) true) {
    file_1 = record { held = wires held; room = 21 };
  };
  kern = running_thread t;
}

awake : other 9 ≢ sleeping
awake = λ e. cc

world-Shows : (t : ℕ) → Shows parties net (world t)
unfolding channel_make encode_size
world-Shows t = record {
  stays = record { size = refl; flags_same = refl; creator_same = refl; in_thread = refl };
  queue_same = refl;
  sender_is = (refl, awake);
  receiver_is = (refl, awake);
}

channel_send-enqueues_example :
    Agrees parties
      (at (SendPoint.chunk_sent true 2), record net { queue = wires (held ++ ((8 ∷ 9 ∷ []) ∷ [])) })
      (channel_send (data_message (8 ∷ 9 ∷ [])) (world 1))
    × Agrees parties
        (finished 2, net)
        (send_resume (data_message (8 ∷ 9 ∷ [])) (SendPoint.chunk_sent true 2) (world 1))
unfolding encode_size
channel_send-enqueues_example =
    channel_send-enqueues parties (8 ∷ 9 ∷ []) net net (world 1) (world 1) held refl refl
      (omega arith) (omega arith) refl (world-Shows 1) refl (world-Shows 1)

channel_recv-dequeues_example :
    Agrees parties
      (at (RecvPoint.chunk_got true 2 (5 ∷ 6 ∷ [])), record net { queue = wires ((7 ∷ []) ∷ []) })
      (channel_recv true (world 2))
    × Agrees parties
        (finished (2, 5 ∷ 6 ∷ []), net)
        (recv_resume true (RecvPoint.chunk_got true 2 (5 ∷ 6 ∷ [])) (world 2))
channel_recv-dequeues_example =
    channel_recv-dequeues parties (5 ∷ 6 ∷ []) net net (world 2) (world 2) ((7 ∷ []) ∷ []) refl refl
      (omega arith) (omega arith) refl (world-Shows 2) refl (world-Shows 2)

abbrev ten : List ℕ
ten = 1 ∷ 2 ∷ 3 ∷ 4 ∷ 5 ∷ 6 ∷ 7 ∷ 8 ∷ 9 ∷ 10 ∷ []

-- Thirty bytes.
abbrev full : List ℕ
full = encode_size 26 ++ (ten ++ (ten ++ (5 ∷ 6 ∷ 7 ∷ 8 ∷ 9 ∷ 10 ∷ [])))

abbrev full_net : Net
full_net = record { queue = full; sender_asleep = false; receiver_asleep = false }

abbrev full_world : World model
full_world = record {
  chan = record (channel_make {R = model} (running_thread 1) true) {
    file_1 = record { held = full; room = 2 };
  };
  kern = running_thread 1;
}

full-Shows : Shows parties full_net full_world
unfolding channel_make encode_size
full-Shows = record {
  stays = record { size = refl; flags_same = refl; creator_same = refl; in_thread = refl };
  queue_same = refl;
  sender_is = (refl, awake);
  receiver_is = (refl, awake);
}

-- The first two bytes of the size of the message that waits are gone.
channel_send-loses_example :
    Agrees parties
      (
        at (SendPoint.header true),
        record full_net {
          queue = (0 ∷ 0 ∷ (ten ++ (ten ++ (5 ∷ 6 ∷ 7 ∷ 8 ∷ 9 ∷ 10 ∷ [])))) ++ (1 ∷ 0 ∷ []);
          sender_asleep = true;
        },
      )
      (channel_send (data_message (4 ∷ [])) full_world)
unfolding encode_size
channel_send-loses_example =
    channel_send-loses parties (4 ∷ []) full_net full_world refl (omega arith) (omega arith) refl
      full-Shows

drop-as_recv_example :
    (task_of (channel_drop (world 2)).0 ≡ drop_task (task_of (channel_recv true (world 2)).0))
    × ((channel_drop (world 2)).1.file_1.held ≡ (channel_recv true (world 2)).1.file_1.held)
drop-as_recv_example = drop-as_recv parties net (world 2) refl (inl refl) refl (world-Shows 2)

send-Agrees_example :
    Agrees parties
      (Transfer.send_start true true (data_message (8 ∷ 9 ∷ [])) net)
      (channel_send (data_message (8 ∷ 9 ∷ [])) (world 1))
    × Agrees parties
        (Transfer.send_resume true true
          (data_message (8 ∷ 9 ∷ []))
          (SendPoint.data_wait true 1)
          net)
        (send_resume (data_message (8 ∷ 9 ∷ [])) (SendPoint.data_wait true 1) (world 1))
send-Agrees_example =
    send-Agrees parties (data_message (8 ∷ 9 ∷ [])) (SendPoint.data_wait true 1) net (world 1) refl
      refl (world-Shows 1)

recv-Agrees_example :
    Agrees parties (Transfer.recv_start true true net) (channel_recv true (world 2))
    × Agrees parties
        (Transfer.recv_resume true true (RecvPoint.data_wait true 3 (4 ∷ [])) net)
        (recv_resume true (RecvPoint.data_wait true 3 (4 ∷ [])) (world 2))
recv-Agrees_example =
    recv-Agrees parties (RecvPoint.data_wait true 3 (4 ∷ [])) net (world 2) refl refl
      (world-Shows 2)

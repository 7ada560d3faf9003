-- ===== src/Tests/Calls.antt =====
-- Single calls on one channel, run on the list buffers and the one kernel of Riot/Model.antt.
use riot_csp_module.Common.{ℕ, ◌≡◌, refl, true, false, List, [], ◌∷◌, ◌++◌, arith, some, none}
use riot_csp_module.Riot.{sleeping}
use riot_csp_module.Riot.Model.{model, running_thread, Threads}
use riot_csp_module.Channel.{
  World, channel_make, channel_is_creator, channel_is_buffered, channel_is_closed, has_flag,
  encode_size,
}
use riot_csp_module.Sched.{done, paused, sleeps, channel_synchronize}
use riot_csp_module.Send
use riot_csp_module.Send.{SendPoint, Message, channel_send, send_resume}
use riot_csp_module.Recv.{RecvPoint, recv_resume, channel_recv, channel_recv_msg}
use riot_csp_module.Drop.{DropPoint, drop_resume, channel_drop}
use riot_csp_module.Try.{channel_try_send, channel_try_recv, try_send_masked, try_add_size}
use riot_csp_module.Try.Contents.{file, try_send-file, try_recv-file}
use riot_csp_module.Try.RoundTrip.{try_send-try_recv}
use riot_csp_module.Closing.{closed, close-refuses, closed-gives_up, closed-loses}
use riot_csp_module.Closing.Lost.{closing-loses}
use riot_csp_module.Closing.Waits.{is_done, closed-send_ends, Later, closed-recv_sleeps}
use riot_csp_module.Drop.Meeting.{drop_then_send, drop-send_deadlock}
use riot_csp_module.Irq.{send_waits, recv_waits, drops_waits, irq-passes}
use riot_csp_module.Bounds.{SendsWithin, ReceivesWithin}
use riot_csp_module.Bounds.Sends.{send-Within}
use riot_csp_module.Bounds.Receives.{recv-Within}
use riot_csp_module.Frame.{frame}
use riot_csp_module.Frame.Calls.{calls-frame}
use riot_csp_module.Masks.{MaskIs}
use riot_csp_module.Masks.Calls.{calls-MaskIs}
use riot_csp_module.Transfer.System.{data_message, on}

-- Six bytes.
abbrev bytes : List ℕ
bytes = 11 ∷ 12 ∷ 13 ∷ 14 ∷ 15 ∷ 16 ∷ []

-- Thread 1 has made a channel without the buffered flag.
abbrev world : World model
world = record { chan = channel_make (running_thread 1) false; kern = running_thread 1 }

-- The other thread runs.
abbrev world_2 : World model
world_2 = record { chan = channel_make (running_thread 1) false; kern = running_thread 2 }

world-open : channel_is_closed world.chan ≡ false
unfolding channel_make channel_is_closed has_flag
world-open = refl

calls-MaskIs_example :
    (MaskIs false (channel_send (data_message bytes) world)
      × MaskIs false (Send.channel_send_msg (data_message bytes) world)
      × MaskIs false (send_resume (data_message bytes) (SendPoint.header true) world))
    × (MaskIs false (channel_recv true world)
        × MaskIs false (channel_recv_msg world)
        × MaskIs false (recv_resume true (RecvPoint.header true) world))
    × (MaskIs false (channel_drop world) × MaskIs false (drop_resume (DropPoint.header true) world))
    × (MaskIs false (channel_try_send (data_message bytes) world)
        × MaskIs false (channel_try_recv true world))
calls-MaskIs_example =
    calls-MaskIs (data_message bytes) (SendPoint.header true) true (RecvPoint.header true)
      (DropPoint.header true) world

calls-frame_example :
    ((frame true (channel_send (data_message bytes) world).1 ≡ frame true world)
      × (frame true (Send.channel_send_msg (data_message bytes) world).1 ≡ frame true world)
      × (frame true (send_resume (data_message bytes) (SendPoint.header true) world).1
          ≡ frame true world))
    × ((frame false (channel_recv true world).1 ≡ frame false world)
        × (frame false (channel_recv_msg world).1 ≡ frame false world)
        × (frame false (recv_resume true (RecvPoint.header false) world).1 ≡ frame false world))
    × ((frame false (channel_drop world).1 ≡ frame false world)
        × (frame false (drop_resume (DropPoint.header false) world).1 ≡ frame false world))
    × ((frame true (channel_try_send (data_message bytes) world).1 ≡ frame true world)
        × (frame false (channel_try_recv true world).1 ≡ frame false world))
unfolding channel_make channel_is_creator
calls-frame_example =
    calls-frame (data_message bytes) (SendPoint.header true) true (RecvPoint.header false)
      (DropPoint.header false) world

send-Within_example :
    SendsWithin (data_message bytes) (channel_send (data_message bytes) world)
    × SendsWithin (data_message bytes) (Send.channel_send_msg (data_message bytes) world)
    × SendsWithin
        (data_message bytes)
        (send_resume (data_message bytes) (SendPoint.data_wait true 4) world)
send-Within_example =
    send-Within (data_message bytes) (SendPoint.data_wait true 4) world (omega arith)

recv-Within_example :
    ReceivesWithin RecvPoint.synchronized (channel_recv true world_2)
    × ReceivesWithin RecvPoint.synchronized (channel_recv_msg world_2)
    × ReceivesWithin
        (RecvPoint.data_wait true 3 (11 ∷ []))
        (recv_resume true (RecvPoint.data_wait true 3 (11 ∷ [])) world_2)
recv-Within_example = recv-Within true (RecvPoint.data_wait true 3 (11 ∷ [])) world_2 (omega arith)

try_send-file_example :
    ((channel_try_send (data_message bytes) world).0 ≡ 6)
    × (file true (channel_try_send (data_message bytes) world).1 ≡ encode_size 6 ++ bytes)
unfolding channel_make channel_is_creator encode_size
try_send-file_example = try_send-file bytes world (omega arith) world-open

try_send-try_recv_example :
    ((channel_try_send (data_message bytes) world).0 ≡ 6)
    × ((channel_try_recv true
          (on (running_thread 2) (channel_try_send (data_message bytes) world).1)).0
        ≡ (4, 11 ∷ 12 ∷ 13 ∷ 14 ∷ []))
unfolding channel_make channel_is_creator channel_try_send try_send_masked try_add_size
    channel_is_closed has_flag Send.no_data encode_size
try_send-try_recv_example =
    try_send-try_recv bytes world (running_thread 2) (omega arith) world-open refl (omega arith)
      refl

-- A file with ten bytes in it, for thread 2.
abbrev filled : World model
filled = record world_2 {
  chan = record world.chan { file_1 = record { held = encode_size 6 ++ bytes; room = 22 } };
}

four_bytes :
    ((channel_try_recv true filled).0 ≡ (4, 11 ∷ 12 ∷ 13 ∷ 14 ∷ []))
    × (file true (channel_try_recv true filled).1 ≡ 15 ∷ 16 ∷ [])
unfolding channel_make channel_is_creator channel_is_closed has_flag encode_size
four_bytes = try_recv-file filled refl (omega arith)

close-refuses_example :
    (channel_is_closed (closed world).chan ≡ true)
    × (channel_is_buffered (closed world).chan ≡ channel_is_buffered world.chan)
    × (channel_send (data_message bytes) (closed world) ≡ (done 0, closed world))
    × (channel_try_send (data_message bytes) (closed world) ≡ (0, closed world))
unfolding channel_make
close-refuses_example = close-refuses (data_message bytes) world (omega arith)

abbrev filled_closed : World model
filled_closed = record filled { chan = record filled.chan { flags = 1 } }

nothing_at_once :
    (channel_recv true filled_closed ≡ (done (0, []), filled_closed))
    × (channel_try_recv true filled_closed ≡ ((0, []), filled_closed))
    × (channel_drop filled_closed ≡ (done 0, filled_closed))
unfolding channel_make channel_is_creator channel_is_closed has_flag encode_size
nothing_at_once = closed-gives_up true filled_closed refl refl

closing-loses_example :
    (((recv_resume true RecvPoint.synchronized filled_closed).0 ≡ done (0, []))
      × (file true (recv_resume true RecvPoint.synchronized filled_closed).1 ≡ bytes))
    × (((recv_resume true (RecvPoint.header true) filled_closed).0 ≡ done (0, []))
        × (file true (recv_resume true (RecvPoint.header true) filled_closed).1 ≡ bytes))
unfolding channel_make channel_is_creator channel_is_closed has_flag encode_size
closing-loses_example = closing-loses bytes filled_closed refl (omega arith) refl refl

abbrev long : List ℕ
long = bytes ++ (bytes ++ (bytes ++ []))

abbrev long_closed : World model
long_closed = record world_2 {
  chan = record world.chan {
    flags = 1;
    file_1 = record { held = encode_size 18 ++ long; room = 10 };
  };
}

closed-loses_example :
    ((channel_recv_msg long_closed).0 ≡ done (0, []))
    × (file true (channel_recv_msg long_closed).1 ≡ long)
unfolding channel_make channel_is_creator channel_is_closed has_flag encode_size
closed-loses_example = closed-loses long long_closed refl (omega arith) (omega arith) refl

abbrev creator_turn : Threads
creator_turn = record (channel_drop world_2).1.kern { running = 1 }

drop_and_send_sleep :
    ((drop_then_send (data_message bytes) world_2 creator_turn).1.kern.status_of 2 ≡ sleeping)
    × ((drop_then_send (data_message bytes) world_2 creator_turn).1.kern.status_of 1 ≡ sleeping)
    × ((drop_then_send (data_message bytes) world_2 creator_turn).1.thread_read_blocked ≡ some 1)
    × ((drop_then_send (data_message bytes) world_2 creator_turn).1.thread_write_blocked ≡ none)
unfolding channel_make channel_is_creator channel_is_closed channel_is_buffered has_flag
drop_and_send_sleep =
    drop-send_deadlock (data_message bytes) world_2 creator_turn refl refl refl refl refl
      (λ u. refl)

-- The same channel, closed.
abbrev shut : World model
shut = record world {
  chan = record (channel_make {R = model} (running_thread 1) false) { flags = 1 };
}

shut-closed : channel_is_closed shut.chan ≡ true
unfolding channel_make channel_is_closed has_flag
shut-closed = refl

closed-send_ends_example :
    is_done (send_resume (data_message bytes) (SendPoint.data_wait true 2) shut).0 ≡ true
closed-send_ends_example =
    closed-send_ends (data_message bytes) (SendPoint.data_wait true 2) shut shut-closed

-- The receiver goes on after a send of the other side.
abbrev later : World model
later = (channel_send (data_message bytes) shut).1

closed-recv_sleeps_example :
    (recv_resume true (RecvPoint.header true) later).0 ≡ paused sleeps (RecvPoint.header true)
unfolding channel_make
closed-recv_sleeps_example =
    closed-recv_sleeps true true shut later shut-closed (omega arith)
      (Later.sends (data_message bytes) (running_thread 1) Later.here)

-- Thread 1 has made a buffered channel whose file is full, and an interrupt has come.
abbrev full_in_irq : World model
full_in_irq = record {
  chan = record (channel_make {R = model} (running_thread 1) true) {
    file_1 = record { held = bytes; room = 0 };
  };
  kern = record (running_thread 1) { in_irq = true };
}

irq-passes_example :
    (send_waits (channel_send (data_message bytes) full_in_irq).0 ≡ false)
    × (send_waits (send_resume (data_message bytes) (SendPoint.data_wait true 2) full_in_irq).0
        ≡ false)
    × (recv_waits (channel_recv true full_in_irq).0 ≡ false)
    × (recv_waits (recv_resume true (RecvPoint.header false) full_in_irq).0 ≡ false)
    × (drops_waits (channel_drop full_in_irq).0 ≡ false)
    × (drops_waits (drop_resume (DropPoint.header false) full_in_irq).0 ≡ false)
irq-passes_example =
    irq-passes (data_message bytes) true (SendPoint.data_wait true 2) (RecvPoint.header false)
      (DropPoint.header false) full_in_irq refl

-- In the same interrupt a send that goes on for want of room returns 0, but one that starts sleeps.
irq_returns : (send_resume (data_message bytes) (SendPoint.data_wait true 2) full_in_irq).0 ≡ done 0
unfolding channel_make channel_is_closed has_flag send_resume Send.send_data Send.no_room
irq_returns = refl

irq_sleeps :
    (channel_send (data_message bytes) full_in_irq).0 ≡ paused sleeps (SendPoint.header true)
unfolding channel_make channel_is_closed channel_is_buffered channel_is_creator has_flag
    channel_send Send.send_start Send.after_synchronize channel_synchronize Send.send_synchronized
    Send.no_data Send.send_msg Send.send_header encode_size
irq_sleeps = refl

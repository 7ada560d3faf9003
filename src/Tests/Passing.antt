-- ===== src/Tests/Passing.antt =====
-- Two threads pass three bytes over an unbuffered channel (channel_send and channel_recv of
-- modules/csp/csp.c). The sender comes first.
use riot_csp_module.Common.{
  ℕ, ◌≡◌, ◌≢◌, ◌≤◌, ◌+◌, ◌*◌, ◌⊎◌, refl, true, false, List, [], ◌∷◌, arith,
}
use riot_csp_module.Riot.{sleeping, other}
use riot_csp_module.Riot.Model.{model, running_thread, Threads}
use riot_csp_module.Channel.{
  World, channel_make, channel_is_creator, channel_is_buffered, channel_is_closed, channel_is_empty,
  has_flag, encode_size, decode_size,
}
use riot_csp_module.Sched.{
  can_run, channel_sched_self, wake, channel_sched_other, channel_synchronize,
}
use riot_csp_module.Send
use riot_csp_module.Send.{SendPoint, channel_send, send_resume}
use riot_csp_module.Recv
use riot_csp_module.Recv.{Received, RecvPoint, channel_recv, recv_resume}
use riot_csp_module.Transfer.{ready, finished}
use riot_csp_module.Transfer.Shows.{Parties, Shows}
use riot_csp_module.Transfer.Link.{is_ready, recv_early, send_early}
use riot_csp_module.Transfer.Link.Progress.{is_open}
use riot_csp_module.Transfer.System.{
  System, Picks, on, after_send, after_recv, data_message, Run, here, next, sends, send_goes_on,
  receives, recv_goes_on, IsFresh, idle_net,
}
use riot_csp_module.Transfer.Delivery.{
  recv-delivers, send-returns_size, no_deadlock, run-le, rendezvous,
}
use riot_csp_module.Transfer.Delivery.Made.{made_by_sender, make-Shows}

apart : ◌≢◌ {A = ℕ} 1 2
apart = omega arith

abbrev parties : Parties
parties = made_by_sender 1 2 apart false

abbrev bytes : List ℕ
bytes = 7 ∷ 8 ∷ 9 ∷ []

-- Thread 1 has made the channel.
abbrev start : System model
start = record {
  world = record { chan = channel_make (running_thread 1) false; kern = running_thread 1 };
  sender = ready;
  receiver = ready;
}

-- The scheduler switches to thread `t`.
abbrev switch : ℕ → World model → Threads
switch t w = record w.kern { running = t }

ready_now : other 9 ≢ sleeping
ready_now = λ e. cc

start-IsFresh : IsFresh parties bytes start
start-IsFresh = record {
  shows = make-Shows parties (running_thread 1) refl refl refl ready_now ready_now;
  no_send = refl;
  no_recv = refl;
}

abbrev send_call : System model
send_call =
    after_send start (channel_send (data_message bytes) (on (switch 1 start.world) start.world))

abbrev recv_call : System model
recv_call = after_recv send_call (channel_recv true (on (switch 2 send_call.world) send_call.world))

abbrev send_at : SendPoint → System model → System model
send_at point s =
    after_send s (send_resume (data_message bytes) point (on (switch 1 s.world) s.world))

abbrev recv_at : RecvPoint → System model → System model
recv_at point s = after_recv s (recv_resume true point (on (switch 2 s.world) s.world))

abbrev sent : System model
sent = send_at SendPoint.synchronized recv_call

abbrev all_sent : System model
all_sent = send_at (SendPoint.chunk_sent true 3) sent

abbrev got : System model
got = recv_at RecvPoint.synchronized all_sent

abbrev all_done : System model
all_done = recv_at (RecvPoint.chunk_got true 3 bytes) got

-- A thread that does not sleep can be switched to.
can_switch :
    (t : ℕ) (w : World model)
    → w.kern.status_of t ≢ sleeping
    → w.kern.in_irq ≡ false
    → Picks t w (switch t w)
can_switch t w awake quiet = record {
  awake = awake;
  running = refl;
  states = λ u. refl;
  in_thread = quiet;
}

call-Run : Run parties bytes start 1 send_call
call-Run = next here (sends _ (can_switch 1 start.world ready_now refl) refl)

both-Run : Run parties bytes start 2 recv_call
unfolding channel_make has_flag channel_is_creator channel_is_buffered channel_is_closed
    channel_is_empty can_run channel_sched_self wake channel_sched_other channel_synchronize
    encode_size decode_size Send.no_data Send.no_room Send.sent_chunk Send.send_data
    Send.send_header Send.send_msg Send.send_synchronized Send.after_synchronize Send.send_start
    Send.channel_send Send.after_chunk Send.send_resume Recv.gives_up Recv.no_bytes Recv.got_chunk
    Recv.recv_data Recv.recv_header Recv.recv_msg Recv.recv_synchronized Recv.after_synchronize
    Recv.recv_start Recv.channel_recv Recv.after_chunk Recv.recv_resume
both-Run = next call-Run (receives _ (can_switch 2 send_call.world (λ e. cc) refl) refl)

sent-Run : Run parties bytes start 3 sent
unfolding channel_make has_flag channel_is_creator channel_is_buffered channel_is_closed
    channel_is_empty can_run channel_sched_self wake channel_sched_other channel_synchronize
    encode_size decode_size Send.no_data Send.no_room Send.sent_chunk Send.send_data
    Send.send_header Send.send_msg Send.send_synchronized Send.after_synchronize Send.send_start
    Send.channel_send Send.after_chunk Send.send_resume Recv.gives_up Recv.no_bytes Recv.got_chunk
    Recv.recv_data Recv.recv_header Recv.recv_msg Recv.recv_synchronized Recv.after_synchronize
    Recv.recv_start Recv.channel_recv Recv.after_chunk Recv.recv_resume
sent-Run =
    next both-Run
      (send_goes_on _ SendPoint.synchronized (can_switch 1 recv_call.world (λ e. cc) refl) refl)

all_sent-Run : Run parties bytes start 4 all_sent
unfolding channel_make has_flag channel_is_creator channel_is_buffered channel_is_closed
    channel_is_empty can_run channel_sched_self wake channel_sched_other channel_synchronize
    encode_size decode_size Send.no_data Send.no_room Send.sent_chunk Send.send_data
    Send.send_header Send.send_msg Send.send_synchronized Send.after_synchronize Send.send_start
    Send.channel_send Send.after_chunk Send.send_resume Recv.gives_up Recv.no_bytes Recv.got_chunk
    Recv.recv_data Recv.recv_header Recv.recv_msg Recv.recv_synchronized Recv.after_synchronize
    Recv.recv_start Recv.channel_recv Recv.after_chunk Recv.recv_resume
all_sent-Run =
    next sent-Run
      (send_goes_on _ (SendPoint.chunk_sent true 3) (can_switch 1 sent.world (λ e. cc) refl) refl)

got-Run : Run parties bytes start 5 got
unfolding channel_make has_flag channel_is_creator channel_is_buffered channel_is_closed
    channel_is_empty can_run channel_sched_self wake channel_sched_other channel_synchronize
    encode_size decode_size Send.no_data Send.no_room Send.sent_chunk Send.send_data
    Send.send_header Send.send_msg Send.send_synchronized Send.after_synchronize Send.send_start
    Send.channel_send Send.after_chunk Send.send_resume Recv.gives_up Recv.no_bytes Recv.got_chunk
    Recv.recv_data Recv.recv_header Recv.recv_msg Recv.recv_synchronized Recv.after_synchronize
    Recv.recv_start Recv.channel_recv Recv.after_chunk Recv.recv_resume
got-Run =
    next all_sent-Run
      (recv_goes_on _ RecvPoint.synchronized (can_switch 2 all_sent.world (λ e. cc) refl) refl)

all_done-Run : Run parties bytes start 6 all_done
unfolding channel_make has_flag channel_is_creator channel_is_buffered channel_is_closed
    channel_is_empty can_run channel_sched_self wake channel_sched_other channel_synchronize
    encode_size decode_size Send.no_data Send.no_room Send.sent_chunk Send.send_data
    Send.send_header Send.send_msg Send.send_synchronized Send.after_synchronize Send.send_start
    Send.channel_send Send.after_chunk Send.send_resume Recv.gives_up Recv.no_bytes Recv.got_chunk
    Recv.recv_data Recv.recv_header Recv.recv_msg Recv.recv_synchronized Recv.after_synchronize
    Recv.recv_start Recv.channel_recv Recv.after_chunk Recv.recv_resume
all_done-Run =
    next got-Run (
      recv_goes_on _ (RecvPoint.chunk_got true 3 bytes) (can_switch 2 got.world (λ e. cc) refl)
        refl)

all_done_sent : all_done.sender ≡ finished 3
unfolding channel_make has_flag channel_is_creator channel_is_buffered channel_is_closed
    channel_is_empty can_run channel_sched_self wake channel_sched_other channel_synchronize
    encode_size decode_size Send.no_data Send.no_room Send.sent_chunk Send.send_data
    Send.send_header Send.send_msg Send.send_synchronized Send.after_synchronize Send.send_start
    Send.channel_send Send.after_chunk Send.send_resume Recv.gives_up Recv.no_bytes Recv.got_chunk
    Recv.recv_data Recv.recv_header Recv.recv_msg Recv.recv_synchronized Recv.after_synchronize
    Recv.recv_start Recv.channel_recv Recv.after_chunk Recv.recv_resume
all_done_sent = refl

all_done_got : all_done.receiver ≡ finished (3, bytes)
unfolding channel_make has_flag channel_is_creator channel_is_buffered channel_is_closed
    channel_is_empty can_run channel_sched_self wake channel_sched_other channel_synchronize
    encode_size decode_size Send.no_data Send.no_room Send.sent_chunk Send.send_data
    Send.send_header Send.send_msg Send.send_synchronized Send.after_synchronize Send.send_start
    Send.channel_send Send.after_chunk Send.send_resume Recv.gives_up Recv.no_bytes Recv.got_chunk
    Recv.recv_data Recv.recv_header Recv.recv_msg Recv.recv_synchronized Recv.after_synchronize
    Recv.recv_start Recv.channel_recv Recv.after_chunk Recv.recv_resume
all_done_got = refl

recv-delivers_example : ◌≡◌ {A = Received} (3, bytes) (3, bytes)
recv-delivers_example =
    recv-delivers parties bytes (omega arith) (omega arith) start-IsFresh all_done-Run (3, bytes)
      all_done_got

returned_size : ◌≡◌ {A = ℕ} 3 3
returned_size =
    send-returns_size parties bytes (omega arith) (omega arith) start-IsFresh all_done-Run 3
      all_done_sent

no_deadlock_example :
    ((recv_call.sender ≡ finished 3) × (recv_call.receiver ≡ finished (3, bytes)))
    ⊎ (((is_open recv_call.sender ≡ true) × (recv_call.world.kern.status_of 1 ≢ sleeping))
        ⊎ ((is_open recv_call.receiver ≡ true) × (recv_call.world.kern.status_of 2 ≢ sleeping)))
no_deadlock_example = no_deadlock parties bytes (omega arith) (omega arith) start-IsFresh both-Run

run-le_example : 6 ≤ 4 * 3 + 23
run-le_example = run-le parties bytes (omega arith) (omega arith) start-IsFresh all_done-Run

rendezvous_example :
    (is_ready send_call.receiver ≡ true → send_early send_call.sender ≡ true)
    × (is_ready send_call.sender ≡ true → recv_early send_call.receiver ≡ true)
rendezvous_example =
    rendezvous parties bytes (omega arith) (omega arith) start-IsFresh call-Run refl

make-Shows_example :
    Shows parties idle_net
      (record { chan = channel_make {R = model} (running_thread 1) false; kern = running_thread 1 })
make-Shows_example = make-Shows parties (running_thread 1) refl refl refl ready_now ready_now

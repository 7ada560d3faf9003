-- ===== src/Tests/Stream.antt =====
-- Two messages over a buffered channel (channel_send and channel_recv of modules/csp/csp.c). The receiver
-- comes first and sleeps.
use riot_csp_module.Common.{ℕ, ◌≡◌, ◌≢◌, refl, Bool, true, List, [], ◌∷◌, ◌++◌, arith}
use riot_csp_module.Riot.{sleeping, other}
use riot_csp_module.Riot.Model.{model, running_thread, Threads}
use riot_csp_module.Channel.{
  World, channel_make, channel_is_creator, channel_is_buffered, channel_is_closed, channel_is_empty,
  has_flag, encode_size, decode_size,
}
use riot_csp_module.Sched.{
  can_run, channel_sched_self, wake, channel_sched_other, channel_synchronize,
}
use riot_csp_module.Send
use riot_csp_module.Send.{SendPoint, channel_send, send_resume}
use riot_csp_module.Recv
use riot_csp_module.Recv.{RecvPoint, channel_recv, recv_resume}
use riot_csp_module.Transfer.{ready}
use riot_csp_module.Transfer.Shows.{Parties}
use riot_csp_module.Transfer.System.{Picks, on, data_message}
use riot_csp_module.Transfer.Traffic.{
  Traffic, begin_send, after_send, after_recv, Run, here, next, sends, send_goes_on, receives,
  recv_goes_on, IsFresh,
}
use riot_csp_module.Transfer.Traffic.Order.{Accounted, sent-Accounted, got-first, all-got}
use riot_csp_module.Transfer.Traffic.Drained.{AllReceived, sent-AllReceived}
use riot_csp_module.Tests.Completed.{scheduler}
use riot_csp_module.Transfer.Traffic.Alive.{Alive, traffic-Alive, sleeps-empty}
use riot_csp_module.Transfer.Delivery.Made.{made_by_sender, make-Shows}

apart : ◌≢◌ {A = ℕ} 1 2
apart = omega arith

abbrev parties : Parties
parties = made_by_sender 1 2 apart true

abbrev first : List ℕ
first = 7 ∷ 8 ∷ []

abbrev second : List ℕ
second = 9 ∷ []

abbrev start : Traffic model
start = record {
  world = record { chan = channel_make (running_thread 1) true; kern = running_thread 1 };
  sender = ready;
  message = [];
  receiver = ready;
  sent = [];
  got = [];
}

-- The scheduler switches to thread `t`.
abbrev switch : ℕ → World model → Threads
switch t w = record w.kern { running = t }

ready_now : other 9 ≢ sleeping
ready_now = λ e. cc

start-IsFresh : IsFresh parties start
start-IsFresh = record {
  shows = make-Shows parties (running_thread 1) refl refl refl ready_now ready_now;
  no_send = refl;
  no_recv = refl;
  none_sent = refl;
  none_got = refl;
}

abbrev send_call : List ℕ → Traffic model → Traffic model
send_call bytes s =
    begin_send s bytes (channel_send (data_message bytes) (on (switch 1 s.world) s.world))

abbrev recv_call : Traffic model → Traffic model
recv_call s = after_recv s (channel_recv true (on (switch 2 s.world) s.world))

abbrev send_at : SendPoint → Traffic model → Traffic model
send_at point s =
    after_send s (send_resume (data_message s.message) point (on (switch 1 s.world) s.world))

abbrev recv_at : RecvPoint → Traffic model → Traffic model
recv_at point s = after_recv s (recv_resume true point (on (switch 2 s.world) s.world))

can_switch :
    (t : ℕ) (w : World model)
    → w.kern.status_of t ≢ sleeping
    → w.kern.in_irq ≡ Bool.false
    → Picks t w (switch t w)
can_switch t w awake quiet = record {
  awake = awake;
  running = refl;
  states = λ u. refl;
  in_thread = quiet;
}

abbrev asleep : Traffic model
asleep = recv_call start

abbrev taken : Traffic model
taken = recv_at (RecvPoint.header true) (send_call first asleep)

abbrev again : Traffic model
again = send_call second (send_at (SendPoint.chunk_sent true 2) taken)

abbrev one_got : Traffic model
one_got = recv_at (RecvPoint.chunk_got true 2 first) again

abbrev both_got : Traffic model
both_got = recv_at (RecvPoint.chunk_got true 1 second) (recv_call one_got)

asleep-Run : Run parties start asleep
asleep-Run = next here (receives _ (can_switch 2 start.world ready_now refl) tt)

one_got-Run : Run parties start one_got
unfolding channel_make has_flag channel_is_creator channel_is_buffered channel_is_closed
    channel_is_empty can_run channel_sched_self wake channel_sched_other channel_synchronize
    encode_size decode_size Send.no_data Send.no_room Send.sent_chunk Send.send_data
    Send.send_header Send.send_msg Send.send_synchronized Send.after_synchronize Send.send_start
    Send.channel_send Send.after_chunk Send.send_resume Recv.gives_up Recv.no_bytes Recv.got_chunk
    Recv.recv_data Recv.recv_header Recv.recv_msg Recv.recv_synchronized Recv.after_synchronize
    Recv.recv_start Recv.channel_recv Recv.after_chunk Recv.recv_resume
one_got-Run =
    next
      (next
        (next
          (next
            (next asleep-Run (
              sends _ first (can_switch 1 asleep.world (λ e. cc) refl) tt (omega arith)
                (omega arith)))
            (recv_goes_on _ (RecvPoint.header true)
              (can_switch 2 (send_call first asleep).world (λ e. cc) refl) refl))
          (send_goes_on _ (SendPoint.chunk_sent true 2) (can_switch 1 taken.world (λ e. cc) refl)
            refl))
        (sends _ second
          (can_switch 1 (send_at (SendPoint.chunk_sent true 2) taken).world (λ e. cc) refl) tt
          (omega arith) (omega arith)))
      (recv_goes_on _ (RecvPoint.chunk_got true 2 first) (can_switch 2 again.world (λ e. cc) refl)
        refl)

both_got-Run : Run parties start both_got
unfolding channel_make has_flag channel_is_creator channel_is_buffered channel_is_closed
    channel_is_empty can_run channel_sched_self wake channel_sched_other channel_synchronize
    encode_size decode_size Send.no_data Send.no_room Send.sent_chunk Send.send_data
    Send.send_header Send.send_msg Send.send_synchronized Send.after_synchronize Send.send_start
    Send.channel_send Send.after_chunk Send.send_resume Recv.gives_up Recv.no_bytes Recv.got_chunk
    Recv.recv_data Recv.recv_header Recv.recv_msg Recv.recv_synchronized Recv.after_synchronize
    Recv.recv_start Recv.channel_recv Recv.after_chunk Recv.recv_resume
both_got-Run = next (next one_got-Run (receives _ (can_switch 2 one_got.world (λ e. cc) refl) tt)) (
    recv_goes_on _ (RecvPoint.chunk_got true 1 second)
      (can_switch 2 (recv_call one_got).world (λ e. cc) refl) refl)

sent-Accounted_example : Accounted parties one_got
sent-Accounted_example = sent-Accounted parties start-IsFresh one_got-Run

sent-AllReceived_example : AllReceived parties one_got
sent-AllReceived_example = sent-AllReceived parties refl scheduler start-IsFresh one_got-Run

first_received : (rest : List (List ℕ)) × (one_got.sent ≡ one_got.got ++ rest)
first_received = got-first parties start-IsFresh one_got-Run

all_received : both_got.got ≡ both_got.sent
unfolding channel_make has_flag channel_is_creator channel_is_buffered channel_is_closed
    channel_is_empty can_run channel_sched_self wake channel_sched_other channel_synchronize
    encode_size decode_size Send.no_data Send.no_room Send.sent_chunk Send.send_data
    Send.send_header Send.send_msg Send.send_synchronized Send.after_synchronize Send.send_start
    Send.channel_send Send.after_chunk Send.send_resume Recv.gives_up Recv.no_bytes Recv.got_chunk
    Recv.recv_data Recv.recv_header Recv.recv_msg Recv.recv_synchronized Recv.after_synchronize
    Recv.recv_start Recv.channel_recv Recv.after_chunk Recv.recv_resume
all_received = all-got parties refl start-IsFresh both_got-Run tt refl

traffic-Alive_example : Alive parties asleep
traffic-Alive_example = traffic-Alive parties start-IsFresh asleep-Run

first_sleeps : (asleep.world.file_1.held ≡ []) × (asleep.world.kern.status_of 1 ≢ sleeping)
unfolding channel_make has_flag channel_is_creator channel_is_buffered channel_is_closed
    channel_is_empty can_run channel_sched_self wake channel_sched_other channel_synchronize
    encode_size decode_size Send.no_data Send.no_room Send.sent_chunk Send.send_data
    Send.send_header Send.send_msg Send.send_synchronized Send.after_synchronize Send.send_start
    Send.channel_send Send.after_chunk Send.send_resume Recv.gives_up Recv.no_bytes Recv.got_chunk
    Recv.recv_data Recv.recv_header Recv.recv_msg Recv.recv_synchronized Recv.after_synchronize
    Recv.recv_start Recv.channel_recv Recv.after_chunk Recv.recv_resume
first_sleeps = sleeps-empty parties refl start-IsFresh asleep-Run refl

-- What the first receive has stored.
first_got : one_got.got ≡ first ∷ []
unfolding channel_make has_flag channel_is_creator channel_is_buffered channel_is_closed
    channel_is_empty can_run channel_sched_self wake channel_sched_other channel_synchronize
    encode_size decode_size Send.no_data Send.no_room Send.sent_chunk Send.send_data
    Send.send_header Send.send_msg Send.send_synchronized Send.after_synchronize Send.send_start
    Send.channel_send Send.after_chunk Send.send_resume Recv.gives_up Recv.no_bytes Recv.got_chunk
    Recv.recv_data Recv.recv_header Recv.recv_msg Recv.recv_synchronized Recv.after_synchronize
    Recv.recv_start Recv.channel_recv Recv.after_chunk Recv.recv_resume
first_got = refl

-- ===== src/Tests/Answer.antt =====
-- A message and an answer over one buffered channel (channel_send and channel_recv of
-- modules/csp/csp.c).
use riot_csp_module.Common.{ℕ, ◌≡◌, ◌≢◌, refl, Bool, true, false, List, [], ◌∷◌, length, arith}
use riot_csp_module.Riot.{sleeping, other}
use riot_csp_module.Riot.Model.{model, running_thread, Threads}
use riot_csp_module.Channel.{
  World, channel_make, channel_is_creator, channel_is_buffered, channel_is_closed, channel_is_empty,
  has_flag, encode_size, decode_size,
}
use riot_csp_module.Sched.{
  can_run, channel_sched_self, wake, channel_sched_other, channel_synchronize,
}
use riot_csp_module.Send
use riot_csp_module.Send.{SendPoint, channel_send, send_resume}
use riot_csp_module.Recv
use riot_csp_module.Recv.{RecvPoint, Received, channel_recv, recv_resume}
use riot_csp_module.Transfer.{ready}
use riot_csp_module.Transfer.Shows.{Parties}
use riot_csp_module.Transfer.System.{
  System, Picks, on, after_send, after_recv, data_message, Run, here, next, sends, send_goes_on,
  receives, recv_goes_on,
}
use riot_csp_module.Transfer.Delivery.Made.{made_by_sender}
use riot_csp_module.Transfer.Talk.{toward, IsQuiet, Talk, silent, says, Said}
use riot_csp_module.Transfer.Talk.Heard.{whole, Talk-heard}

apart : ◌≢◌ {A = ℕ} 1 2
apart = omega arith

-- Thread 1 has made the channel.
abbrev parties : Parties
parties = made_by_sender 1 2 apart true

abbrev question : List ℕ
question = 7 ∷ 8 ∷ []

abbrev answer : List ℕ
answer = 9 ∷ []

abbrev calls_on : World model → System model
calls_on w = record { world = w; sender = ready; receiver = ready }

-- The scheduler switches to thread `t`.
abbrev switch : ℕ → World model → Threads
switch t w = record w.kern { running = t }

ready_now : other 9 ≢ sleeping
ready_now = λ e. cc

can_switch :
    (t : ℕ) (w : World model)
    → w.kern.status_of t ≢ sleeping
    → w.kern.in_irq ≡ false
    → Picks t w (switch t w)
can_switch t w awake quiet = record {
  awake = awake;
  running = refl;
  states = λ u. refl;
  in_thread = quiet;
}

-- Thread `from` sends `bytes` on file `side`, thread `to` receives them.
abbrev sent : ℕ → Bool → List ℕ → System model → System model
sent from side bytes s =
    let called =
      after_send s (channel_send (data_message bytes) (on (switch from s.world) s.world)) in
    after_send called (
      send_resume (data_message bytes) (SendPoint.chunk_sent side (length bytes))
        (on (switch from called.world) called.world))

abbrev got : ℕ → Bool → List ℕ → System model → System model
got to side bytes s =
    let called = after_recv s (channel_recv true (on (switch to s.world) s.world)) in
    after_recv called (
      recv_resume true (RecvPoint.chunk_got side (length bytes) bytes)
        (on (switch to called.world) called.world))

abbrev start : World model
start = record { chan = channel_make (running_thread 1) true; kern = running_thread 1 }

abbrev asked : System model
asked = got 2 true question (sent 1 true question (calls_on start))

abbrev answered : System model
answered = got 1 false answer (sent 2 false answer (calls_on asked.world))

start-IsQuiet : IsQuiet parties start
unfolding channel_make
start-IsQuiet = record {
  there = record {
    stays = record { size = refl; flags_same = refl; creator_same = refl; in_thread = refl };
    queue_same = refl;
    sender_is = (refl, ready_now);
    receiver_is = (refl, ready_now);
  };
  back = record {
    stays = record { size = refl; flags_same = refl; creator_same = refl; in_thread = refl };
    queue_same = refl;
    sender_is = (refl, ready_now);
    receiver_is = (refl, ready_now);
  };
}

asked-Run : Run parties question (calls_on start) 4 asked
unfolding channel_make has_flag channel_is_creator channel_is_buffered channel_is_closed
    channel_is_empty can_run channel_sched_self wake channel_sched_other channel_synchronize
    encode_size decode_size Send.no_data Send.no_room Send.sent_chunk Send.send_data
    Send.send_header Send.send_msg Send.send_synchronized Send.after_synchronize Send.send_start
    Send.channel_send Send.after_chunk Send.send_resume Recv.gives_up Recv.no_bytes Recv.got_chunk
    Recv.recv_data Recv.recv_header Recv.recv_msg Recv.recv_synchronized Recv.after_synchronize
    Recv.recv_start Recv.channel_recv Recv.after_chunk Recv.recv_resume
asked-Run =
    next
      (next
        (next (next here (sends _ (can_switch 1 _ ready_now refl) refl))
          (send_goes_on _ (SendPoint.chunk_sent true 2) (can_switch 1 _ (λ e. cc) refl) refl))
        (receives _ (can_switch 2 _ (λ e. cc) refl) refl))
      (recv_goes_on _ (RecvPoint.chunk_got true 2 question) (can_switch 2 _ (λ e. cc) refl) refl)

answered-Run : Run (toward parties false) answer (calls_on asked.world) 4 answered
unfolding channel_make has_flag channel_is_creator channel_is_buffered channel_is_closed
    channel_is_empty can_run channel_sched_self wake channel_sched_other channel_synchronize
    encode_size decode_size Send.no_data Send.no_room Send.sent_chunk Send.send_data
    Send.send_header Send.send_msg Send.send_synchronized Send.after_synchronize Send.send_start
    Send.channel_send Send.after_chunk Send.send_resume Recv.gives_up Recv.no_bytes Recv.got_chunk
    Recv.recv_data Recv.recv_header Recv.recv_msg Recv.recv_synchronized Recv.after_synchronize
    Recv.recv_start Recv.channel_recv Recv.after_chunk Recv.recv_resume
answered-Run =
    next
      (next
        (next (next here (sends _ (can_switch 2 _ (λ e. cc) refl) refl))
          (send_goes_on _ (SendPoint.chunk_sent false 1) (can_switch 2 _ (λ e. cc) refl) refl))
        (receives _ (can_switch 1 _ (λ e. cc) refl) refl))
      (recv_goes_on _ (RecvPoint.chunk_got false 1 answer) (can_switch 1 _ (λ e. cc) refl) refl)

abbrev said : List Said
said = (true, question) ∷ (false, answer) ∷ []

abbrev heard : List (Bool × Received)
heard = (true, (2, question)) ∷ (false, (1, answer)) ∷ []

both-Talk : Talk parties start said heard answered.world
unfolding channel_make has_flag channel_is_creator channel_is_buffered channel_is_closed
    channel_is_empty can_run channel_sched_self wake channel_sched_other channel_synchronize
    encode_size decode_size Send.no_data Send.no_room Send.sent_chunk Send.send_data
    Send.send_header Send.send_msg Send.send_synchronized Send.after_synchronize Send.send_start
    Send.channel_send Send.after_chunk Send.send_resume Recv.gives_up Recv.no_bytes Recv.got_chunk
    Recv.recv_data Recv.recv_header Recv.recv_msg Recv.recv_synchronized Recv.after_synchronize
    Recv.recv_start Recv.channel_recv Recv.after_chunk Recv.recv_resume
both-Talk =
    says false answer (calls_on asked.world) answered 1 (1, answer)
      (says true question (calls_on start) asked 2 (2, question) silent refl refl (omega arith)
        (omega arith) asked-Run refl refl)
      refl refl (omega arith) (omega arith) answered-Run refl refl

Talk-heard_example : (heard ≡ whole said) × IsQuiet parties answered.world
Talk-heard_example = Talk-heard parties start-IsQuiet both-Talk

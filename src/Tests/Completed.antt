-- ===== src/Tests/Completed.antt =====
-- Transfers and a conversation that come to their end, with the kernel of Riot/Model.antt for a scheduler.
use riot_csp_module.Common.{ℕ, ◌≢◌, refl, true, false, [], ◌∷◌, arith}
use riot_csp_module.Riot.{sleeping, other}
use riot_csp_module.Riot.Model.{model, running_thread}
use riot_csp_module.Channel.{World, channel_make}
use riot_csp_module.Transfer.{ready}
use riot_csp_module.Transfer.Shows.{Parties}
use riot_csp_module.Transfer.System.{System, here}
use riot_csp_module.Transfer.Delivery.Made.{made_by_sender}
use riot_csp_module.Transfer.Delivery.Completed.{Scheduler, Completed, transfer-completes}
use riot_csp_module.Transfer.Traffic.{Traffic}
use riot_csp_module.Transfer.Traffic.Unmet.{Unmet, second-Unmet}
use riot_csp_module.Transfer.Talk.{IsQuiet}
use riot_csp_module.Transfer.Talk.Completed.{Talked, Talk-completes}

-- It switches to the thread, outside of interrupts.
pub scheduler : Scheduler model
scheduler t w awake = (
  record w.kern { running = t; in_irq = false },
  record { awake = awake; running = refl; states = λ u. refl; in_thread = refl },
)

apart : ◌≢◌ {A = ℕ} 1 2
apart = omega arith

ready_now : other 9 ≢ sleeping
ready_now = λ e. cc

-- Thread 1 has made a channel without the buffered flag.
abbrev parties : Parties
parties = made_by_sender 1 2 apart false

abbrev start : World model
start = record { chan = channel_make (running_thread 1) false; kern = running_thread 1 }

start-IsQuiet : IsQuiet parties start
unfolding channel_make
start-IsQuiet = record {
  there = record {
    stays = record { size = refl; flags_same = refl; creator_same = refl; in_thread = refl };
    queue_same = refl;
    sender_is = (refl, ready_now);
    receiver_is = (refl, ready_now);
  };
  back = record {
    stays = record { size = refl; flags_same = refl; creator_same = refl; in_thread = refl };
    queue_same = refl;
    sender_is = (refl, ready_now);
    receiver_is = (refl, ready_now);
  };
}

abbrev nobody_called : System model
nobody_called = record { world = start; sender = ready; receiver = ready }

transfer-completes_example : Completed parties (7 ∷ 8 ∷ []) nobody_called
transfer-completes_example =
    transfer-completes parties (7 ∷ 8 ∷ []) scheduler {s₀ = nobody_called} (omega arith)
      (omega arith) (record { shows = start-IsQuiet.there; no_send = refl; no_recv = refl }) here

Talk-completes_example :
    Talked parties start ((true, 7 ∷ 8 ∷ []) ∷ (false, 9 ∷ []) ∷ (false, 10 ∷ []) ∷ [])
Talk-completes_example =
    Talk-completes parties scheduler start
      ((true, 7 ∷ 8 ∷ []) ∷ (false, 9 ∷ []) ∷ (false, 10 ∷ []) ∷ [])
      ((omega arith, omega arith), ((omega arith, omega arith), ((omega arith, omega arith), tt)))
      start-IsQuiet

abbrev no_traffic : Traffic model
no_traffic = record {
  world = start;
  sender = ready;
  message = [];
  receiver = ready;
  sent = [];
  got = [];
}

second-Unmet_example : Unmet parties no_traffic (7 ∷ 8 ∷ []) (9 ∷ [])
second-Unmet_example =
    second-Unmet parties scheduler refl (7 ∷ 8 ∷ []) (9 ∷ []) (omega arith) (omega arith)
      (omega arith) {s = no_traffic}
      (record {
        shows = start-IsQuiet.there;
        no_send = refl;
        no_recv = refl;
        none_sent = refl;
        none_got = refl;
      })

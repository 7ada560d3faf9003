-- ===== src/Tests/Streams.antt =====
-- The streams of examples/packet_plexer/main.c with two handlers, one of which waits already.
use riot_csp_module.Common.{ℕ, ◌≢◌, refl, true, some, List, [], ◌∷◌, ◌==◌, if◌then◌else◌, arith}
use riot_csp_module.Riot.{sleeping, other}
use riot_csp_module.Riot.Model.{Threads, model, running_thread}
use riot_csp_module.Channel.{Channel, channel_make}
use riot_csp_module.Transfer.{Net}
use riot_csp_module.Transfer.System.{idle_net}
use riot_csp_module.Examples.Plexer.Streams.{AllShow, take_streams, take_streams-AllShow}

-- Thread 1 runs csp_plexer, thread 4 packet_plexer, threads 2 and 3 are handlers; 2 sleeps.
abbrev plexing : Threads
plexing = record (running_thread 4) { status_of = λ t. if t == 2 then sleeping else other 9 }

ready_now : other 9 ≢ sleeping
ready_now = λ e. cc

abbrev streams : List (Channel model)
streams =
    record (channel_make {R = model} (running_thread 1) true) { thread_write_blocked = some 2 }
    ∷ channel_make {R = model} (running_thread 1) true
    ∷ []

abbrev handlers : List (ℕ × Net)
handlers = (2, record idle_net { receiver_asleep = true }) ∷ (3, idle_net) ∷ []

made : AllShow 1 plexing handlers streams
unfolding channel_make
made = (
  (
    refl,
    (
      omega arith,
      record {
        stays = record { size = refl; flags_same = refl; creator_same = refl; in_thread = refl };
        queue_same = refl;
        sender_is = (refl, ready_now);
        receiver_is = (refl, refl);
      },
    ),
  ),
  (
    (
      refl,
      (
        omega arith,
        record {
          stays = record { size = refl; flags_same = refl; creator_same = refl; in_thread = refl };
          queue_same = refl;
          sender_is = (refl, ready_now);
          receiver_is = (refl, ready_now);
        },
      ),
    ),
    tt,
  ),
)

take_streams-AllShow_example : AllShow 4 plexing handlers (take_streams plexing streams)
take_streams-AllShow_example =
    take_streams-AllShow 1 4 plexing refl ready_now handlers streams
      (omega arith, (omega arith, tt)) made

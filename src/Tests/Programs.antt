-- ===== src/Tests/Programs.antt =====
-- Runs of the programs of examples/ and measurements/, and of the select operations.
use riot_csp_module.Common.{ℕ, ◌≡◌, refl, true, none, some, List, [], ◌∷◌, ◌++◌, arith}
use riot_csp_module.Riot.Model.{model, running_thread}
use riot_csp_module.Channel.{
  Channel, channel_make, channel_is_closed, channel_is_creator, has_flag, encode_size, decode_size,
}
use riot_csp_module.Send
use riot_csp_module.Send.{Message}
use riot_csp_module.Try.{channel_try_send, try_send_masked, try_add_size}
use riot_csp_module.Transfer.System.{data_message}
use riot_csp_module.Select.{channel_send_select, channel_recv_select}
use riot_csp_module.Select.First.{send_select-first}
use riot_csp_module.Select.Takes.{all_incoming, recv_select-first}
use riot_csp_module.Examples.Plexer.{
  Packet, packet_plexer, packet_handler, csp_plexer, random_packets, end_packet, plexer_count,
}
use riot_csp_module.Examples.Plexer.Routes.{on_stream, for_stream, csp_plexer-delivers}
use riot_csp_module.Examples.PingPong.{
  play, sends, receives, ended, thread_main, second_thread, max_pingpong,
}
use riot_csp_module.Examples.PingPong.Rallies.{thread-ends}
use riot_csp_module.Examples.Arguments.{hello, main, message, send_arguments, hello_loop}

abbrev fresh : Channel model
fresh = channel_make (running_thread 1) true

abbrev shut : Channel model
shut = record fresh { flags = 3 }

first_open :
    channel_send_select 5 (data_message (7 ∷ [])) (shut ∷ fresh ∷ shut ∷ []) (running_thread 1)
    ≡ (record {
      index = some 1;
      channels =
          shut
          ∷ (record fresh { file_1 = record { held = 1 ∷ 0 ∷ 0 ∷ 0 ∷ 7 ∷ []; room = 27 } })
          ∷ shut
          ∷ [];
      kern = running_thread 1;
    })
unfolding channel_make channel_is_closed has_flag channel_try_send try_send_masked try_add_size
    Send.no_data channel_is_creator encode_size
first_open =
    send_select-first (7 ∷ []) (shut ∷ []) (shut ∷ []) fresh (running_thread 1) 4 (refl, _)
      (omega arith)

abbrev loaded : Channel model
loaded = record fresh { file_1 = record { held = 2 ∷ 0 ∷ 0 ∷ 0 ∷ 7 ∷ 8 ∷ []; room = 26 } }

-- A closed channel and an open one in front, with nothing for thread 2, which did not make them.
recv_select-first_example :
    ((channel_recv_select 5 true (shut ∷ fresh ∷ loaded ∷ fresh ∷ []) (running_thread 2)).0.index
      ≡ some 2)
    × ((channel_recv_select 5 true (shut ∷ fresh ∷ loaded ∷ fresh ∷ []) (running_thread 2)).1
        ≡ 7 ∷ 8 ∷ [])
    × (all_incoming 2
          (channel_recv_select 5 true
            (shut ∷ fresh ∷ loaded ∷ fresh ∷ [])
            (running_thread 2)).0.channels
        ≡ [] ∷ [] ∷ [] ∷ [] ∷ [])
unfolding channel_make channel_is_closed has_flag
recv_select-first_example =
    recv_select-first 2 (shut ∷ fresh ∷ []) (fresh ∷ []) loaded (running_thread 2) 4 refl
      (refl, (refl, _)) refl (omega arith)

abbrev packets : List Packet
packets =
    record { id = 1; payload = 5 ∷ [] }
    ∷ record { id = 0; payload = 6 ∷ [] }
    ∷ record { id = 1; payload = [] }
    ∷ []

csp_plexer-delivers_example :
    (packet_handler
        (on_stream 3 (packet_plexer plexer_count (csp_plexer ((13, 4) ∷ (7, 2) ∷ []))).0)
      ≡ (for_stream 3 (random_packets ((13, 4) ∷ (7, 2) ∷ [])) ++ (end_packet ∷ []), true))
    × ((packet_plexer plexer_count (csp_plexer ((13, 4) ∷ (7, 2) ∷ []))).1 ≡ true)
csp_plexer-delivers_example = csp_plexer-delivers 3 ((13, 4) ∷ (7, 2) ∷ []) (omega arith)

-- max_pingpong is 262136, over the messages of RIOT.
pingpong_ends :
    play (thread_main max_pingpong) (second_thread max_pingpong) 600000 (sends 1, receives)
    ≡ (ended max_pingpong, ended max_pingpong)
pingpong_ends = thread-ends 262134 75730 (omega arith)

-- Two arguments, "hi" and "x".
abbrev argv : List (List ℕ)
argv = (104 ∷ 105 ∷ []) ∷ (120 ∷ []) ∷ []

-- With an empty argument in front hello takes the length of the next one for its text, and waits.
empty_argument : hello (main ([] ∷ argv)) ≡ none
unfolding hello main message send_arguments encode_size decode_size hello_loop
empty_argument = refl

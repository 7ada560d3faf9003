-- ===== src/Tests/Collisions.antt =====
-- Two threads send over one unbuffered channel before a third receives.
use riot_csp_module.Common.{ℕ, ◌∷◌, [], ◌≢◌, refl, true, false, arith}
use riot_csp_module.Riot.Model.{model, Threads, running_thread}
use riot_csp_module.Channel.{World, channel_make, has_flag, channel_is_closed, channel_is_buffered}
use riot_csp_module.Transfer.System.{data_message, on}
use riot_csp_module.Collisions.{Call, sends, receives, begin, Stuck, Lost}
use riot_csp_module.Collisions.Met.{calls-collide}

abbrev start : World model
start = record { chan = channel_make (running_thread 1) false; kern = running_thread 1 }

abbrev main_sends : Call
main_sends = sends (data_message (7 ∷ []))

abbrev second_sends : Call
second_sends = sends (data_message (8 ∷ 9 ∷ []))

abbrev second_turn : Threads
second_turn = record (begin main_sends start).kern { running = 2 }

abbrev third_turn : Threads
third_turn = record (begin second_sends (on second_turn (begin main_sends start))).kern {
  running = 3;
}

apart : ◌≢◌ {A = ℕ} 2 1
apart = omega arith

calls-collide_example :
    Stuck true 1 2 (begin second_sends (on second_turn (begin main_sends start)))
    × Lost 1 (
        begin
          (receives true)
          (on third_turn (begin second_sends (on second_turn (begin main_sends start)))))
unfolding channel_make channel_is_closed channel_is_buffered has_flag
calls-collide_example =
    calls-collide main_sends second_sends true start second_turn refl refl refl apart refl refl
      (λ u. refl) (receives true) third_turn refl (λ u. refl)

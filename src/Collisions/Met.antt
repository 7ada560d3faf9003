-- ===== src/Collisions/Met.antt =====
-- Two calls of modules/csp/csp.c on the same side of an unbuffered channel, and a third that meets them.
use riot_csp_module.Common.{ℕ, ◌≡◌, ◌≢◌, sym, ap, subst, ◌∙◌, Bool, true, false, not, none}
use riot_csp_module.Riot.{Riot}
use riot_csp_module.Channel.{World, channel_is_closed, channel_is_buffered}
use riot_csp_module.Sched.{get_slot, own_slot, other_slot, channel_sched_other, disable}
use riot_csp_module.Sched.Effects.{
  across, Untouched, SlotIs, SlotIs-sched_other, Untouched-sched_other,
}
use riot_csp_module.Transfer.System.{on}
use riot_csp_module.Collisions.{
  Call, begin, sender_of, other-across, sides, Stuck, Lost, begin_second, begin-open,
  begin-unbuffered, begin-nobody, begin-SlotIs, begin-status,
}

module _ {R : Riot} (a b : Call) (sender : Bool) (w : World R) (k : R.State)
    (still_open : channel_is_closed w.chan ≡ false)
    (unbuffered : channel_is_buffered w.chan ≡ false)
    (nobody : get_slot (other_slot sender) w.chan ≡ none) (apart : R.getpid k ≢ R.getpid w.kern)
    (a_side : sender_of a w ≡ sender) (b_side : sender_of b (on k (begin a w)) ≡ sender)
    (states : (u : ℕ) → R.status k u ≡ R.status (begin a w).kern u) where
  abbrev first : ℕ
  first = R.getpid w.kern

  abbrev second : ℕ
  second = R.getpid k

  abbrev one : World R
  one = on k (begin a w)

  open_one : channel_is_closed one.chan ≡ false
  open_one = begin-open a sender w a_side still_open unbuffered nobody

  unbuffered_one : channel_is_buffered one.chan ≡ false
  unbuffered_one = begin-unbuffered a sender w a_side still_open unbuffered nobody

  nobody_one : get_slot (other_slot sender) one.chan ≡ none
  nobody_one =
      begin-nobody a sender w a_side still_open unbuffered nobody second (λ q. apart (sym q))

  -- Both sleep, and only the second is registered.
  pub both-Stuck : Stuck sender first second (begin b one)
  both-Stuck = record {
    first_sleeps =
        begin-status b sender one b_side open_one unbuffered_one nobody_one first apart
        ∙ states first
        ∙ (begin-SlotIs a sender w a_side still_open unbuffered nobody).1;
    second_is = begin-SlotIs b sender one b_side open_one unbuffered_one nobody_one;
    nobody_across = begin-nobody b sender one b_side open_one unbuffered_one nobody_one first apart;
  }

  module _ (c : Call) (k' : R.State) (c_side : sender_of c (on k' (begin b one)) ≡ not sender)
      (states' : (u : ℕ) → R.status k' u ≡ R.status (begin b one).kern u) where
    abbrev two : World R
    two = on k' (begin b one)

    -- the third call readies the second thread
    second_is : SlotIs (own_slot sender) second true (disable two).1
    second_is = (
      both-Stuck.second_is.0,
      R.status-irq_disable k' second ∙ states' second ∙ both-Stuck.second_is.1,
    )

    abbrev met : World R
    met = (channel_sched_other (own_slot sender) (disable two).0 (disable two).1).1

    first-Lost : Lost first (begin c two)
    first-Lost = subst (Lost first) (sym third) (record {
      still_sleeps =
          leaves.status_same
          ∙ R.status-irq_disable k' first
          ∙ states' first
          ∙ both-Stuck.first_sleeps;
      no_sender = (sides sender met own across_free).0;
      no_receiver = (sides sender met own across_free).1;
    })
      where
        third : begin c two ≡ met
        third =
            begin_second c sender second two c_side
              (begin-open b sender one b_side open_one unbuffered_one nobody_one)
              (begin-unbuffered b sender one b_side open_one unbuffered_one nobody_one)
              both-Stuck.second_is.0

        leaves : Untouched (across (own_slot sender)) first (disable two).1 met
        leaves =
            Untouched-sched_other (own_slot sender) second first (disable two).0 true
              (disable two).1 second_is apart

        own : get_slot (own_slot sender) met.chan ≡ none
        own =
            (SlotIs-sched_other (own_slot sender) second (disable two).0 true (disable two).1
              second_is).0

        across_free : get_slot (other_slot sender) met.chan ≡ none
        across_free =
            ap (λ slot. get_slot slot met.chan) (other-across sender)
            ∙ leaves.slot_same
            ∙ ap (λ slot. get_slot slot two.chan) (sym (other-across sender))
            ∙ both-Stuck.nobody_across

    -- On an open channel without the buffered flag, where nobody waits on the other side, two threads make a
    -- call on the same side, one after the other: a send, a receive, or a drop, which counts as a send
    -- unless the creator makes it. Both sleep, and only the second is registered. When a third call
    -- on the other side comes, the first thread still sleeps, and then stands in no slot of the channel.
    pub calls-collide : Stuck sender first second (begin b one) × Lost first (begin c two)
    calls-collide = (both-Stuck, first-Lost)

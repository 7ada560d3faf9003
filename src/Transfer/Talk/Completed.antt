-- ===== src/Transfer/Talk/Completed.antt =====
-- Any conversation over one channel comes to its end (channel_send and channel_recv of modules/csp/csp.c),
-- with a scheduler that can run any thread that does not sleep.
use riot_csp_module.Common.{
  ℕ, ◌^◌, ◌<◌, refl, subst, sym, Bool, true, false, List, [], ◌∷◌, ◌++◌, length, append_assoc,
  append-nil,
}
use riot_csp_module.Riot.{Riot}
use riot_csp_module.Channel.{World}
use riot_csp_module.Recv.{Received}
use riot_csp_module.Transfer.{ready}
use riot_csp_module.Transfer.Shows.{Parties, Shows}
use riot_csp_module.Transfer.System.{System, here, idle_net}
use riot_csp_module.Transfer.Delivery.Completed.{Scheduler, transfer-completes}
use riot_csp_module.Transfer.Talk.{toward, Said, IsQuiet, Talk, silent, says}
use riot_csp_module.Transfer.Talk.Heard.{whole, Talk-heard}

-- No message is empty, and each has less than 2 ^ 32 bytes.
abbrev pub AllSayable : List Said → Type 0
AllSayable [] = Unit
AllSayable ((way, bytes) ∷ said) = ((0 < length bytes) × (length bytes < 2 ^ 32)) × AllSayable said

module _ {R : Riot} (p : Parties) where
  toward-Shows : (way : Bool) (w : World R) → IsQuiet p w → Shows (toward p way) idle_net w
  toward-Shows true w q = q.there
  toward-Shows false w q = q.back

  -- nobody has called
  abbrev calls_on : World R → System R
  calls_on w = record { world = w; sender = ready; receiver = ready }

  -- Some talk from `w` says just these messages, and leaves the channel quiet.
  pub record Talked (w : World R) (said : List Said) : Type 0 where
    pub last : World R
    pub talk : Talk p w said (whole said) last
    pub quiet : IsQuiet p last

  module _ (runs : Scheduler R) where
    one_more :
        {w v : World R} {said : List Said} {heard : List (Bool × Received)} (way : Bool)
        (bytes : List ℕ)
        → IsQuiet p w
        → Talk p w said heard v
        → 0 < length bytes
        → length bytes < 2 ^ 32
        → Talked w (said ++ ((way, bytes) ∷ []))
    one_more {w} {v} {said} way bytes q talk pos small =
        let before = Talk-heard p q talk in
        let done =
          transfer-completes (toward p way) bytes runs {s₀ = calls_on v} {s = calls_on v} pos small
            (record { shows = toward-Shows way v before.1; no_send = refl; no_recv = refl }) here in
        let longer =
          says way bytes (calls_on v) done.last (length bytes) (length bytes, bytes) talk refl refl
            pos small done.run done.sent done.received in
        let after = Talk-heard p q longer in
        record {
          last = done.last.world;
          talk =
              subst (λ h. Talk p w (said ++ ((way, bytes) ∷ [])) h done.last.world) after.0 longer;
          quiet = after.1;
        }

    talk_on :
        {w : World R} (more said : List Said)
        → AllSayable more
        → IsQuiet p w
        → Talked w said
        → Talked w (said ++ more)
    talk_on {w} [] said h q so_far = subst (Talked w) (sym (append-nil said)) so_far
    talk_on {w} ((way, bytes) ∷ more) said h q so_far =
        subst (Talked w) (append_assoc said ((way, bytes) ∷ []) more) (
          talk_on more (said ++ ((way, bytes) ∷ [])) h.1 q
            (one_more way bytes q so_far.talk h.0.0 h.0.1))

    -- Two threads, an open channel on which nobody sleeps and whose files are empty, with or without the
    -- buffered flag, and a scheduler that can run any thread that does not sleep. Any conversation of
    -- non-empty messages of less than 2 ^ 32 bytes, in either direction, can be held over it to its
    -- end, with each message received whole; after it both files are empty and nobody sleeps.
    pub Talk-completes :
        (w : World R) (said : List Said) → AllSayable said → IsQuiet p w → Talked w said
    Talk-completes w said h q = talk_on said [] h q (record { last = w; talk = silent; quiet = q })

-- ===== src/Transfer/Talk/Heard.antt =====
-- What is heard of a talk over one channel (channel_send and channel_recv of modules/csp/csp.c).
use riot_csp_module.Common.{
  ℕ, ◌^◌, ◌<◌, ◌≡◌, refl, sym, ap, ap₂, subst, ◌∙◌, Bool, true, false, not, List, [], ◌∷◌, ◌++◌,
  length, drop-all, append-nil, arith,
}
use riot_csp_module.Riot.{Riot}
use riot_csp_module.Channel.{World, channel_get_rb, channel_bufsize}
use riot_csp_module.Recv.{Received}
use riot_csp_module.Transfer.{Net, ready, finished}
use riot_csp_module.Transfer.Link.{Inv}
use riot_csp_module.Transfer.Shows.{Parties, Shows}
use riot_csp_module.Transfer.System.{System, Run, idle_net}
use riot_csp_module.Transfer.System.Simulation.{Holds}
use riot_csp_module.Transfer.Delivery.{fresh-Holds, recv-delivers}
use riot_csp_module.Transfer.Talk.{not-not, reverse, toward, Said, IsQuiet, Talk, silent, says}
use riot_csp_module.Transfer.Talk.Other.{Run-Along}

-- When both calls have returned, the file is empty and nobody sleeps.
ended :
    (side buffered : Bool) (bytes : List ℕ) (n : Net) (sent : ℕ) (got : Received)
    → Inv side buffered bytes (record { net = n; sender = finished sent; receiver = finished got })
    → n ≡ idle_net
ended side buffered bytes n sent got h = λ i. record {
  queue = empty i;
  sender_asleep = h.sender_is.1 i;
  receiver_asleep = h.receiver_is.2 i;
}
  where
    empty : n.queue ≡ []
    empty =
        sym (append-nil n.queue)
        ∙ ap (λ (xs : List ℕ). n.queue ++ xs)
            (sym (drop-all sent bytes (omega (arith, h.sender_is.0))))
        ∙ h.stream
        ∙ drop-all got.0 bytes (omega (arith, h.receiver_is.0))

module _ {R : Riot} where
  both_ended :
      (p : Parties) (bytes : List ℕ) (t : System R) (sent : ℕ) (got : Received)
      → Holds p bytes t
      → t.sender ≡ finished sent
      → t.receiver ≡ finished got
      → Shows p idle_net t.world
  both_ended p bytes t sent got h e e' =
      subst (λ (n : Net). Shows p n t.world)
        (ended p.side p.buffered bytes h.net sent got (
          subst
            (λ o.
              Inv p.side p.buffered bytes
                (record { net = h.net; sender = finished sent; receiver = o }))
            e'
            (subst
              (λ o.
                Inv p.side p.buffered bytes
                  (record { net = h.net; sender = o; receiver = t.receiver }))
              e h.inv)))
        h.shows

  -- The file of the other direction is as it was, and so the channel is quiet for it too.
  other_way :
      (p : Parties) (w v : World R)
      → Shows p idle_net v
      → Shows (reverse p) idle_net w
      → channel_get_rb (not p.side) v.chan ≡ channel_get_rb (not p.side) w.chan
      → Shows (reverse p) idle_net v
  other_way p w v h o same = record {
    stays = record {
      size = ap R.capacity same ∙ o.stays.size;
      flags_same = h.stays.flags_same;
      creator_same = h.stays.creator_same;
      in_thread = h.stays.in_thread;
    };
    queue_same = ap R.contents same ∙ o.queue_same;
    sender_is = (h.sender_is.0, h.receiver_is.1);
    receiver_is = (h.receiver_is.0, h.sender_is.1);
  }

  transfer-Shows :
      (p : Parties) (bytes : List ℕ) (s t : System R) (n sent : ℕ) (got : Received)
      → Shows p idle_net s.world
      → Shows (reverse p) idle_net s.world
      → s.sender ≡ ready
      → s.receiver ≡ ready
      → 0 < length bytes
      → length bytes < 2 ^ 32
      → Run p bytes s n t
      → t.sender ≡ finished sent
      → t.receiver ≡ finished got
      → Shows p idle_net t.world × Shows (reverse p) idle_net t.world
  transfer-Shows p bytes s t n sent got h o e e' pos small run f f' =
      let along =
        Run-Along p bytes pos small
          (fresh-Holds p bytes s (record { shows = h; no_send = e; no_recv = e' })) run in
      let at_end = both_ended p bytes t sent got along.holds f f' in
      (at_end, other_way p s.world t.world at_end o along.same)

  twice : (p : Parties) (w : World R) → Shows p idle_net w → Shows (reverse (reverse p)) idle_net w
  twice p w h = record {
    stays = record {
      size =
          subst (λ b. R.capacity (channel_get_rb b w.chan) ≡ channel_bufsize) (sym (not-not p.side))
            h.stays.size;
      flags_same = h.stays.flags_same;
      creator_same = h.stays.creator_same;
      in_thread = h.stays.in_thread;
    };
    queue_same =
        subst (λ b. R.contents (channel_get_rb b w.chan) ≡ []) (sym (not-not p.side)) h.queue_same;
    sender_is = h.sender_is;
    receiver_is = h.receiver_is;
  }

  once : (p : Parties) (w : World R) → Shows (reverse (reverse p)) idle_net w → Shows p idle_net w
  once p w h = record {
    stays = record {
      size =
          subst (λ b. R.capacity (channel_get_rb b w.chan) ≡ channel_bufsize) (not-not p.side)
            h.stays.size;
      flags_same = h.stays.flags_same;
      creator_same = h.stays.creator_same;
      in_thread = h.stays.in_thread;
    };
    queue_same =
        subst (λ b. R.contents (channel_get_rb b w.chan) ≡ []) (not-not p.side) h.queue_same;
    sender_is = h.sender_is;
    receiver_is = h.receiver_is;
  }

  -- The channel is quiet for both directions again after a message in either of them.
  says-IsQuiet :
      (p : Parties) (way : Bool) (bytes : List ℕ) (s t : System R) (n sent : ℕ) (got : Received)
      → IsQuiet p s.world
      → s.sender ≡ ready
      → s.receiver ≡ ready
      → 0 < length bytes
      → length bytes < 2 ^ 32
      → Run (toward p way) bytes s n t
      → t.sender ≡ finished sent
      → t.receiver ≡ finished got
      → IsQuiet p t.world × (got ≡ (length bytes, bytes))
  says-IsQuiet p true bytes s t n sent got q e e' pos small run f f' =
      let after = transfer-Shows p bytes s t n sent got q.there q.back e e' pos small run f f' in
      (
        record { there = after.0; back = after.1 },
        recv-delivers p bytes pos small (record { shows = q.there; no_send = e; no_recv = e' }) run
            got f',
      )
  says-IsQuiet p false bytes s t n sent got q e e' pos small run f f' =
      let after =
        transfer-Shows (reverse p) bytes s t n sent got q.back (twice p s.world q.there) e e' pos
          small run f f' in
      (
        record { there = once p t.world after.1; back = after.0 },
        recv-delivers (reverse p) bytes pos small
            (record { shows = q.back; no_send = e; no_recv = e' }) run got f',
      )

-- what the receives of a talk should return
abbrev pub whole : List Said → List (Bool × Received)
whole [] = []
whole ((way, bytes) ∷ said) = (way, (length bytes, bytes)) ∷ whole said

whole-append :
    (said : List Said) (way : Bool) (bytes : List ℕ)
    → whole (said ++ ((way, bytes) ∷ [])) ≡ whole said ++ ((way, (length bytes, bytes)) ∷ [])
whole-append [] way bytes = refl
whole-append ((w, b) ∷ said) way bytes =
    ap (λ (r : List (Bool × Received)). (w, (length b, b)) ∷ r) (whole-append said way bytes)

-- Two threads and an open channel, with or without the buffered flag, whose files are empty and on which
-- nobody sleeps. They pass non-empty messages of less than 2 ^ 32 bytes over it, one after the other and
-- each in either direction, in any order of the steps of both threads. Every receive returns the size
-- and the bytes of its message, and after each message the files are empty and nobody sleeps again.
pub Talk-heard :
    {R : Riot} (p : Parties) {w v : World R} {said : List Said} {heard : List (Bool × Received)}
    → IsQuiet p w
    → Talk p w said heard v
    → (heard ≡ whole said) × IsQuiet p v
Talk-heard p q silent = (refl, q)
Talk-heard p q (says {said} {heard} {n} way bytes s t sent got talk e e' pos small run f f') =
    let before = Talk-heard p q talk in
    let now = says-IsQuiet p way bytes s t n sent got before.1 e e' pos small run f f' in
    (
      ap₂ (λ (h : List (Bool × Received)) (r : Received). h ++ ((way, r) ∷ [])) before.0 now.1
          ∙ sym (whole-append said way bytes),
      now.0,
    )

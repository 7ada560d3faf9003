-- ===== src/Transfer/Traffic/Order.antt =====
-- The order of the messages of a channel, over every schedule of the sends and receives
-- (channel_send and channel_recv of modules/csp/csp.c).
use riot_csp_module.Common.{
  ℕ, ◌≤◌, ◌≡◌, refl, sym, ◌∙◌, true, List, [], ◌∷◌, ◌++◌, append-nil, length,
}
use riot_csp_module.Riot.{Riot}
use riot_csp_module.Channel.{channel_get_rb, encode_size}
use riot_csp_module.Transfer.Fifo.Whole.{wires}
use riot_csp_module.Transfer.Shows.{Parties}
use riot_csp_module.Transfer.Traffic.Held.{in_hand, none_waiting, one_waiting}
use riot_csp_module.Transfer.Traffic.Steps.{fresh-Kept, Run-Kept}
use riot_csp_module.Transfer.Traffic.{Traffic, IsFree, Run, IsFresh}

wires-empty : (ms : List (List ℕ)) → wires ms ≡ [] → ms ≡ []
unfolding encode_size
wires-empty [] e = refl
wires-empty (m ∷ ms) e = absurd cc

-- Where the messages sent are: received, in the hand of the receiver, in the file, or with a send that
-- waits to synchronise.
pub record Accounted {R : Riot} (p : Parties) (t : Traffic R) : Type 0 where
  pub hand : List (List ℕ)
  pub in_file : List (List ℕ)
  pub waiting : List (List ℕ)
  pub order : t.sent ≡ t.got ++ (hand ++ (in_file ++ waiting))
  pub file_same : R.contents (channel_get_rb p.side t.world.chan) ≡ wires in_file
  pub one_in_hand : length hand ≤ 1
  pub none_in_hand : IsFree t.receiver → hand ≡ []
  pub one_waits : length waiting ≤ 1
  pub none_waits : IsFree t.sender → waiting ≡ []
  pub at_once : p.buffered ≡ true → waiting ≡ []

module _ {R : Riot} (p : Parties) {s t : Traffic R} where
  -- Two threads, over an open channel, with the buffered flag or without, whose file is empty: one sends
  -- non-empty messages, each when the file has room for it with its size, the other receives. In every
  -- order of their steps, the messages sent are, in their order, those that the receives have returned,
  -- then at most one that a receive has in hand, and none if no receive is under way, then those in the
  -- file, which holds just these, each whole with its size in front, and then at most one that a send has
  -- not put into the file, and none if no send is under way or the channel is buffered.
  pub sent-Accounted : IsFresh p s → Run p s t → Accounted p t
  sent-Accounted f run =
      let q = Run-Kept p (fresh-Kept p f) run in
      let h = q.holds in
      record {
        hand = h.hand;
        in_file = h.ms;
        waiting = q.waiting;
        order = h.order;
        file_same = h.shows.queue_same ∙ h.queue_same;
        one_in_hand = (in_hand p.side h.receiving).0;
        none_in_hand = (in_hand p.side h.receiving).1;
        one_waits = one_waiting p.side h.sending;
        none_waits = λ free. none_waiting p.side free h.sending;
        at_once = q.at_once;
      }

  -- What the receives have returned are the first of the messages sent.
  pub got-first : IsFresh p s → Run p s t → (rest : List (List ℕ)) × (t.sent ≡ t.got ++ rest)
  got-first f run = let a = sent-Accounted f run in (a.hand ++ (a.in_file ++ a.waiting), a.order)

module _ {R : Riot} (p : Parties) (buffered : p.buffered ≡ true) {s t : Traffic R} where
  -- Over a buffered channel, when no receive is under way and the file is empty, all messages have been
  -- received.
  pub all-got :
      IsFresh p s
      → Run p s t
      → IsFree t.receiver
      → R.contents (channel_get_rb p.side t.world.chan) ≡ []
      → t.got ≡ t.sent
  all-got f run free empty =
      let a = sent-Accounted p f run in
      let none_left = wires-empty a.in_file (sym a.file_same ∙ empty) in
      sym (a.order ∙ rw (none_left, a.none_in_hand free, a.at_once buffered) (append-nil t.got))

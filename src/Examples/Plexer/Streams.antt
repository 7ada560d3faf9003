-- ===== src/Examples/Plexer/Streams.antt =====
-- How examples/packet_plexer/main.c hands the streams over: csp_plexer makes a channel for each handler, a
-- handler may wait on its channel already, and packet_plexer, which is sent the channels, makes itself
-- their creator before it sends on them.
use riot_csp_module.Common.{ℕ, zero, suc, ◌≡◌, ◌≢◌, refl, Bool, true, false, List, [], ◌∷◌, length}
use riot_csp_module.Riot.{Riot, sleeping}
use riot_csp_module.Channel.{Channel, channel_make}
use riot_csp_module.Sched.{read_blocked, write_blocked}
use riot_csp_module.Sched.Effects.{SlotIs, SlotIs-Untouched}
use riot_csp_module.Transfer.{Net}
use riot_csp_module.Transfer.Shows.{Shows}
use riot_csp_module.Transfer.System.{idle_net}
use riot_csp_module.Transfer.Delivery.Made.{made_by_sender, make-Shows}

-- The thread is none of the handlers.
abbrev AllOther : ℕ → List (ℕ × Net) → Type 0
AllOther t [] = Unit
AllOther t ((handler, n) ∷ ss) = (t ≢ handler) × AllOther t ss

-- Threads beside channels on which nothing has happened.
abbrev idle_each : List ℕ → List (ℕ × Net)
idle_each [] = []
idle_each (handler ∷ hs) = (handler, idle_net) ∷ idle_each hs

-- The threads are other ones than the one that runs, and none of them sleeps.
abbrev AllAwake : (R : Riot) → R.State → List ℕ → Type 0
AllAwake R k [] = Unit
AllAwake R k (handler ∷ hs) =
    ((R.getpid k ≢ handler) × (R.status k handler ≢ sleeping)) × AllAwake R k hs

module _ {R : Riot} where
  -- the channels that csp_plexer makes
  make_streams : ℕ → R.State → List (Channel R)
  make_streams zero k = []
  make_streams (suc n) k = channel_make k true ∷ make_streams n k

  -- `streams[i]->creator = thread_getpid ()`
  abbrev take_stream : R.State → Channel R → Channel R
  take_stream k c = record c { creator = R.getpid k }

  -- what packet_plexer does with each stream that it receives
  pub take_streams : R.State → List (Channel R) → List (Channel R)
  take_streams k [] = []
  take_streams k (c ∷ cs) = take_stream k c ∷ take_streams k cs

  -- The streams between the thread `from` and their handlers, each with what its channel shows: `from` has
  -- no send under way, and a handler may sleep in a receive.
  abbrev pub AllShow : ℕ → R.State → List (ℕ × Net) → List (Channel R) → Type 0
  AllShow from k [] [] = Unit
  AllShow from k [] (c ∷ cs) = ⊥
  AllShow from k (s ∷ ss) [] = ⊥
  AllShow from k ((handler, n) ∷ ss) (c ∷ cs) =
      ((n.sender_asleep ≡ false)
        × ((apart : from ≢ handler) × Shows (made_by_sender from handler apart true) n
              (record { chan = c; kern = k })))
      × AllShow from k ss cs

  module _ (maker plexer : ℕ) (k : R.State) (me : R.getpid k ≡ plexer)
      (awake : R.status k plexer ≢ sleeping) where
    -- a sender that is not asleep can be any awake thread
    sender_changes :
        (asleep : Bool) (c : Channel R)
        → asleep ≡ false
        → SlotIs read_blocked maker asleep (record { chan = c; kern = k })
        → SlotIs read_blocked plexer asleep (record { chan = take_stream k c; kern = k })
    sender_changes true c e h = absurd cc
    sender_changes false c e h = (h.0, awake)

    taken-Shows :
        (handler : ℕ) (apart : maker ≢ handler) (apart' : plexer ≢ handler) (n : Net)
        (c : Channel R)
        → n.sender_asleep ≡ false
        → Shows (made_by_sender maker handler apart true) n (record { chan = c; kern = k })
        → Shows
            (made_by_sender plexer handler apart' true)
            n
            (record { chan = take_stream k c; kern = k })
    taken-Shows handler apart apart' n c e h = record {
      stays = record {
        size = h.stays.size;
        flags_same = h.stays.flags_same;
        creator_same = me;
        in_thread = h.stays.in_thread;
      };
      queue_same = h.queue_same;
      sender_is = sender_changes n.sender_asleep c e h.sender_is;
      receiver_is =
          SlotIs-Untouched write_blocked handler n.receiver_asleep _ _
            (record { slot_same = refl; status_same = refl }) h.receiver_is;
    }

    -- The maker of the streams has no send under way on them, and packet_plexer, which is none of the
    -- handlers, runs and is not asleep. When it has taken the streams over it is the sender of each of them in place of
    -- the maker: each shows the same bytes, and its handler sleeps or not, as before.
    pub take_streams-AllShow :
        (ss : List (ℕ × Net)) (cs : List (Channel R))
        → AllOther plexer ss
        → AllShow maker k ss cs
        → AllShow plexer k ss (take_streams k cs)
    unfolding take_streams
    take_streams-AllShow [] [] o h = tt
    take_streams-AllShow [] (c ∷ cs) o h = h
    take_streams-AllShow (s ∷ ss) [] o h = h
    take_streams-AllShow ((handler, n) ∷ ss) (c ∷ cs) o h = (
      (h.0.0, (o.0, taken-Shows handler h.0.1.0 o.0 n c h.0.0 h.0.1.1)),
      take_streams-AllShow ss cs o.1 h.1,
    )

-- The streams that csp_plexer makes, before their handlers run.
make_streams-AllShow :
    (R : Riot) (k : R.State) (handlers : List ℕ)
    → R.irq_is_in k ≡ false
    → R.status k (R.getpid k) ≢ sleeping
    → AllAwake R k handlers
    → AllShow (R.getpid k) k (idle_each handlers) (make_streams {R = R} (length handlers) k)
unfolding make_streams
make_streams-AllShow R k [] quiet awake h = tt
make_streams-AllShow R k (handler ∷ hs) quiet awake h = (
  (
    refl,
    (
      h.0.0,
      make-Shows (made_by_sender (R.getpid k) handler h.0.0 true) k refl refl quiet awake h.0.1,
    ),
  ),
  make_streams-AllShow R k hs quiet awake h.1,
)

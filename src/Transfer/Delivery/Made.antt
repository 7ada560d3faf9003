-- ===== src/Transfer/Delivery/Made.antt =====
-- The channel that channel_make of modules/csp/csp.c makes, as the channel of two threads.
use riot_csp_module.Common.{ℕ, ◌≡◌, ◌≢◌, refl, sym, ap, ◌∙◌, Bool, true, false, not, ==_ne, ==_refl}
use riot_csp_module.Riot.{Riot, sleeping}
use riot_csp_module.Channel.{
  channel_make, channel_bufsize, channel_get_rb, made_flags, made_open, made_buffered,
}
use riot_csp_module.Transfer.Shows.{Parties, Shows}
use riot_csp_module.Transfer.System.{idle_net}

module _ (sender receiver : ℕ) (apart : sender ≢ receiver) (buffered : Bool) where
  -- the sender made the channel
  abbrev pub made_by_sender : Parties
  made_by_sender = record {
    sender = sender;
    receiver = receiver;
    creator = sender;
    flags = made_flags buffered;
    side = true;
    buffered = buffered;
    apart = apart;
    send_side = ==_refl sender;
    recv_side = ap not (==_ne sender receiver apart);
    not_closed = made_open buffered;
    is_buffered = made_buffered buffered;
  }

  -- the receiver made the channel
  abbrev made_by_receiver : Parties
  made_by_receiver = record {
    sender = sender;
    receiver = receiver;
    creator = receiver;
    flags = made_flags buffered;
    side = false;
    buffered = buffered;
    apart = apart;
    send_side = ==_ne receiver sender (λ e. apart (sym e));
    recv_side = ap not (==_refl receiver);
    not_closed = made_open buffered;
    is_buffered = made_buffered buffered;
  }

file_made :
    (R : Riot) (side buffered : Bool) (k : R.State)
    → channel_get_rb side (channel_make {R = R} k buffered) ≡ R.rb_init channel_bufsize
unfolding channel_make
file_made R true buffered k = refl
file_made R false buffered k = refl

-- A thread makes a channel that is then the channel of the two threads of `p`: both files are empty,
-- and nobody waits.
pub make-Shows :
    {R : Riot} (p : Parties) (k : R.State)
    → R.getpid k ≡ p.creator
    → p.flags ≡ made_flags p.buffered
    → R.irq_is_in k ≡ false
    → R.status k p.sender ≢ sleeping
    → R.status k p.receiver ≢ sleeping
    → Shows p idle_net (record { chan = channel_make {R = R} k p.buffered; kern = k })
unfolding channel_make
make-Shows {R} p k made flags quiet s r = record {
  stays = record {
    size = ap R.capacity (file_made R p.side p.buffered k) ∙ R.capacity-init channel_bufsize;
    flags_same = sym flags;
    creator_same = made;
    in_thread = quiet;
  };
  queue_same = ap R.contents (file_made R p.side p.buffered k) ∙ R.contents-init channel_bufsize;
  sender_is = (refl, s);
  receiver_is = (refl, r);
}

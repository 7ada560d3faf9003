-- ===== src/Transfer/Barrier.antt =====
-- channel_send (c, nullptr, 0) and channel_recv (c, nullptr) of modules/csp/csp.c, with which programs wait
-- for one another.
use riot_csp_module.Common.{
  ℕ, ◌⊎◌, inl, inr, List, Option, some, ◌≡◌, refl, ◌∙◌, Bool, true, false, [], none, subst,
}
use riot_csp_module.Riot.{Riot}
use riot_csp_module.Channel.{World}
use riot_csp_module.Sched.Effects.{synchronize_buffered}
use riot_csp_module.Send.{Message, no_data, channel_send}
use riot_csp_module.Send.Refines.{channel_send-Agrees}
use riot_csp_module.Recv
use riot_csp_module.Recv.{channel_recv, recv_start, recv_synchronized}
use riot_csp_module.Transfer
use riot_csp_module.Transfer.{Net, Task, finished}
use riot_csp_module.Transfer.Starts.{send_start_buffered}
use riot_csp_module.Transfer.Shows.{Parties, Shows, Agrees, Shows-restore, Shows-disable}
use riot_csp_module.Transfer.Shows.File.{not_closed, buffered_same}

-- `nullptr, 0`
abbrev pub null_message : Message
null_message = record { data_size = 0; payload = none }

-- A send with a null pointer for its data, or with no data.
abbrev pub IsSync : Message → Type 0
IsSync m = (m.payload ≡ none) ⊎ (m.data_size ≡ 0)

no_data-IsSync : (m : Message) → IsSync m → no_data m ≡ true
unfolding no_data
no_data-IsSync m (inl e) = rw e refl
no_data-IsSync m (inr e) = rw e (payload_either m.payload)
  where
    payload_either :
        (payload : Option (List ℕ)) → elim payload [ none ↦ true | some _ ↦ true ] ≡ true
    payload_either none = refl
    payload_either (some x) = refl

sync_sent :
    (side buffered : Bool) (m : Message) (n : Net)
    → IsSync m
    → Transfer.send_synchronized side buffered m n ≡ (finished 0, n)
unfolding Transfer.send_synchronized
sync_sent side buffered m n s = rw (no_data-IsSync m s)

module _ {R : Riot} (p : Parties) where
  open p use {sender, receiver, buffered}

  -- a receive with a null pointer for its buffer, past its synchronisation
  null_got :
      (n : Net) (state : ℕ) (w : World R)
      → Shows p n w
      → Agrees p (finished (0, []), n) (recv_synchronized false state w)
  unfolding recv_synchronized
  null_got n state w h = record { task_same = refl; shows = Shows-restore p n state w h }

  buffered_got :
      (n : Net) (state : ℕ) (w : World R)
      → buffered ≡ true
      → Shows p n w
      → Agrees p (finished (0, []), n) (recv_start false state w)
  unfolding recv_start Recv.after_synchronize
  buffered_got n state w b h =
      rw (synchronize_buffered false state w (buffered_same p n w h ∙ b)) (null_got n state w h)

  -- On an open buffered channel channel_send with a null pointer or a size of 0, and channel_recv with a
  -- null pointer, return 0 at once and change neither the file nor who sleeps: they wait for nobody.
  pub null-returns :
      (m : Message) (n : Net) (w w' : World R)
      → IsSync m
      → buffered ≡ true
      → R.getpid w.kern ≡ sender
      → Shows p n w
      → R.getpid w'.kern ≡ receiver
      → Shows p n w'
      → Agrees p (finished 0, n) (channel_send m w)
        × Agrees p (finished (0, []), n) (channel_recv false w')
  unfolding channel_recv
  null-returns m n w w' sync b me h me' h' = (
    subst (λ t. Agrees p t (channel_send m w))
        (send_start_buffered p.side buffered n m b ∙ sync_sent p.side buffered m n sync)
        (channel_send-Agrees p m n w me h),
    rw (not_closed p n w' h') (buffered_got n _ _ b (Shows-disable p n w' h')),
  )

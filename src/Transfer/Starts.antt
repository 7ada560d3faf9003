-- ===== src/Transfer/Starts.antt =====
-- How a call starts: straight on, as the second to come, or as the first.
use riot_csp_module.Common.{◌≡◌, Bool, true, false}
use riot_csp_module.Send.{Message, SendPoint}
use riot_csp_module.Recv.{RecvPoint}
use riot_csp_module.Transfer.{Net, at, send_start, send_synchronized, recv_start, recv_header}

module _ (side buffered : Bool) (n : Net) where
  pub send_start_buffered :
      (m : Message)
      → buffered ≡ true
      → send_start side buffered m n ≡ send_synchronized side buffered m n
  unfolding send_start
  send_start_buffered m b = simp b

  pub send_start_second :
      (m : Message)
      → buffered ≡ false
      → n.receiver_asleep ≡ true
      → send_start side buffered m n
        ≡ (at SendPoint.synchronized, record n { receiver_asleep = false })
  unfolding send_start
  send_start_second m b r = simp (b, r)

  pub send_start_first :
      (m : Message)
      → buffered ≡ false
      → n.receiver_asleep ≡ false
      → send_start side buffered m n
        ≡ (at SendPoint.synchronized, record n { sender_asleep = true })
  unfolding send_start
  send_start_first m b r = simp (b, r)

  pub recv_start_buffered :
      buffered ≡ true → recv_start side buffered n ≡ recv_header side buffered n
  unfolding recv_start
  recv_start_buffered b = simp b

  pub recv_start_second :
      buffered ≡ false
      → n.sender_asleep ≡ true
      → recv_start side buffered n ≡ (at RecvPoint.synchronized, record n { sender_asleep = false })
  unfolding recv_start
  recv_start_second b r = simp (b, r)

  pub recv_start_first :
      buffered ≡ false
      → n.sender_asleep ≡ false
      → recv_start side buffered n
        ≡ (at RecvPoint.synchronized, record n { receiver_asleep = true })
  unfolding recv_start
  recv_start_first b r = simp (b, r)

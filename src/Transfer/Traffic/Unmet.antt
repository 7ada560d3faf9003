-- ===== src/Transfer/Traffic/Unmet.antt =====
-- Two sends that meet one receive: channel_send and channel_recv of modules/csp/csp.c on a channel without the
-- buffered flag, where the thread that readies a sleeper does not ask what that sleeps for.
use riot_csp_module.Common.{
  ℕ, Bool, ◌+◌, ◌≤◌, ◌<◌, ◌^◌, ◌≡◌, refl, ap, true, false, List, [], ◌∷◌, ◌++◌, length, arith,
  length-append,
}
use riot_csp_module.Riot.{Riot, sleeping}
use riot_csp_module.Channel.{
  channel_get_rb, channel_bufsize, size_bytes, encode_size, length-encode_size,
}
use riot_csp_module.Send.{SendPoint}
use riot_csp_module.Recv.{RecvPoint}
use riot_csp_module.Transfer
use riot_csp_module.Transfer.{Net, at, ready, finished}
use riot_csp_module.Transfer.Fifo.Whole.{
  send_returns, recv_returns, wires, send_synchronized_whole, recv_header_whole,
}
use riot_csp_module.Transfer.Starts.{send_start_first, send_start_second, recv_start_first}
use riot_csp_module.Transfer.Shows.{Parties}
use riot_csp_module.Transfer.System.{data_message, idle_net}
use riot_csp_module.Transfer.Delivery.Completed.{Scheduler}
use riot_csp_module.Transfer.Traffic.{Traffic, Run, here, IsFresh}
use riot_csp_module.Transfer.Traffic.Walk.{
  Reaches, calls_send, goes_on_send, calls_recv, goes_on_recv, returns_recv,
}

module _ (side buffered : Bool) (bytes : List ℕ) (n : Net) where
  send_passes :
      n.queue ≡ []
      → 0 < length bytes
      → size_bytes + length bytes ≤ channel_bufsize
      → Transfer.send_resume side buffered (data_message bytes) SendPoint.synchronized n ≡ (
        at (SendPoint.chunk_sent side (length bytes)),
        record n { queue = wires (bytes ∷ []); receiver_asleep = false },
      )
  unfolding Transfer.send_resume
  send_passes e pos fits =
      send_synchronized_whole side buffered bytes n [] e pos (omega (arith, ap length e))

  recv_passes :
      n.queue ≡ wires (bytes ∷ [])
      → 0 < length bytes
      → length bytes < 2 ^ 32
      → Transfer.recv_resume side buffered RecvPoint.synchronized n ≡ (
        at (RecvPoint.chunk_got side (length bytes) bytes),
        record n { queue = []; sender_asleep = false },
      )
  unfolding Transfer.recv_resume
  recv_passes e pos small = recv_header_whole side buffered bytes n [] e pos small

module _ {R : Riot} (p : Parties) where
  open p use {side, buffered}

  -- Some run ends with both sends returned, one receive returned, and the receiver asleep in a second.
  pub record Unmet (s : Traffic R) (first second : List ℕ) : Type 0 where
    pub last : Traffic R
    pub run : Run p s last
    pub sent : last.sent ≡ first ∷ second ∷ []
    pub got : last.got ≡ first ∷ []
    pub send_returned : last.sender ≡ finished (length second)
    pub recv_called : last.receiver ≡ at RecvPoint.synchronized
    pub recv_sleeps : R.status last.world.kern p.receiver ≡ sleeping
    pub in_file : R.contents (channel_get_rb side last.world.chan) ≡ wires (second ∷ [])

  fresh-Reaches :
      {s : Traffic R}
      → IsFresh p s
      → Reaches p s (record {
        net = idle_net;
        send = ready;
        recv = ready;
        message = s.message;
        sent = [];
        got = [];
      })
  fresh-Reaches {s} f = record {
    last = s;
    run = here;
    is_as = record {
      shows = f.shows;
      send_is = f.no_send;
      recv_is = f.no_recv;
      message_is = refl;
      sent_is = f.none_sent;
      got_is = f.none_got;
    };
  }

  module _ (runs : Scheduler R) (unbuffered : buffered ≡ false) (first second : List ℕ)
      (pos₁ : 0 < length first) (pos₂ : 0 < length second)
      (fit : size_bytes + length first + (size_bytes + length second) ≤ channel_bufsize) where
    length-wires : length (wires (first ∷ [])) ≡ size_bytes + length first
    length-wires = omega (
      arith,
      length-append (encode_size (length first)) (first ++ []),
      length-append first [],
      length-encode_size (length first),
    )

    -- The receiver waits, the first send meets it and returns, and the sender waits with the second.
    second_waits :
        {s : Traffic R}
        → IsFresh p s
        → Reaches p s (record {
          net = record {
            queue = wires (first ∷ []);
            sender_asleep = true;
            receiver_asleep = false;
          };
          send = at SendPoint.synchronized;
          recv = at RecvPoint.synchronized;
          message = second;
          sent = first ∷ second ∷ [];
          got = [];
        })
    second_waits f =
        let waits =
          calls_recv p runs (fresh-Reaches f) RecvPoint.synchronized _ refl tt
            (recv_start_first side buffered _ unbuffered refl) in
        let met =
          calls_send p runs waits first _ _ refl tt pos₁ (omega arith)
            (send_start_second side buffered _ (data_message first) unbuffered refl) in
        let put =
          goes_on_send p runs met SendPoint.synchronized _ _ refl refl tt
            (send_passes side buffered first _ refl pos₁ (omega arith)) in
        let returned =
          goes_on_send p runs put _ _ _ refl refl refl (send_returns side buffered first _) in
        calls_send p runs returned second _ _ refl tt pos₂ (omega (arith, length-wires))
          (send_start_first side buffered _ (data_message second) unbuffered refl)

    -- The receiver takes the first message and readies the sender, which takes that for a second receive.
    second_put :
        {s : Traffic R}
        → IsFresh p s
        → Reaches p s (record {
          net = record {
            queue = wires (second ∷ []);
            sender_asleep = false;
            receiver_asleep = true;
          };
          send = finished (length second);
          recv = at RecvPoint.synchronized;
          message = second;
          sent = first ∷ second ∷ [];
          got = first ∷ [];
        })
    second_put f =
        let taken =
          goes_on_recv p runs (second_waits f) RecvPoint.synchronized _ _ refl refl tt
            (recv_passes side buffered first _ refl pos₁ (omega arith)) in
        let returned =
          returns_recv p runs taken _ _ _ refl refl refl (recv_returns side buffered first _) in
        let put =
          goes_on_send p runs returned SendPoint.synchronized _ _ refl refl tt
            (send_passes side buffered second _ refl pos₂ (omega arith)) in
        let sent =
          goes_on_send p runs put _ _ _ refl refl refl (send_returns side buffered second _) in
        calls_recv p runs sent RecvPoint.synchronized _ refl tt
          (recv_start_first side buffered _ unbuffered refl)

    -- Two threads over an open channel without the buffered flag whose file is empty, two non-empty messages
    -- that fit in the file together with their sizes, and a scheduler that can run any thread that does not
    -- sleep. Then there is a run in which both sends return and only the first message is received: the receiver
    -- sleeps at the synchronisation of its second channel_recv, with the second message in the file. The
    -- first receive readies the sender when it has made room, and the sender takes that for the meeting of
    -- its second send.
    pub second-Unmet : {s : Traffic R} → IsFresh p s → Unmet s first second
    second-Unmet f =
        let r = second_put f in
        record {
          last = r.last;
          run = r.run;
          sent = r.is_as.sent_is;
          got = r.is_as.got_is;
          send_returned = r.is_as.send_is;
          recv_called = r.is_as.recv_is;
          recv_sleeps = r.is_as.shows.receiver_is.1;
          in_file = r.is_as.shows.queue_same;
        }

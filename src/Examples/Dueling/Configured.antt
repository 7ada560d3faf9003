-- ===== src/Examples/Dueling/Configured.antt =====
-- The workers of examples/thread_duel_csp/main.c get the configurations that main sends.
use riot_csp_module.Common.{ℕ, ◌^◌, ◌<◌, ◌≡◌, ◌≢◌, refl, ap, true, false, [], ◌∷◌, length, arith}
use riot_csp_module.Riot.{Riot, sleeping}
use riot_csp_module.Channel.{World, channel_make, encode_size, decode-encode_size}
use riot_csp_module.Send.{SendPoint, send_resume}
use riot_csp_module.Recv.{RecvPoint, channel_recv, recv_resume}
use riot_csp_module.Transfer.{Net, at, finished}
use riot_csp_module.Transfer.Shows.{Parties, Shows, Agrees}
use riot_csp_module.Transfer.System.{data_message, idle_net}
use riot_csp_module.Transfer.Delivery.Made.{made_by_sender, make-Shows}
use riot_csp_module.Transfer.Fifo.Whole.{wires}
use riot_csp_module.Transfer.Fifo.{channel_send-enqueues, channel_recv-dequeues}
use riot_csp_module.Examples.Worker.{duel_worker}
use riot_csp_module.Examples.Dueling.{
  WaitFn, WorkerConfig, config_bytes, workload_in, waitfn_in, start_worker, configured_worker,
}

module _ (address : WaitFn → ℕ) (wc : WorkerConfig) where
  length-config_bytes : length (config_bytes address wc) ≡ 8
  unfolding config_bytes encode_size
  length-config_bytes = refl

  configured :
      (n : ℕ)
      → wc.workload < 2 ^ 32
      → configured_worker (config_bytes address wc) n ≡ duel_worker wc.workload n
  unfolding configured_worker workload_in config_bytes encode_size
  configured n small = ap (λ w. duel_worker w n) (decode-encode_size wc.workload small)

  read-waitfn : address wc.waitfn < 2 ^ 32 → waitfn_in (config_bytes address wc) ≡ address wc.waitfn
  unfolding waitfn_in config_bytes encode_size
  read-waitfn small = decode-encode_size (address wc.waitfn) small

  -- the channel with the configuration in its file
  abbrev pub configured_net : Net
  configured_net = record idle_net { queue = wires (config_bytes address wc ∷ []) }

  module _ (R : Riot) (k : R.State) (worker : ℕ) (apart : R.getpid k ≢ worker) where
    abbrev pub duelists : Parties
    duelists = made_by_sender (R.getpid k) worker apart true

    module _ (n : ℕ) (later done : Net) (w w' w'' : World R) where
      -- A block of main, made by a thread that is awake and not in an interrupt, for a worker that is not it
      -- and not asleep. channel_send puts the whole configuration into the file and main does not
      -- wait: when it goes on, in any later state of the channel, the call returns eight. The worker
      -- runs channel_recv over the channel with the configuration in it, and when it goes on, in any later
      -- state, it has all eight bytes, and in them the function and the workload that main gave it, so that
      -- its rounds are those of a worker with that workload. Both are less than 2 ^ 32.
      pub config-arrives :
          R.irq_is_in k ≡ false
          → R.status k (R.getpid k) ≢ sleeping
          → R.status k worker ≢ sleeping
          → address wc.waitfn < 2 ^ 32
          → wc.workload < 2 ^ 32
          → R.getpid w.kern ≡ R.getpid k
          → Shows duelists later w
          → R.getpid w'.kern ≡ worker
          → Shows duelists configured_net w'
          → R.getpid w''.kern ≡ worker
          → Shows duelists done w''
          → (Agrees duelists
                (at (SendPoint.chunk_sent true 8), configured_net)
                (start_worker {R = R} address wc k)
              × Agrees duelists
                  (finished 8, later)
                  (send_resume
                    (data_message (config_bytes address wc))
                    (SendPoint.chunk_sent true 8)
                    w))
            × (Agrees duelists
                  (at (RecvPoint.chunk_got true 8 (config_bytes address wc)), idle_net)
                  (channel_recv true w')
                × Agrees duelists
                    (finished (8, config_bytes address wc), done)
                    (recv_resume true (RecvPoint.chunk_got true 8 (config_bytes address wc)) w''))
            × ((waitfn_in (config_bytes address wc) ≡ address wc.waitfn)
                × (configured_worker (config_bytes address wc) n ≡ duel_worker wc.workload n))
      unfolding start_worker config_bytes encode_size
      config-arrives quiet awake ready address_small small me h w'_worker h' w''_worker h'' =
          let p = duelists in
          let bytes = config_bytes address wc in
          (
            channel_send-enqueues p bytes idle_net later
                (record { chan = channel_make k true; kern = k }) w [] refl refl (omega arith)
                (omega arith) refl (make-Shows p k refl refl quiet awake ready) me h,
            channel_recv-dequeues p bytes configured_net done w' w'' [] refl refl (omega arith)
                (omega arith) w'_worker h' w''_worker h'',
            (read-waitfn address_small, configured n small),
          )

-- ===== src/Examples/Dueling.antt =====
-- main of examples/thread_duel_csp/main.c, over the channels of the module: for each of three workers a
-- buffered channel, its configuration as a message on that, and the process that takes it.
pub mod Configured
use riot_csp_module.Common.{ℕ, true, List, [], ◌∷◌, ◌++◌, take, drop}
use riot_csp_module.Riot.{Riot}
use riot_csp_module.Channel.{World, channel_make, encode_size, decode_size, size_bytes}
use riot_csp_module.Sched.{Outcome}
use riot_csp_module.Send.{SendPoint, channel_send}
use riot_csp_module.Transfer.System.{data_message}
use riot_csp_module.Examples.Worker.{Duel, duel_worker}

-- the resting strategies
pub data WaitFn : Type 0 where
  bad_wait nice_wait yield_wait no_wait : WaitFn

-- struct worker_config
pub record WorkerConfig : Type 0 where
  pub waitfn : WaitFn
  pub workload : ℕ

abbrev thread_1 : WorkerConfig
thread_1 = record { waitfn = no_wait; workload = 5 }

abbrev thread_2 : WorkerConfig
thread_2 = record { waitfn = no_wait; workload = 5 }

abbrev thread_3 : WorkerConfig
thread_3 = record { waitfn = no_wait; workload = 5 }

-- The bytes of a configuration, where `address` says at which address each function stands: a pointer and
-- a uint32_t.
unfoldable pub config_bytes : (WaitFn → ℕ) → WorkerConfig → List ℕ
config_bytes address wc = encode_size (address wc.waitfn) ++ encode_size wc.workload

-- `wc.workload` and the address `wc.waitfn`, from the bytes in `wc`
unfoldable pub workload_in : List ℕ → ℕ
workload_in bytes = decode_size (drop size_bytes bytes)

unfoldable pub waitfn_in : List ℕ → ℕ
waitfn_in bytes = decode_size (take size_bytes bytes)

module _ {R : Riot} where
  -- one block of main, up to the first pause of its channel_send
  unfoldable pub start_worker :
      (WaitFn → ℕ) → WorkerConfig → R.State → Outcome SendPoint ℕ × World R
  start_worker address wc k =
      channel_send (data_message (config_bytes address wc))
        (record { chan = channel_make k true; kern = k })

  -- main: its three blocks, each with the kernel as it is at its start
  unfoldable pub blocks :
      (WaitFn → ℕ) → R.State → R.State → R.State → List (Outcome SendPoint ℕ × World R)
  blocks address k1 k2 k3 =
      start_worker address thread_1 k1
      ∷ start_worker address thread_2 k2
      ∷ start_worker address thread_3 k3
      ∷ []

-- thread_worker, from what its channel_recv stored: its first `n` rounds
unfoldable pub configured_worker : List ℕ → ℕ → Duel
configured_worker out n = duel_worker (workload_in out) n

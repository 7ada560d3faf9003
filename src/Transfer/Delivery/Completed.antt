-- ===== src/Transfer/Delivery/Completed.antt =====
-- The transfer of one message comes to its end: channel_send and channel_recv of modules/csp/csp.c with a
-- scheduler that can run any thread that does not sleep.
use riot_csp_module.Common.{
  ℕ, zero, suc, ◌+◌, ◌-◌, ◌*◌, ◌<◌, ◌^◌, ◌≡◌, ◌≢◌, refl, true, ◌⊎◌, inl, inr, List, length, arith,
}
use riot_csp_module.Riot.{Riot, sleeping}
use riot_csp_module.Channel.{World}
use riot_csp_module.Transfer.{Task, ready, at, finished}
use riot_csp_module.Transfer.Link.Progress.{is_open}
use riot_csp_module.Transfer.Shows.{Parties}
use riot_csp_module.Transfer.System.{
  System, Run, Step, sends, send_goes_on, receives, recv_goes_on, here, next, IsFresh, Picks,
}
use riot_csp_module.Transfer.Delivery.{no_deadlock, run-le}

-- The scheduler can run any thread that does not sleep.
abbrev pub Scheduler : Riot → Type 0
Scheduler R = (t : ℕ) (w : World R) → R.status w.kern t ≢ sleeping → (k : R.State) × Picks t w k

-- A call that has not returned has not begun or stands at a point.
open_cases :
    {L A : Type 0} (t : Task L A) → is_open t ≡ true → (t ≡ ready) ⊎ ((point : L) × (t ≡ at point))
open_cases ready e = inl refl
open_cases (at point) e = inr (point, refl)
open_cases (finished r) e = absurd cc

module _ {R : Riot} (p : Parties) (bytes : List ℕ) where
  -- Some run ends with both calls returned.
  pub record Completed (s : System R) : Type 0 where
    pub steps : ℕ
    pub last : System R
    pub run : Run p bytes s steps last
    pub sent : last.sender ≡ finished (length bytes)
    pub received : last.receiver ≡ finished (length bytes, bytes)

  module _ (runs : Scheduler R) where
    sender_steps :
        (s : System R)
        → is_open s.sender ≡ true
        → R.status s.world.kern p.sender ≢ sleeping
        → (t : System R) × Step p bytes s t
    sender_steps s e awake =
        let (k, picks) = runs p.sender s.world awake in
        elim (open_cases s.sender e) [
          | inl r ↦ (_, sends k picks r)
          | inr (point, r) ↦ (_, send_goes_on k point picks r)
        ]

    receiver_steps :
        (s : System R)
        → is_open s.receiver ≡ true
        → R.status s.world.kern p.receiver ≢ sleeping
        → (t : System R) × Step p bytes s t
    receiver_steps s e awake =
        let (k, picks) = runs p.receiver s.world awake in
        elim (open_cases s.receiver e) [
          | inl r ↦ (_, receives k picks r)
          | inr (point, r) ↦ (_, recv_goes_on k point picks r)
        ]

    -- At most 4 * length + 23 steps are taken from the start, so with more fuel than that the run ends.
    run_on :
        {s₀ s : System R} (fuel n m : ℕ) (u : System R)
        → 0 < length bytes
        → length bytes < 2 ^ 32
        → IsFresh p bytes s₀
        → Run p bytes s₀ n u
        → Run p bytes s m u
        → n + fuel ≡ 4 * length bytes + 24
        → Completed s
    run_on zero n m u pos small fresh from_start run e =
        absurd (omega (arith, run-le p bytes pos small fresh from_start))
    run_on (suc fuel) n m u pos small fresh from_start run e =
        elim (no_deadlock p bytes pos small fresh from_start) [
          | inl (sent, received) ↦ record {
            steps = m;
            last = u;
            run = run;
            sent = sent;
            received = received;
          }
          | inr (inl (still_open, awake)) ↦
              let (t, step) = sender_steps u still_open awake in
              run_on fuel (suc n) (suc m) t pos small fresh (next from_start step) (next run step)
                (omega arith)
          | inr (inr (still_open, awake)) ↦
              let (t, step) = receiver_steps u still_open awake in
              run_on fuel (suc n) (suc m) t pos small fresh (next from_start step) (next run step)
                (omega arith)
        ]

    -- Two threads, an open channel whose file is empty, a non-empty message of less than 2 ^ 32 bytes, and a
    -- scheduler that can run any thread that does not sleep. In whatever order the two have taken their
    -- steps so far, they can go on to where both calls have returned: channel_send the size of the
    -- message, channel_recv the size and the bytes.
    pub transfer-completes :
        {s₀ s : System R} {n : ℕ}
        → 0 < length bytes
        → length bytes < 2 ^ 32
        → IsFresh p bytes s₀
        → Run p bytes s₀ n s
        → Completed s
    transfer-completes {s} {n} pos small fresh run =
        let le = run-le p bytes pos small fresh run in
        run_on ((4 * length bytes + 24) - n) n 0 s pos small fresh run here (omega arith)

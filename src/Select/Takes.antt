-- ===== src/Select/Takes.antt =====
-- Which channel channel_recv_select of modules/csp/include/csp.h receives from, and what it receives.
use riot_csp_module.Common.{
  Option, ℕ, suc, ◌+◌, ◌<◌, ◌≤◌, ◌≡◌, refl, subst, ap, ap₂, sym, ◌∙◌, Bool, true, false, none, some,
  List, [], ◌∷◌, ◌++◌, length, take, drop, arith, not, ◌==◌, ◌&&◌, Bool-cases, inl, inr,
  ltb-eq_true, length-take, length-drop,
}
use riot_csp_module.Riot.{Riot}
use riot_csp_module.Channel.{
  Channel, World, channel_get_rb, channel_is_closed, channel_is_creator, channel_is_empty,
  size_bytes,
}
use riot_csp_module.Try.{channel_try_recv, try_recv_masked}
use riot_csp_module.Try.Contents.{try_recv-file, file, file-with_rb}
use riot_csp_module.Frame.Calls.{try-frame}
use riot_csp_module.Select.{Selected, recv_turn, channel_recv_select, settle}

settle-some : {A : Type 0} (i : ℕ) (j : Option ℕ) (s again : A) → j ≡ some i → settle j s again ≡ s
unfolding settle
settle-some i j s again e = rw e refl

module _ {R : Riot} where
  -- what a channel holds for the thread `me`
  abbrev pub incoming : ℕ → Channel R → List ℕ
  incoming me c = R.contents (channel_get_rb (not (c.creator == me)) c)

  abbrev pub all_incoming : ℕ → List (Channel R) → List (List ℕ)
  all_incoming me [] = []
  all_incoming me (c ∷ cs) = incoming me c ∷ all_incoming me cs

  -- Channels that hold nothing for the thread.
  abbrev pub NoneIncoming : ℕ → List (Channel R) → Type 0
  NoneIncoming me [] = Unit
  NoneIncoming me (c ∷ cs) = (incoming me c ≡ []) × NoneIncoming me cs

  same_thread : (w : World R) → R.getpid (channel_try_recv true w).1.kern ≡ R.getpid w.kern
  unfolding channel_try_recv try_recv_masked
  same_thread w = grind (arith, R.getpid-irq_disable, R.getpid-irq_restore)

  same_creator : (w : World R) → (channel_try_recv true w).1.creator ≡ w.creator
  same_creator w =
      ap (λ (f : ℕ × ℕ × ℕ × R.Rb). f.1)
        ((try-frame (record { data_size = 0; payload = none }) true w).1)

  masked-empty :
      (side : Bool) (state : ℕ) (w : World R)
      → file side w ≡ []
      → ((try_recv_masked side state w).0 ≡ (0, []))
        × (file side (try_recv_masked side state w).1 ≡ [])
  unfolding try_recv_masked
  masked-empty side state w e =
      let rb = channel_get_rb side w.chan in
      rw (R.get-bytes rb size_bytes, e)
        (refl, file-with_rb side state _ w ∙ R.get-contents rb size_bytes ∙ ap (drop size_bytes) e)

  -- A try on a channel that holds nothing for the thread returns 0, and the channel still holds nothing.
  try_recv-empty :
      (w : World R)
      → file (not (channel_is_creator w)) w ≡ []
      → ((channel_try_recv true w).0 ≡ (0, []))
        × (file (not (channel_is_creator w)) (channel_try_recv true w).1 ≡ [])
  unfolding channel_try_recv
  try_recv-empty w e = elim (Bool-cases (channel_is_closed w.chan && channel_is_empty w)) [
    | inl gone ↦ rw gone (refl, e)
    | inr goes ↦ rw goes (masked-empty (not (channel_is_creator w)) _ _ e)
  ]

  incoming-after :
      (w : World R)
      → incoming (R.getpid w.kern) (channel_try_recv true w).1.chan
        ≡ file (not (channel_is_creator w)) (channel_try_recv true w).1
  unfolding channel_is_creator
  incoming-after w =
      ap
        (λ (n : ℕ).
          R.contents (channel_get_rb (not (n == R.getpid w.kern)) (channel_try_recv true w).1.chan))
        (same_creator w)

  -- The channel and the kernel as a world.
  abbrev here : Channel R → R.State → World R
  here c k = record { chan = c; kern = k }

  try_incoming-empty :
      (me : ℕ) (c : Channel R) (k : R.State)
      → R.getpid k ≡ me
      → incoming me c ≡ []
      → ((channel_try_recv true (here c k)).0 ≡ (0, []))
        × (incoming me (channel_try_recv true (here c k)).1.chan ≡ [])
        × (R.getpid (channel_try_recv true (here c k)).1.kern ≡ me)
  unfolding channel_is_creator
  try_incoming-empty me c k h e =
      let tried = try_recv-empty (here c k) (rw h e) in
      (
        tried.0,
        subst (λ n. incoming n (channel_try_recv true (here c k)).1.chan ≡ []) h
            (incoming-after (here c k) ∙ tried.1),
        same_thread (here c k) ∙ h,
      )

  -- `c` is open and holds more than a size
  try_incoming :
      (me : ℕ) (c : Channel R) (k : R.State)
      → R.getpid k ≡ me
      → channel_is_closed c ≡ false
      → size_bytes < length (incoming me c)
      → ((channel_try_recv true (here c k)).0 ≡ (
        length (take size_bytes (drop size_bytes (incoming me c))),
        take size_bytes (drop size_bytes (incoming me c)),
      ))
        × (incoming me (channel_try_recv true (here c k)).1.chan
            ≡ drop size_bytes (drop size_bytes (incoming me c)))
  unfolding channel_is_creator
  try_incoming me c k h o long =
      let tried =
        try_recv-file (here c k) o
          (subst (λ n. size_bytes ≤ length (incoming n c)) (sym h) (omega arith)) in
      (
        subst
            (λ n. (channel_try_recv true (here c k)).0 ≡ (
              length (take size_bytes (drop size_bytes (incoming n c))),
              take size_bytes (drop size_bytes (incoming n c)),
            ))
            h tried.0,
        subst
            (λ n.
              incoming n (channel_try_recv true (here c k)).1.chan
              ≡ drop size_bytes (drop size_bytes (incoming n c)))
            h (incoming-after (here c k) ∙ tried.1),
      )

  abbrev Took :
      ℕ → List (Channel R) → Channel R → List (Channel R) → ℕ → Selected R × List ℕ → Type 0
  Took me before c after i s =
      (s.0.index ≡ some (i + length before))
      × (s.1 ≡ take size_bytes (drop size_bytes (incoming me c)))
      × (all_incoming me s.0.channels
          ≡ all_incoming me before
            ++ (drop size_bytes (drop size_bytes (incoming me c)) ∷ all_incoming me after))

  recv_turn-first :
      (me : ℕ) (before after : List (Channel R)) (c : Channel R) (k : R.State) (i : ℕ)
      → R.getpid k ≡ me
      → NoneIncoming me before
      → channel_is_closed c ≡ false
      → size_bytes < length (incoming me c)
      → Took me before c after i (recv_turn true i (before ++ (c ∷ after)) k)
  unfolding recv_turn
  recv_turn-first me [] after c k i h none_held o long =
      let got = try_incoming me c k h o long in
      let some_bytes : 0 < (channel_try_recv true (here c k)).0.0 = omega (
        arith,
        ap (λ (r : ℕ × List ℕ). r.0) got.0,
        length-take size_bytes (drop size_bytes (incoming me c)),
        length-drop size_bytes (incoming me c),
      ) in
      rw (ltb-eq_true 0 _ some_bytes) (
        ap some (omega arith),
        ap (λ (r : ℕ × List ℕ). r.1) got.0,
        ap (λ (xs : List ℕ). xs ∷ all_incoming me after) got.1,
      )
  recv_turn-first me (b ∷ before) after c k i h none_held o long =
      let skipped = try_incoming-empty me b k h none_held.0 in
      let rest = recv_turn-first me before after c _ (suc i) skipped.2 none_held.1 o long in
      rw (skipped.0) (
        rest.0 ∙ ap some (omega arith),
        rest.1,
        ap₂ (λ (xs : List ℕ) xss. xs ∷ xss) (skipped.1 ∙ sym none_held.0) rest.2,
      )

  -- On the channels of `before` nothing waits for the thread, and the next channel is open and holds more
  -- than four bytes for it. Then channel_recv_select returns the index of that channel in its first turn, with
  -- the four bytes, or what there is of them, behind the first four, which both are gone; what the other
  -- channels hold for the thread stays.
  pub recv_select-first :
      (me : ℕ) (before after : List (Channel R)) (c : Channel R) (k : R.State) (fuel : ℕ)
      → R.getpid k ≡ me
      → NoneIncoming me before
      → channel_is_closed c ≡ false
      → size_bytes < length (incoming me c)
      → Took me before c after 0 (channel_recv_select (suc fuel) true (before ++ (c ∷ after)) k)
  unfolding channel_recv_select
  recv_select-first me before after c k fuel h none_held o long =
      let turn = recv_turn-first me before after c k 0 h none_held o long in
      subst (Took me before c after 0) (sym (settle-some (0 + length before) _ _ _ turn.0)) turn

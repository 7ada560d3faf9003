-- ===== src/Channel/Flags.antt =====
-- enum CHANNEL_FLAGS of modules/csp/include/csp.h, and the bit tests of csp.h and csp.c.
use riot_csp_module.Common.{
  ℕ, ◌≡◌, refl, ◌<◌, ◌*◌, ◌^◌, ◌-◌, Bool, true, false, bit_and, bit_or, ◌==◌, if◌then◌else◌, not,
  ◌||◌, passes, passes_lem, ltb, ltb→lt, arith,
}

abbrev pub channel_closed : ℕ
channel_closed = 1

abbrev pub channel_buffered : ℕ
channel_buffered = 2

abbrev channel_send_ready : ℕ
channel_send_ready = 4

abbrev channel_recv_ready : ℕ
channel_recv_ready = 8

-- `flags & f`, as a condition
unfoldable pub has_flag : ℕ → ℕ → Bool
has_flag f flags = not (bit_and flags f == 0)

-- `flags |= f`
pub add_flag : ℕ → ℕ → ℕ
add_flag f flags = bit_or flags f

-- `buffered << (CHANNEL_BUFFERED - 1)`
pub shifted : Bool → ℕ
shifted buffered = (if buffered then 1 else 0) * 2 ^ (channel_buffered - 1)

-- Only the four flags are ever set.
abbrev pub InFlags : ℕ → Type 0
InFlags flags = flags < 16

beq : Bool → Bool → Bool
beq true b = b
beq false b = not b

beq_sound : (a b : Bool) → beq a b ≡ true → a ≡ b
unfolding beq
beq_sound a b h = ground arith

pub closed-add_closed :
    (flags : ℕ) → InFlags flags → has_flag channel_closed (add_flag channel_closed flags) ≡ true
unfolding has_flag add_flag passes
closed-add_closed flags h =
    passes_lem (λ f. has_flag channel_closed (add_flag channel_closed f)) 16 flags h refl

pub buffered-add_closed :
    (flags : ℕ)
    → InFlags flags
    → has_flag channel_buffered (add_flag channel_closed flags) ≡ has_flag channel_buffered flags
unfolding has_flag add_flag passes beq
buffered-add_closed flags h = beq_sound _ _ (
    passes_lem
      (λ f.
        beq (has_flag channel_buffered (add_flag channel_closed f)) (has_flag channel_buffered f))
      16 flags h refl)

-- what channel_set_buffered does to the flag and to the other one, for either argument
pub buffered-add_shifted :
    (b : Bool) (flags : ℕ)
    → InFlags flags
    → (has_flag channel_buffered (add_flag (shifted b) flags)
        ≡ (b || has_flag channel_buffered flags))
      × (has_flag channel_closed (add_flag (shifted b) flags) ≡ has_flag channel_closed flags)
unfolding has_flag add_flag passes beq shifted
buffered-add_shifted true flags h = (
  passes_lem (λ f. has_flag channel_buffered (add_flag (shifted true) f)) 16 flags h refl,
  beq_sound _ _ (
      passes_lem
        (λ f. beq (has_flag channel_closed (add_flag (shifted true) f)) (has_flag channel_closed f))
        16 flags h refl),
)
buffered-add_shifted false flags h = (
  beq_sound _ _ (
      passes_lem
        (λ f.
          beq (has_flag channel_buffered (add_flag (shifted false) f))
            (has_flag channel_buffered f))
        16 flags h refl),
  beq_sound _ _ (
      passes_lem
        (λ f.
          beq (has_flag channel_closed (add_flag (shifted false) f)) (has_flag channel_closed f))
        16 flags h refl),
)

InFlags-add_flag : (f flags : ℕ) → InFlags f → InFlags flags → InFlags (add_flag f flags)
unfolding add_flag passes
InFlags-add_flag f flags hf h = ltb→lt _ _ (
    passes_lem (λ g. ltb (add_flag f g) 16) 16 flags h
      (passes_lem (λ e. passes (λ g. ltb (add_flag e g) 16) 16) 16 f hf refl))

-- the flags that channel_make sets
abbrev pub made_flags : Bool → ℕ
made_flags buffered = if buffered then channel_buffered else 0

pub made_open : (buffered : Bool) → has_flag channel_closed (made_flags buffered) ≡ false
unfolding has_flag
made_open true = refl
made_open false = refl

pub made_buffered : (buffered : Bool) → has_flag channel_buffered (made_flags buffered) ≡ buffered
unfolding has_flag
made_buffered true = refl
made_buffered false = refl
